-- ===== src/SyncClient/Block.antt =====
-- internal/syncclient/rules.go and seed.go: a managed block in a developer's file, between two
-- markers, with the hash of its body in the first. The regular expressions of rules and seeds
-- differ in the markers alone. A text is its code points: a file is taken to be valid UTF-8.
pub mod Edit
pub mod Place
pub mod Trimmed
pub mod Render
pub mod Health
use orbeat_community.Prelude.{
  ℕ, zero, suc, ◌+◌, ◌≡◌, Bool, true, false, ◌&&◌, ◌||◌, Option, none, some, List, [], ◌∷◌, ◌++◌,
  eqb, leb, length, map, if◌then◌else◌,
}
use orbeat_community.Text.Pattern.{
  Chars, codes, newline, less_than, match_run, literal, skip_line, until, count_literal, trim_right,
  skip_newline, same,
}

-- The markers, without the `<` at which both start.
pub record Marks : Type 0 where
  pub begin_tail : Chars
  pub finish_tail : Chars

abbrev pub begin : Marks → Chars
begin m = less_than ∷ m.begin_tail

abbrev pub finish : Marks → Chars
finish m = less_than ∷ m.finish_tail

infixl 5 ◌>>=◌
abbrev pub ◌>>=◌ : {A B : Type 0} → Option A → (A → Option B) → Option B
none >>= f = none
some a >>= f = f a

abbrev pub is_hex : ℕ → Bool
is_hex c = (leb b'0' c && leb c b'9') || (leb b'a' c && leb c b'f')

abbrev pub times : ℕ → (ℕ → Bool) → List (ℕ → Bool)
times zero k = []
times (suc n) k = k ∷ times n k

-- [0-9a-f]{12}
unfoldable pub hash_run : List (ℕ → Bool)
hash_run = times 12 is_hex

abbrev pub sha : Chars
sha = codes "sha="

-- BEGIN sha=([0-9a-f]{12}) and a space: the hash, and what follows.
unfoldable pub match_header : Marks → Chars → Option (Chars × Chars)
match_header m s = do
  a ← match_run (literal (begin m ++ sha)) s
  h ← match_run hash_run a.1
  sp ← match_run (literal (codes " ")) h.1
  some (h.0, sp.1)

pub record Block : Type 0 where
  pub hash : Chars
  pub body : Chars
  pub after : Chars

unfoldable pub match_tail : Marks → Chars → Chars → Option Block
match_tail m hash s = do
  t ← skip_line s
  b ← until (finish m) t
  some (record { hash = hash; body = b.0; after = skip_newline b.1 })

-- The block's regular expression, at the start of the text.
unfoldable pub match_block : Marks → Chars → Option Block
match_block m s = match_header m s >>= (λ h. match_tail m h.0 h.1)

pub record Found : Type 0 where
  pub before : Chars
  pub block : Block

abbrev pub found_at : ℕ → Option Block → Option Found → Option Found
found_at c (some b) later = some (record { before = []; block = b })
found_at c none none = none
found_at c none (some f) = some (record f { before = c ∷ f.before })

-- FindStringSubmatchIndex: the leftmost match.
unfoldable pub find_block : Marks → Chars → Option Found
find_block m [] = none
find_block m (c ∷ s) = found_at c (match_block m (c ∷ s)) (find_block m s)

-- len(FindAllString) for the block. Each round takes at least one character, so as many rounds as
-- there are characters are enough.
unfoldable pub count_blocks : ℕ → Marks → Chars → ℕ
count_blocks zero m s = 0
count_blocks (suc fuel) m s = elim (find_block m s) [
  | none ↦ 0
  | some f ↦ 1 + count_blocks fuel m f.block.after
]

-- rulesMarkersHealthy, seedMarkersHealthy
unfoldable pub markers_healthy : Marks → Chars → Bool
markers_healthy m s =
    let blocks = count_blocks (length s) m s in
    leb blocks 1
    && eqb (count_literal (begin m) s) blocks
    && eqb (count_literal (finish m) s) blocks

-- rulesHash, seedHash: `digest` is the first 12 hexadecimal digits of SHA-256.
abbrev pub block_hash : (Chars → Chars) → Chars → Chars
block_hash digest body = digest (trim_right body)

-- renderRulesBlock, renderSeedBlock: `line` is what the format puts between hash and body.
unfoldable pub render_block : Marks → Chars → (Chars → Chars) → Chars → Chars
render_block m line digest body =
    begin m
    ++ sha
    ++ block_hash digest body
    ++ codes " "
    ++ line
    ++ newline ∷ []
    ++ trim_right body
    ++ newline ∷ []
    ++ finish m
    ++ newline ∷ []

-- The block does not hash to the hash in its own marker.
abbrev pub is_edited : (Chars → Chars) → Block → Bool
is_edited digest b = if same (block_hash digest b.body) b.hash then false else true
