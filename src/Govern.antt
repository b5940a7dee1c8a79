-- ===== src/Govern.antt =====
-- internal/govern: scanners, their composition, and the scan of a tool call. The rules of the
-- default scanner (regular expressions) are not modelled: a scanner is any function.
pub mod Spec
mod Tests
use Prim.Native.String
use orbeat_community.Prelude.{
  String, Bool, true, false, ◌||◌, Option, none, some, List, [], ◌∷◌, ◌++◌, ◌==◌, map,
  if◌then◌else◌,
}

pub record Finding : Type 0 where
  pub rule : String
  pub message : String
  pub severity : String

pub record ArtifactPayload : Type 0 where
  pub type : String
  pub name : String
  pub content : String
  pub memory_scope : String
  pub memory_seed : String

-- Scanner.Scan: none where it returns an error.
abbrev pub Scanner : Type 0
Scanner = ArtifactPayload → Option (List Finding)

unfoldable pub has_blocking : List Finding → Bool
has_blocking [] = false
has_blocking (f ∷ fs) = f.severity == "block" || has_blocking fs

infixl 5 ◌>>=◌
abbrev pub ◌>>=◌ {ℓ κ} : {A : Type ℓ} {B : Type κ} → Option A → (A → Option B) → Option B
none >>= f = none
some a >>= f = f a

-- The loop of CompositeScanner.Scan; a nil scanner is none.
pub scan_all : List (Option Scanner) → List Finding → Scanner
scan_all [] all p = some all
scan_all (none ∷ scs) all p = scan_all scs all p
scan_all (some sc ∷ scs) all p = do f ← sc p; scan_all scs (all ++ f) p

unfoldable pub composite_scan : List (Option Scanner) → Scanner
composite_scan scanners p = scan_all scanners [] p

pub record CallPayload : Type 0 where
  pub tool : String
  pub direction : String
  pub content : String

abbrev pub direction_arguments : String
direction_arguments = "arguments"

abbrev pub direction_result : String
direction_result = "result"

-- fmt.Sprintf("%s (tool %s, %s)", f.Message, p.Tool, p.Direction)
abbrev pub call_message : CallPayload → String → String
call_message p message =
    String.◌++◌ message
      (String.◌++◌ " (tool " (String.◌++◌ p.tool (String.◌++◌ ", " (String.◌++◌ p.direction ")"))))

abbrev pub label : CallPayload → Finding → Finding
label p f = record f { message = call_message p f.message }

unfoldable pub scan_call : Scanner → CallPayload → Option (List Finding)
scan_call s p = do
  findings ←
      s (record { type = ""; name = ""; content = p.content; memory_scope = ""; memory_seed = "" })
  some (map (label p) findings)
