-- ===== src/Prelude/Assoc.antt =====
-- Go maps with string keys, as association lists. A range over a map is a walk over the list; as
-- the theorems hold for every list, they hold for every order of iteration.
use Prim.Native.Nat.{◌+◌, ◌≤◌, ◌<◌}
use Prim.Native.String.{String}
use mathlib.Core.Path.{◌≡◌, refl}
use mathlib.Core.Logic.{◌≢◌, inl, inr}
use mathlib.Core.Option.{Option, none, some}
use mathlib.Core.List.{List, [], ◌∷◌, ◌++◌}
use native.Mathlib.Omega.{arith}
use text.Mathlib.Text.{◌==◌}
use text.Mathlib.TextEquality.{eq_iff}
use text.Mathlib.TextPositions.{eq_refl}
use orbeat_community.Prelude.Tests.{if◌then◌else◌, Bool-cases}
use orbeat_community.Prelude.Lists.{length, All}

abbrev pub Assoc {ℓ} : Type ℓ → Type ℓ
Assoc V = List (String × V)

module _ {ℓ} {V : Type ℓ} where
  -- m[k]
  unfoldable pub lookup : String → Assoc V → Option V
  lookup key [] = none
  lookup key ((j, value) ∷ rest) =
      let later = lookup key rest in if j == key then some value else later

  -- delete(m, k)
  unfoldable pub erase : String → Assoc V → Assoc V
  erase k [] = []
  erase k ((j, v) ∷ m) = let rest = erase k m in if j == k then rest else (j, v) ∷ rest

  -- m[k] = v
  unfoldable pub insert : String → V → Assoc V → Assoc V
  insert key value [] = (key, value) ∷ []
  insert key value ((j, w) ∷ rest) =
      let later = (j, w) ∷ insert key value rest in if j == key then (key, value) ∷ rest else later

  pub lookup-insert :
      (written read : String) (value : V) (m : Assoc V)
      → lookup read (insert written value m)
        ≡ (if written == read then some value else lookup read m)
  unfolding lookup insert
  lookup-insert written read value [] = refl
  lookup-insert written read value ((i, w) ∷ m) =
      let ih = lookup-insert written read value m in
      ground (arith, eq_iff written read, eq_iff i written, eq_iff i read, ih)

  -- A new key goes to the end.
  pub insert-append :
      (key : String) (value : V) (m rest : Assoc V)
      → lookup key m ≡ none
      → insert key value m ++ rest ≡ m ++ (key, value) ∷ rest
  unfolding insert lookup
  insert-append key value [] rest new = refl
  insert-append key value ((j, w) ∷ m) rest new = ground (arith, insert-append key value m rest)

  -- A predicate that holds of the new entry and of the old ones.
  pub All-insert :
      (P : String × V → Type 0) (key : String) (value : V) (m : Assoc V)
      → P (key, value)
      → All P m
      → All P (insert key value m)
  unfolding insert
  All-insert P key value [] new h = (new, tt)
  All-insert P key value ((j, w) ∷ m) new (here, h) = elim (Bool-cases (j == key)) [
    | inl same ↦ rw same (new, h)
    | inr other ↦ rw other (here, All-insert P key value m new h)
  ]

  pub lookup-erase :
      (k j : String) (m : Assoc V) → lookup j (erase k m) ≡ (if k == j then none else lookup j m)
  unfolding lookup erase
  lookup-erase k j [] = ground arith
  lookup-erase k j ((i, v) ∷ m) =
      ground (arith, lookup-erase k j m, eq_iff i k, eq_iff i j, eq_iff k j)

  pub length-insert_le : (k : String) (v : V) (m : Assoc V) → length (insert k v m) ≤ length m + 1
  unfolding insert
  length-insert_le k v [] = omega arith
  length-insert_le k v ((j, w) ∷ m) = ground (arith, length-insert_le k v m)

  -- Writing to a key that is there does not grow the map.
  pub length-insert_of_mem :
      (k : String) (v : V) (m : Assoc V) → lookup k m ≢ none → length (insert k v m) ≡ length m
  unfolding insert lookup
  length-insert_of_mem k v [] h = absurd (h refl)
  length-insert_of_mem k v ((j, w) ∷ m) h = ground (arith, length-insert_of_mem k v m)

  pub length-erase-le : (k : String) (m : Assoc V) → length (erase k m) ≤ length m
  unfolding erase
  length-erase-le k [] = omega arith
  length-erase-le k ((j, v) ∷ m) = ground (arith, length-erase-le k m)

  pub length-erase-lt_of_mem :
      (k : String) (m : Assoc V) → lookup k m ≢ none → length (erase k m) < length m
  unfolding erase lookup
  length-erase-lt_of_mem k [] h = absurd (h refl)
  length-erase-lt_of_mem k ((j, v) ∷ m) h =
      ground (arith, length-erase-lt_of_mem k m, length-erase-le k m)

  -- Every key of the list is a key of the map.
  All-lookup_weaken :
      (j : String) (v : V) (m xs : Assoc V)
      → All (λ p. lookup p.0 m ≢ none) xs
      → All (λ p. lookup p.0 ((j, v) ∷ m) ≢ none) xs
  unfolding lookup
  All-lookup_weaken j v m [] h = tt
  All-lookup_weaken j v m ((i, w) ∷ xs) (h, hs) = (ground arith, All-lookup_weaken j v m xs hs)

  pub All-lookup : (m : Assoc V) → All (λ p. lookup p.0 m ≢ none) m
  unfolding lookup
  All-lookup [] = tt
  All-lookup ((j, v) ∷ m) = (ground (arith, eq_refl j), All-lookup_weaken j v m m (All-lookup m))

  -- No key stands twice, as in every Go map.
  abbrev pub Distinct : Assoc V → Type ℓ
  Distinct [] = Unit
  Distinct ((k, v) ∷ m) = (lookup k m ≡ none) × Distinct m

  pub Distinct-insert : (k : String) (v : V) (m : Assoc V) → Distinct m → Distinct (insert k v m)
  unfolding lookup insert
  Distinct-insert k v [] h = (refl, tt)
  Distinct-insert k v ((j, w) ∷ m) (new, h) =
      ground (arith, Distinct-insert k v m h, lookup-insert k j v m, eq_iff j k, eq_iff k j)

  pub Distinct-erase : (k : String) (m : Assoc V) → Distinct m → Distinct (erase k m)
  unfolding lookup erase
  Distinct-erase k [] h = tt
  Distinct-erase k ((j, w) ∷ m) (new, h) = ground (arith, Distinct-erase k m h, lookup-erase k j m)
