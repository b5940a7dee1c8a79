-- ===== src/Gateway/SessionCache/Drops.antt =====
-- The account of the sessions: which are cached, and how often each was closed.
use orbeat_community.Prelude.{
  some_inj, ℕ, ◌+◌, ◌<◌, String, ◌≡◌, ◌≢◌, ◌⊎◌, refl, sym, ap, ◌∙◌, inl, inr, false, Option, none,
  some, [], ◌∷◌, ◌==◌, eqb, arith, eq_iff, eq_refl, Bool-cases, Option-cases, if◌then◌else◌,
}
use orbeat_community.Prelude.Assoc.{Assoc, lookup, erase, lookup-erase, Distinct, Distinct-erase}
use orbeat_community.Gateway.SessionCache.{
  CachedSession, SessionCache, stale_transports, close_session, drop, drop_entry, drop_where,
}

-- A cached session was made, is filed under its own key and was never closed. A session that was
-- made and is not cached was closed once.
pub record IsAccounted (c : SessionCache) : Type 0 where
  pub cached :
      (key : String) (r : ℕ)
      → lookup key c.m ≡ some r
      → (r < c.next) × ((c.heap r).closes ≡ 0) × ((c.heap r).cache_key ≡ key)
  pub settled :
      (r : ℕ) → r < c.next → ((c.heap r).closes ≡ 1) ⊎ (lookup (c.heap r).cache_key c.m ≡ some r)
  pub distinct : Distinct c.m

-- What the account does not look at may change.
pub record SameAccount (c c' : SessionCache) : Type 0 where
  pub same_m : c'.m ≡ c.m
  pub same_next : c'.next ≡ c.next
  pub same_closes : (r : ℕ) → (c'.heap r).closes ≡ (c.heap r).closes
  pub same_key : (r : ℕ) → (c'.heap r).cache_key ≡ (c.heap r).cache_key

pub SameAccount-IsAccounted :
    (c c' : SessionCache) → SameAccount c c' → IsAccounted c → IsAccounted c'
SameAccount-IsAccounted c c' same h = record {
  cached = λ key r there.
      let (made, open_, filed) = h.cached key r (rw same.same_m at there) in
      (rw same.same_next made, same.same_closes r ∙ open_, same.same_key r ∙ filed);
  settled = λ r made.
      rw (same.same_closes r, same.same_key r, same.same_m)
        (h.settled r (rw same.same_next at made));
  distinct = rw same.same_m h.distinct;
}

module _ (c : SessionCache) (key : String) (r : ℕ) (cause : String) (now : ℕ) where
  -- The heap after a drop.
  drop-heap :
      (k : ℕ)
      → (((drop key r cause now c).heap k).cache_key ≡ (c.heap k).cache_key)
        × (((drop key r cause now c).heap k).closes
            ≡ (if eqb k r then (c.heap k).closes + 1 else (c.heap k).closes))
  unfolding drop stale_transports close_session
  drop-heap k = elim (Bool-cases (eqb k r)) [
    | inl same ↦ rw same (refl, refl)
    | inr other ↦ rw other (refl, refl)
  ]

  pub drop-m : (drop key r cause now c).m ≡ erase key c.m
  unfolding drop stale_transports close_session
  drop-m = refl

  pub drop-next : (drop key r cause now c).next ≡ c.next
  unfolding drop stale_transports close_session
  drop-next = refl

  lookup-drop :
      (j : String) → lookup j (drop key r cause now c).m ≡ (if key == j then none else lookup j c.m)
  lookup-drop j = ap (lookup j) drop-m ∙ lookup-erase key j c.m

  drop-cached :
      (key' : String) (r' : ℕ)
      → lookup key c.m ≡ some r
      → IsAccounted c
      → lookup key' (drop key r cause now c).m ≡ some r'
      → (r' < c.next)
        × (((drop key r cause now c).heap r').closes ≡ 0)
        × (((drop key r cause now c).heap r').cache_key ≡ key')
  drop-cached key' r' there h there' =
      let found : (if key == key' then none else lookup key' c.m) ≡ some r' =
        sym (lookup-drop key') ∙ there' in
      elim (Bool-cases (key == key')) [
        | inl same ↦ cc (rw same at found)
        | inr other ↦
            let (made, fresh, filed) = h.cached key' r' (rw other at found) in
            let apart : r' ≢ r = λ e. cc (
              other,
              eq_refl key,
              sym filed ∙ ap (λ k. (c.heap k).cache_key) e ∙ (h.cached key r there).2,
            ) in
            let unhit : eqb r' r ≡ false = ground arith in
            (made, (drop-heap r').1 ∙ rw unhit fresh, (drop-heap r').0 ∙ filed)
      ]

  drop-settled :
      (r' : ℕ)
      → lookup key c.m ≡ some r
      → IsAccounted c
      → r' < c.next
      → (((drop key r cause now c).heap r').closes ≡ 1)
        ⊎ (lookup ((drop key r cause now c).heap r').cache_key (drop key r cause now c).m ≡ some r')
  drop-settled r' there h made = elim (Bool-cases (eqb r' r)) [
    | inl same ↦
        let e : r' ≡ r = ground arith in
        let (m, fresh, filed) = h.cached key r there in
        inl ((drop-heap r').1 ∙ rw same (ap (λ k. (c.heap k).closes + 1) e ∙ ap (λ n. n + 1) fresh))
    | inr other ↦ elim (h.settled r' made) [
      | inl closed ↦ inl ((drop-heap r').1 ∙ rw other closed)
      | inr cached ↦ elim (Bool-cases (key == (c.heap r').cache_key)) [
        | inl same ↦
            let e = (eq_iff key (c.heap r').cache_key).0 same in
            let both : r ≡ r' = some_inj (sym there ∙ ap (λ k. lookup k c.m) e ∙ cached) in
            absurd (ground arith)
        | inr apart ↦ inr (
            ap (λ k. lookup k (drop key r cause now c).m) (drop-heap r').0
            ∙ lookup-drop (c.heap r').cache_key
            ∙ rw apart cached)
      ]
    ]
  ]

  pub drop-IsAccounted :
      lookup key c.m ≡ some r → IsAccounted c → IsAccounted (drop key r cause now c)
  drop-IsAccounted there h = record {
    cached = λ key' r' there'.
        let (made, fresh, filed) = drop-cached key' r' there h there' in
        (rw drop-next made, fresh, filed);
    settled = λ r' made'. drop-settled r' there h (rw drop-next at made');
    distinct = rw drop-m (Distinct-erase key c.m h.distinct);
  }

-- The loops over the map, started on its own entries.
pub drop_where-IsAccounted :
    (why : CachedSession → Option String) (now : ℕ) (entries : Assoc ℕ) (c : SessionCache)
    → Distinct entries
    → ((key : String) (r : ℕ) → lookup key entries ≡ some r → lookup key c.m ≡ some r)
    → IsAccounted c
    → IsAccounted (drop_where why now entries c)
unfolding drop_where drop_entry lookup
drop_where-IsAccounted why now [] c distinct there h = h
drop_where-IsAccounted why now ((key, r) ∷ rest) c (once, distinct) there h =
    let here : lookup key c.m ≡ some r = there key r (rw (eq_refl key) refl) in
    let apart : (key' : String) (r' : ℕ) → lookup key' rest ≡ some r' → key == key' ≡ false =
      λ key' r' e. ground (arith, eq_iff key key') in
    let later : (key' : String) (r' : ℕ) → lookup key' rest ≡ some r' → lookup key' c.m ≡ some r' =
      λ key' r' e. there key' r' (rw (apart key' r' e) e) in
    elim (Option-cases (why (c.heap r))) [
      | inl kept ↦ rw kept (drop_where-IsAccounted why now rest c distinct later h)
      | inr (cause, gone) ↦
          let c' = drop key r cause now c in
          rw gone (
            drop_where-IsAccounted why now rest c' distinct
              (λ key' r' e.
                lookup-drop c key r cause now key' ∙ rw (apart key' r' e) (later key' r' e))
              (drop-IsAccounted c key r cause now here h))
    ]
