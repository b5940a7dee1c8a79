-- ===== src/Govern/Spec.antt =====
-- What a composition of scanners finds, and what the scan of a call keeps of its findings.
use orbeat_community.Prelude.{
  ◌≡◌, ◌⊎◌, ◌↔◌, refl, inl, inr, true, ◌||◌, Option, none, some, List, [], ◌∷◌, ◌++◌, map, arith,
  eq_iff, Bool-cases, Option-cases,
}
use orbeat_community.Govern.{
  Finding, ArtifactPayload, Scanner, has_blocking, scan_all, composite_scan, CallPayload, label,
  scan_call,
}

abbrev pub IsBlocking : Finding → Type 0
IsBlocking f = f.severity ≡ "block"

-- Some finding blocks.
abbrev pub AnyBlocking : List Finding → Type 0
AnyBlocking [] = ⊥
AnyBlocking (f ∷ fs) = IsBlocking f ⊎ AnyBlocking fs

pub has_blocking_iff : (fs : List Finding) → (has_blocking fs ≡ true) ↔ AnyBlocking fs
unfolding has_blocking
has_blocking_iff [] = (λ h. cc, λ h. absurd h)
has_blocking_iff (f ∷ fs) = ground (arith, eq_iff f.severity "block", has_blocking_iff fs)

pub has_blocking-append :
    (fs gs : List Finding) → has_blocking (fs ++ gs) ≡ (has_blocking fs || has_blocking gs)
unfolding has_blocking
has_blocking-append [] gs = refl
has_blocking-append (f ∷ fs) gs = ground (arith, has_blocking-append fs gs)

pub has_blocking-label :
    (p : CallPayload) (fs : List Finding) → has_blocking (map (label p) fs) ≡ has_blocking fs
unfolding has_blocking
has_blocking-label p [] = refl
has_blocking-label p (f ∷ fs) = ground (arith, has_blocking-label p fs)

-- A scanner of the composition reports a blocking finding for the payload.
abbrev pub SomeBlocks : List (Option Scanner) → ArtifactPayload → Type 0
SomeBlocks [] p = ⊥
SomeBlocks (none ∷ scs) p = SomeBlocks scs p
SomeBlocks (some sc ∷ scs) p =
    ((fs : List Finding) × (sc p ≡ some fs) × (has_blocking fs ≡ true)) ⊎ SomeBlocks scs p

scan_all-blocking :
    (scs : List (Option Scanner)) (all found : List Finding) (p : ArtifactPayload)
    → scan_all scs all p ≡ some found
    → (has_blocking found ≡ true) ↔ ((has_blocking all ≡ true) ⊎ SomeBlocks scs p)
unfolding scan_all
scan_all-blocking [] all found p e = ground arith
scan_all-blocking (none ∷ scs) all found p e = scan_all-blocking scs all found p e
scan_all-blocking (some sc ∷ scs) all found p e = elim (Option-cases (sc p)) [
  | inl failed ↦ ground arith
  | inr (fs, ran) ↦
      let (to, from) = scan_all-blocking scs (all ++ fs) found p (rw ran at e) in
      (
        λ h. elim (to h) [
          | inl either ↦ elim (Bool-cases (has_blocking all)) [
            | inl before ↦ inl before
            | inr clean ↦ inr (inl (fs, ran, ground (arith, has_blocking-append all fs)))
          ]
          | inr later ↦ inr (inr later)
        ],
        λ h. from (elim h [
          | inl before ↦ inl (ground (arith, has_blocking-append all fs))
          | inr found_ ↦ elim found_ [
            | inl (gs, ran', blocks) ↦ inl (ground (arith, has_blocking-append all fs))
            | inr later ↦ inr later
          ]
        ]),
      )
]

-- Where no scanner fails, the composition blocks exactly where one of its scanners does.
pub composite_scan-blocking :
    (scs : List (Option Scanner)) (found : List Finding) (p : ArtifactPayload)
    → composite_scan scs p ≡ some found
    → (has_blocking found ≡ true) ↔ SomeBlocks scs p
unfolding composite_scan has_blocking
composite_scan-blocking scs found p e =
    let (to, from) = scan_all-blocking scs [] found p e in
    (λ h. elim (to h) [ inl nothing ↦ cc | inr some_ ↦ some_ ], λ h. from (inr h))

-- The scan of a call fails where the scanner does, and otherwise blocks exactly where it does.
pub scan_call-blocking :
    (s : Scanner) (c : CallPayload) (found : List Finding)
    → scan_call s c ≡ some found
    → (raw : List Finding) × (s (record {
      type = "";
      name = "";
      content = c.content;
      memory_scope = "";
      memory_seed = "";
    })
        ≡ some raw)
      × (has_blocking found ≡ has_blocking raw)
unfolding scan_call
scan_call-blocking s c found e =
    let p : ArtifactPayload = record {
      type = "";
      name = "";
      content = c.content;
      memory_scope = "";
      memory_seed = "";
    } in
    elim (Option-cases (s p)) [
      | inl failed ↦ cc (rw failed at e)
      | inr (raw, ran) ↦
          let e' : some (map (label c) raw) ≡ some found = rw ran at e in
          (raw, ran, cc (has_blocking-label c raw))
    ]
