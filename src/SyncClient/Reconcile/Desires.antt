-- ===== src/SyncClient/Reconcile/Desires.antt =====
-- What a run wants on the disk, against the artifacts that it is given.
use orbeat_community.Prelude.{
  some_inj, String, ◌≡◌, ◌≢◌, ◌⊎◌, refl, sym, ap, ◌∙◌, inl, inr, Option, none, some, List, [], ◌∷◌,
  ◌==◌, Among, arith, eq_iff, eq_refl, Bool-cases, if◌then◌else◌,
}
use orbeat_community.Prelude.Assoc.{lookup, insert, lookup-insert, Distinct, Distinct-insert}
use orbeat_community.Prelude.Results.{Result, ok, Result-cases}
use orbeat_community.Text.Slug.{is_slug}
use orbeat_community.SyncClient.ManagedPath.{path_of}
use orbeat_community.SyncClient.Reconcile.{
  Artifact, DesiredFile, Desired, desire, desire_path, Fatal,
}

abbrev pub file_of : Artifact → DesiredFile
file_of a = record { content = a.content; artifact_id = a.id; revision = a.revision }

abbrev pub target : Artifact → Option String
target a = path_of a.type a.name

want_of : {a b : DesiredFile} → some a ≡ some b → b ≡ a
want_of e = ground arith

ok_inj : {a b : Desired} → ◌≡◌ {A = Result Fatal Desired} (ok a) (ok b) → a.files ≡ b.files
ok_inj e = ground arith

desire_path_ok :
    (d d' : Desired) (a : Artifact) (o : Option String)
    → desire_path d a o ≡ ok d'
    → ((o ≡ none) × (d'.files ≡ d.files))
      ⊎ ((rel : String) × (o ≡ some rel) × (d'.files ≡ insert rel (file_of a) d.files))
unfolding desire_path
desire_path_ok d d' a none e = elim (Bool-cases (a.type == "rule")) [
  | inl rule ↦ inl (refl, sym (ok_inj (rw rule at e)))
  | inr unknown ↦ inl (refl, sym (ok_inj (rw unknown at e)))
]
desire_path_ok d d' a (some rel) e = elim (Bool-cases (is_slug a.name)) [
  | inr unsafe ↦ cc (rw unsafe at e)
  | inl safe ↦ inr (rel, refl, sym (ok_inj (rw safe at e)))
]

-- A classification that succeeds is one step that does and the rest.
desire_cons :
    (d d' : Desired) (a : Artifact) (arts : List Artifact)
    → desire d (a ∷ arts) ≡ ok d'
    → (m : Desired) × (desire_path d a (target a) ≡ ok m) × (desire m arts ≡ ok d')
unfolding desire
desire_cons d d' a arts e = elim (Result-cases (desire_path d a (target a))) [
  | inl (er, failed) ↦ cc (rw failed at e)
  | inr (m, went) ↦ (m, went, rw went at e)
]

pub desire-Distinct :
    (d d' : Desired) (arts : List Artifact)
    → Distinct d.files
    → desire d arts ≡ ok d'
    → Distinct d'.files
unfolding desire
desire-Distinct d d' [] h e = rw (← ok_inj e) h
desire-Distinct d d' (a ∷ arts) h e =
    let (m, step, rest) = desire_cons d d' a arts e in
    elim (desire_path_ok d m a (target a) step) [
      | inl (unknown, same) ↦ desire-Distinct m d' arts (rw same h) rest
      | inr (rel, known, more) ↦
          desire-Distinct m d' arts (rw more (Distinct-insert rel (file_of a) d.files h)) rest
    ]

-- The file wanted at a path comes from an artifact of that path.
abbrev pub Wanted : List Artifact → String → DesiredFile → Type 0
Wanted arts rel want = (b : Artifact) × Among b arts × (target b ≡ some rel) × (want ≡ file_of b)

pub desire_sound :
    (d d' : Desired) (arts : List Artifact) (rel : String) (want : DesiredFile)
    → desire d arts ≡ ok d'
    → lookup rel d'.files ≡ some want
    → (lookup rel d.files ≡ some want) ⊎ Wanted arts rel want
unfolding desire
desire_sound d d' [] rel want e there = inl (rw (ok_inj e) there)
desire_sound d d' (a ∷ arts) rel want e there =
    let (m, step, rest) = desire_cons d d' a arts e in
    elim (desire_sound m d' arts rel want rest there) [
      | inr (b, among, path, same) ↦ inr (b, inr among, path, same)
      | inl before ↦ elim (desire_path_ok d m a (target a) step) [
        | inl (unknown, same) ↦ inl (rw same at before)
        | inr (j, known, more) ↦
            let found : (if j == rel then some (file_of a) else lookup rel d.files) ≡ some want =
              sym (lookup-insert j rel (file_of a) d.files) ∙ rw more at before in
            elim (Bool-cases (j == rel)) [
              | inr other ↦ inl (rw other at found)
              | inl same ↦
                  inr (
                    a,
                    inl refl,
                    known ∙ ap some ((eq_iff j rel).0 same),
                    want_of (rw same at found),
                  )
            ]
      ]
    ]

-- What is wanted stays wanted, if perhaps from a later artifact.
desire_keeps :
    (d d' : Desired) (arts : List Artifact) (rel : String)
    → desire d arts ≡ ok d'
    → lookup rel d.files ≢ none
    → lookup rel d'.files ≢ none
unfolding desire
desire_keeps d d' [] rel e there = rw (← ok_inj e) there
desire_keeps d d' (a ∷ arts) rel e there =
    let (m, step, rest) = desire_cons d d' a arts e in
    elim (desire_path_ok d m a (target a) step) [
      | inl (unknown, same) ↦ desire_keeps m d' arts rel rest (rw same there)
      | inr (j, known, more) ↦
          let now : lookup rel (insert j (file_of a) d.files) ≢ none =
            ground (arith, lookup-insert j rel (file_of a) d.files) in
          desire_keeps m d' arts rel rest (rw more now)
    ]

pub desire_complete :
    (d d' : Desired) (arts : List Artifact) (rel : String) (a : Artifact)
    → desire d arts ≡ ok d'
    → Among a arts
    → target a ≡ some rel
    → lookup rel d'.files ≢ none
desire_complete d d' [] rel a e among path = absurd among
desire_complete d d' (b ∷ arts) rel a e among path =
    let (m, step, rest) = desire_cons d d' b arts e in
    elim among [
      | inr later ↦ desire_complete m d' arts rel a rest later path
      | inl here ↦ desire_keeps m d' arts rel rest (elim (desire_path_ok d m b (target b) step) [
        | inl (unknown, same) ↦ cc (sym path ∙ rw here at unknown)
        | inr (j, known, more) ↦
            let same : j ≡ rel = some_inj (sym known ∙ rw (← here) at path) in
            rw (more, same) (ground (arith, lookup-insert rel rel (file_of b) d.files, eq_refl rel))
      ])
    ]
