-- ===== src/SyncClient/ManagedPath/Shapes.antt =====
-- The paths that the check of a ledger's entry lets through are those that the client renders to.
use Prim.Native.Char.{Char, code}
use Prim.Native.String
use Prim.Native.String.{◌∷◌}
use text.Mathlib.TextLemmas.{nil-append, cons-append, append_assoc}
use orbeat_community.Prelude.{
  some_inj, String, ◌≡◌, ◌↔◌, refl, sym, ap, ◌∙◌, inl, inr, true, false, some, List, [], ◌==◌,
  Among, arith, eq_iff, eqb, Bool-cases,
}
use orbeat_community.Text.Slug.{is_slug}
use orbeat_community.Text.Slug.Slashes.{NoSlash, is_slug-NoSlash}
use orbeat_community.SyncClient.ManagedPath.{
  skill_path, subagent_path, path_of, split_slash, before_dot, stem, renders_to, any_segment,
  valid_managed_file_path,
}

-- The path of some type and some safe name.
abbrev pub IsRendered : String → Type 0
IsRendered rel =
    (type : String) × (name : String) × (is_slug name ≡ true) × (path_of type name ≡ some rel)

renders_to-IsRendered : (rel name : String) → renders_to rel name ≡ true → IsRendered rel
unfolding renders_to path_of
renders_to-IsRendered rel name h = elim (Bool-cases (skill_path name == rel)) [
  | inl skill ↦ ("skill", name, ground arith, ap some ((eq_iff (skill_path name) rel).0 skill))
  | inr other ↦
      ("subagent", name, ground arith, ap some ((eq_iff (subagent_path name) rel).0 (ground arith)))
]

any_segment-IsRendered :
    (rel : String) (segs : List String) → any_segment rel segs ≡ true → IsRendered rel
unfolding any_segment
any_segment-IsRendered rel [] h = cc
any_segment-IsRendered rel (List.◌∷◌ seg segs) h = elim (Bool-cases (renders_to rel seg)) [
  | inl whole ↦ renders_to-IsRendered rel seg whole
  | inr other ↦ elim (Bool-cases (renders_to rel (stem seg))) [
    | inl stemmed ↦ renders_to-IsRendered rel (stem seg) stemmed
    | inr neither ↦ any_segment-IsRendered rel segs (rw (other, neither) at h)
  ]
]

any_segment_of :
    (rel name : String) (segs : List String)
    → Among name segs
    → renders_to rel name ≡ true
    → any_segment rel segs ≡ true
unfolding any_segment
any_segment_of rel name [] among h = absurd among
any_segment_of rel name (List.◌∷◌ seg segs) (inl here) h = rw (here, h) refl
any_segment_of rel name (List.◌∷◌ seg segs) (inr later) h =
    ground (arith, any_segment_of rel name segs later h)

any_segment_of_stem :
    (rel seg : String) (segs : List String)
    → Among seg segs
    → renders_to rel (stem seg) ≡ true
    → any_segment rel segs ≡ true
unfolding any_segment
any_segment_of_stem rel seg [] among h = absurd among
any_segment_of_stem rel seg (List.◌∷◌ s segs) (inl here) h = rw here (ground arith)
any_segment_of_stem rel seg (List.◌∷◌ s segs) (inr later) h =
    ground (arith, any_segment_of_stem rel seg segs later h)

abbrev slash : Char
slash = "/"

split_slash-step :
    (n t : String)
    → NoSlash n
    → split_slash (String.◌++◌ n (slash ∷ t)) ≡ List.◌∷◌ n (split_slash t)
unfolding split_slash
split_slash-step String.[] t h = rw nil-append refl
split_slash-step (c ∷ n) t (here, h) =
    let other : eqb (code c) b'/' ≡ false = ground arith in
    rw (cons-append, other, split_slash-step n t h) refl

split_slash-md :
    (n : String) → NoSlash n → split_slash (String.◌++◌ n ".md") ≡ List.◌∷◌ (String.◌++◌ n ".md") []
unfolding split_slash
split_slash-md String.[] h = refl
split_slash-md (c ∷ n) (here, h) =
    let other : eqb (code c) b'/' ≡ false = ground arith in
    rw (cons-append, other, split_slash-md n h) refl

split_slash-skill_file : split_slash "SKILL.md" ≡ List.◌∷◌ "SKILL.md" []
unfolding split_slash
split_slash-skill_file = refl

before_dot-md : (n : String) → before_dot (String.◌++◌ n ".md") ≡ some n
unfolding before_dot
before_dot-md String.[] = refl
before_dot-md (c ∷ n) = rw (cons-append, before_dot-md n) refl

slash_append : (t : String) → String.◌++◌ "/" t ≡ slash ∷ t
slash_append t = cons-append slash String.[] t ∙ ap (λ x. slash ∷ x) (nil-append t)

split_slash-front :
    (n t : String)
    → NoSlash n
    → split_slash (String.◌++◌ n (String.◌++◌ "/" t)) ≡ List.◌∷◌ n (split_slash t)
split_slash-front n t h =
    ap (λ x. split_slash (String.◌++◌ n x)) (slash_append t) ∙ split_slash-step n t h

-- A directory of one segment.
split_slash-dir :
    (dir t : String)
    → is_slug dir ≡ true
    → split_slash (String.◌++◌ (String.◌++◌ dir "/") t) ≡ List.◌∷◌ dir (split_slash t)
split_slash-dir dir t slug =
    ap split_slash (append_assoc dir "/" t) ∙ split_slash-front dir t (is_slug-NoSlash dir slug)

split_slash-skill_path :
    (n : String)
    → NoSlash n
    → split_slash (skill_path n) ≡ List.◌∷◌ "skills" (List.◌∷◌ n (List.◌∷◌ "SKILL.md" []))
unfolding is_slug
split_slash-skill_path n h =
    split_slash-dir "skills" (String.◌++◌ n "/SKILL.md") refl
    ∙ ap (λ x. List.◌∷◌ "skills" x)
        (split_slash-front n "SKILL.md" h ∙ ap (λ x. List.◌∷◌ n x) split_slash-skill_file)

split_slash-subagent_path :
    (n : String)
    → NoSlash n
    → split_slash (subagent_path n) ≡ List.◌∷◌ "agents" (List.◌∷◌ (String.◌++◌ n ".md") [])
unfolding is_slug
split_slash-subagent_path n h =
    split_slash-dir "agents" (String.◌++◌ n ".md") refl
    ∙ ap (λ x. List.◌∷◌ "agents" x) (split_slash-md n h)

IsRendered-valid :
    (rel type name : String)
    → is_slug name ≡ true
    → path_of type name ≡ some rel
    → any_segment rel (split_slash rel) ≡ true
unfolding path_of renders_to
IsRendered-valid rel type name slug path = elim (Bool-cases (type == "skill")) [
  | inl skill ↦
      let e : skill_path name ≡ rel = some_inj (rw skill at path) in
      let renders : renders_to rel name ≡ true = ground (arith, eq_iff (skill_path name) rel) in
      rw (← e, split_slash-skill_path name (is_slug-NoSlash name slug))
        (rw e (any_segment_of rel name _ (inr (inl refl)) renders))
  | inr other ↦ elim (Bool-cases (type == "subagent")) [
    | inl subagent ↦
        let e : subagent_path name ≡ rel = some_inj (rw (other, subagent) at path) in
        let renders : renders_to rel name ≡ true =
          ground (arith, eq_iff (subagent_path name) rel) in
        let stemmed : stem (String.◌++◌ name ".md") ≡ name =
          unfold stem in rw (before_dot-md name) refl in
        let segs = List.◌∷◌ "agents" (List.◌∷◌ (String.◌++◌ name ".md") []) in
        let parts : split_slash rel ≡ segs =
          ap split_slash (sym e) ∙ split_slash-subagent_path name (is_slug-NoSlash name slug) in
        let stem_renders : renders_to rel (stem (String.◌++◌ name ".md")) ≡ true =
          ap (renders_to rel) stemmed ∙ renders in
        ap (any_segment rel) parts
        ∙ any_segment_of_stem rel (String.◌++◌ name ".md") segs (inr (inl refl)) stem_renders
    | inr neither ↦ cc (rw (other, neither) at path)
  ]
]

-- The check accepts a path exactly where it is the path of a file-backed type and a safe name: so
-- no other file is ever removed through the ledger, and every file that the client writes is one
-- that it can remove again.
pub valid_managed_file_path_iff :
    (rel : String) → (valid_managed_file_path rel ≡ true) ↔ IsRendered rel
unfolding valid_managed_file_path
valid_managed_file_path_iff rel =
    (any_segment-IsRendered rel (split_slash rel), λ h. IsRendered-valid rel h.0 h.1 h.2 h.3)
