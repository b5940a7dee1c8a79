-- ===== src/SyncClient/Projects/Tags.antt =====
-- What normalizeTags gives.
use orbeat_community.Prelude.{
  ◌≤◌, String, ◌≡◌, ◌⊎◌, ◌↔◌, sym, inl, inr, true, not, List, [], ◌∷◌, ◌++◌, subst, ltb, length,
  Among, contains, contains_iff, arith, Bool-cases,
}
use orbeat_community.Prelude.Results.{ok_inj, ok, Result-cases}
use orbeat_community.Text.Slug.{is_slug}
use orbeat_community.SyncClient.Projects.{Env, max_project_tags, collect_tags, normalize_tags}

Among-snoc :
    (x : String) (xs : List String) (t : String) → Among t (xs ++ x ∷ []) ↔ (Among t xs ⊎ (x ≡ t))
Among-snoc x [] t = (
  λ h. elim h [ inl e ↦ inr e | inr n ↦ absurd n ],
  λ h. elim h [ inl n ↦ absurd n | inr e ↦ inl e ],
)
Among-snoc x (y ∷ xs) t = (
  λ h. elim h [
    | inl e ↦ inl (inl e)
    | inr later ↦ elim ((Among-snoc x xs t).0 later) [ inl a ↦ inl (inr a) | inr e ↦ inr e ]
  ],
  λ h. elim h [
    | inl there ↦ elim there [ inl e ↦ inl e | inr later ↦ inr ((Among-snoc x xs t).1 (inl later)) ]
    | inr e ↦ inr ((Among-snoc x xs t).1 (inr e))
  ],
)

-- The loop gives what it had and the tags, and each tag is a slug.
collect_tags-Among :
    (out tags got : List String)
    → collect_tags out tags ≡ ok got
    → (t : String) → Among t got ↔ (Among t out ⊎ Among t tags)
unfolding collect_tags
collect_tags-Among out [] got h t =
    let same : out ≡ got = ok_inj h in
    (
      λ there. inl (subst (Among t) (sym same) there),
      λ there. elim there [ inl a ↦ subst (Among t) same a | inr n ↦ absurd n ],
    )
collect_tags-Among out (x ∷ tags) got h t = elim (Bool-cases (not (is_slug x))) [
  | inl bad ↦ cc (rw bad at h)
  | inr slug ↦ elim (Bool-cases (contains out x)) [
    | inl again ↦
        let ih = collect_tags-Among out tags got (rw (slug, again) at h) t in
        let there : Among x out = (contains_iff out x).0 again in
        (
          λ a. elim (ih.0 a) [ inl b ↦ inl b | inr c ↦ inr (inr c) ],
          λ a. elim a [
            | inl b ↦ ih.1 (inl b)
            | inr c ↦ elim c [
              | inl e ↦ ih.1 (inl (subst (λ y. Among y out) e there))
              | inr d ↦ ih.1 (inr d)
            ]
          ],
        )
    | inr first ↦
        let ih = collect_tags-Among (out ++ x ∷ []) tags got (rw (slug, first) at h) t in
        let snoc = Among-snoc x out t in
        (
          λ a. elim (ih.0 a) [
            | inl b ↦ elim (snoc.0 b) [ inl c ↦ inl c | inr e ↦ inr (inl e) ]
            | inr c ↦ inr (inr c)
          ],
          λ a. elim a [
            | inl b ↦ ih.1 (inl (snoc.1 (inl b)))
            | inr c ↦ elim c [ inl e ↦ ih.1 (inl (snoc.1 (inr e))) | inr d ↦ ih.1 (inr d) ]
          ],
        )
  ]
]

collect_tags-slugs :
    (out tags got : List String)
    → collect_tags out tags ≡ ok got
    → (t : String) → Among t tags
    → is_slug t ≡ true
unfolding collect_tags
collect_tags-slugs out [] got h t there = absurd there
collect_tags-slugs out (x ∷ tags) got h t there = elim (Bool-cases (not (is_slug x))) [
  | inl bad ↦ cc (rw bad at h)
  | inr slug ↦ elim there [
    | inl e ↦ subst (λ y. is_slug y ≡ true) e (ground arith)
    | inr later ↦ elim (Bool-cases (contains out x)) [
      | inl again ↦ collect_tags-slugs out tags got (rw (slug, again) at h) t later
      | inr first ↦ collect_tags-slugs (out ++ x ∷ []) tags got (rw (slug, first) at h) t later
    ]
  ]
]

-- Tags that are normalised are those that were given, each of them is a slug, and there are at most
-- 16, where the sort keeps the elements and their number.
normalize_tags-bounds :
    (env : Env) (tags got : List String)
    → ((ts : List String) (t : String) → Among t (env.sort_strings ts) ↔ Among t ts)
    → ((ts : List String) → length (env.sort_strings ts) ≡ length ts)
    → normalize_tags env tags ≡ ok got
    → (length got ≤ 16)
      × ((t : String) → Among t got ↔ Among t tags)
      × ((t : String) → Among t tags → is_slug t ≡ true)
unfolding normalize_tags
normalize_tags-bounds env tags got elements size h = elim (Result-cases (collect_tags [] tags)) [
  | inl (e, bad) ↦ cc (rw bad at h)
  | inr (out, collected) ↦ elim (Bool-cases (ltb max_project_tags (length out))) [
    | inl many ↦ cc (rw (collected, many) at h)
    | inr few ↦
        let same : env.sort_strings out ≡ got = ok_inj (rw (collected, few) at h) in
        let members = collect_tags-Among [] tags out collected in
        (
          subst (λ l. length l ≤ 16) same (rw (size out) (ground arith)),
          λ t. (
            λ there. elim ((members t).0 ((elements out t).0 (subst (Among t) (sym same) there))) [
              | inl n ↦ absurd n
              | inr a ↦ a
            ],
            λ there. subst (Among t) same ((elements out t).1 ((members t).1 (inr there))),
          ),
          collect_tags-slugs [] tags out collected,
        )
  ]
]
