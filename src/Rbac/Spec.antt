-- ===== src/Rbac/Spec.antt =====
-- What the decisions promise: a call is allowed exactly by an entitlement for its server that
-- names the tool or names none.
use mathlib.Core.Bool.{false≢true}
use orbeat_community.Prelude.{
  sym, ap, ◌∙◌, String, ◌≡◌, ◌≢◌, ◌⊎◌, ◌↔◌, refl, inl, inr, true, Option, none, some, List, [], ◌∷◌,
  ◌==◌, contains_iff, Among, arith, eq_iff, Bool-cases, Option-cases,
}
use orbeat_community.Prelude.Assoc.{Assoc, lookup, insert, lookup-insert}
use orbeat_community.Rbac.{
  Entitlement, collect_ids, visible_server_ids, lists_tool, grants, authorizing_entitlement,
  is_some, tool_allowed, key_tool_allowed,
}

-- A list of tools allows a tool: there is no list, or the tool stands in it.
abbrev pub Lists : Option (List String) → String → Type 0
Lists none tool = Unit
Lists (some tools) tool = Among tool tools

pub lists_tool_iff :
    (o : Option (List String)) (tool : String) → (lists_tool o tool ≡ true) ↔ Lists o tool
lists_tool_iff none tool = (λ h. tt, λ h. refl)
lists_tool_iff (some tools) tool = contains_iff tools tool

abbrev pub Grants : Entitlement → String → String → Type 0
Grants e server_id tool = (e.mcp_server_id ≡ server_id) × Lists e.allowed_tools tool

pub grants_iff : (e : Entitlement) (s t : String) → (grants e s t ≡ true) ↔ Grants e s t
unfolding grants
grants_iff e s t = ground (arith, eq_iff e.mcp_server_id s, lists_tool_iff e.allowed_tools t)

-- Every entitlement before the one found grants nothing, and that one grants the tool.
abbrev pub FirstGrant : List Entitlement → String → String → Entitlement → Type 0
FirstGrant [] s t found = ⊥
FirstGrant (e ∷ es) s t found =
    ((e ≡ found) × Grants e s t) ⊎ ((¬ Grants e s t) × FirstGrant es s t found)

pub authorizing_entitlement-FirstGrant :
    (ents : List Entitlement) (s t : String) (found : Entitlement)
    → authorizing_entitlement ents s t ≡ some found
    → FirstGrant ents s t found
unfolding authorizing_entitlement
authorizing_entitlement-FirstGrant [] s t found h = cc
authorizing_entitlement-FirstGrant (e ∷ es) s t found h = elim (Bool-cases (grants e s t)) [
  | inl yes_ ↦ inl (ground arith, (grants_iff e s t).0 yes_)
  | inr no_ ↦ inr (
    λ g. false≢true (sym no_ ∙ (grants_iff e s t).1 g),
    authorizing_entitlement-FirstGrant es s t found (rw no_ at h),
  )
]

pub Grants-of_FirstGrant :
    (ents : List Entitlement) (s t : String) (found : Entitlement)
    → FirstGrant ents s t found
    → Among found ents × Grants found s t
Grants-of_FirstGrant [] s t found h = absurd h
Grants-of_FirstGrant (e ∷ es) s t found (inl (same, g)) = (inl same, rw same at g)
Grants-of_FirstGrant (e ∷ es) s t found (inr (_, h)) =
    let (m, g) = Grants-of_FirstGrant es s t found h in (inr m, g)

-- Where none is found, none grants the tool.
pub authorizing_entitlement-none :
    (ents : List Entitlement) (s t : String)
    → authorizing_entitlement ents s t ≡ none
    → (e : Entitlement) → Among e ents
    → ¬ Grants e s t
unfolding authorizing_entitlement
authorizing_entitlement-none [] s t h e m g = absurd m
authorizing_entitlement-none (d ∷ ds) s t h e m g = elim (Bool-cases (grants d s t)) [
  | inl yes_ ↦ cc (rw yes_ at h)
  | inr no_ ↦ elim m [
    | inl same ↦ false≢true (sym no_ ∙ (grants_iff d s t).1 (rw (← same) at g))
    | inr later ↦ authorizing_entitlement-none ds s t (rw no_ at h) e later g
  ]
]

tool_allowed_sound :
    (ents : List Entitlement) (s t : String)
    → tool_allowed ents s t ≡ true
    → (e : Entitlement) × Among e ents × Grants e s t
unfolding tool_allowed
tool_allowed_sound ents s t h = elim (Option-cases (authorizing_entitlement ents s t)) [
  | inl e ↦ cc (ap is_some e)
  | inr (found, e) ↦
      let (m, g) =
        Grants-of_FirstGrant ents s t found (authorizing_entitlement-FirstGrant ents s t found e) in
      (found, m, g)
]

tool_allowed_complete :
    (ents : List Entitlement) (s t : String) (e : Entitlement)
    → Among e ents
    → Grants e s t
    → tool_allowed ents s t ≡ true
unfolding tool_allowed
tool_allowed_complete ents s t e m g = elim (Option-cases (authorizing_entitlement ents s t)) [
  | inl missed ↦ absurd (authorizing_entitlement-none ents s t missed e m g)
  | inr (found, h) ↦ rw h refl
]

-- AuthorizingEntitlement returns the first entitlement, in their order, that grants the tool, and
-- none exactly where no entitlement grants it; ToolAllowed answers true exactly where one does.
pub tool_allowed_iff :
    (ents : List Entitlement) (s t : String)
    → ((tool_allowed ents s t ≡ true) ↔ ((e : Entitlement) × Among e ents × Grants e s t))
      × ((found : Entitlement)
          → authorizing_entitlement ents s t ≡ some found
          → FirstGrant ents s t found)
tool_allowed_iff ents s t = (
  (tool_allowed_sound ents s t, λ (e, m, g). tool_allowed_complete ents s t e m g),
  authorizing_entitlement-FirstGrant ents s t,
)

-- A key never widens what the entitlements allow: it allows a call exactly where they do and the
-- key's own list, if it has one, names the tool.
pub key_tool_allowed_iff :
    (ents : List Entitlement) (narrow : Option (List String)) (s t : String)
    → (key_tool_allowed ents narrow s t ≡ true)
      ↔ (((e : Entitlement) × Among e ents × Grants e s t) × Lists narrow t)
unfolding key_tool_allowed
key_tool_allowed_iff ents narrow s t =
    let (to, from) = lists_tool_iff narrow t in
    (
      λ h. (tool_allowed_sound ents s t (ground arith), to (ground arith)),
      λ (granted, listed).
          let (e, m, g) = granted in rw (tool_allowed_complete ents s t e m g) (from listed),
    )

lookup-collect_ids :
    (s : String) (out : Assoc (Unit {0})) (ents : List Entitlement)
    → (lookup s (collect_ids out ents) ≢ none)
      ↔ ((lookup s out ≢ none) ⊎ ((e : Entitlement) × Among e ents × (e.mcp_server_id ≡ s)))
unfolding collect_ids
lookup-collect_ids s out [] =
    (λ h. inl h, λ h. elim h [ inl there ↦ there | inr (e, m, same) ↦ absurd m ])
lookup-collect_ids s out (e ∷ es) =
    let (to, from) = lookup-collect_ids s (insert e.mcp_server_id tt out) es in
    (
      λ h. elim (to h) [
        | inl there ↦ elim (Bool-cases (e.mcp_server_id == s)) [
          | inl same ↦ inr (e, inl refl, (eq_iff _ _).0 same)
          | inr other ↦
              inl (λ gone. there (rw (lookup-insert e.mcp_server_id s tt out, other) gone))
        ]
        | inr (d, m, same) ↦ inr (d, inr m, same)
      ],
      λ h. from (elim h [
        | inl there ↦ inl (λ gone. ground (arith, lookup-insert e.mcp_server_id s tt out))
        | inr (d, m, same) ↦ elim m [
          | inl it ↦ inl (λ gone.
              ground (arith, lookup-insert e.mcp_server_id s tt out, eq_iff e.mcp_server_id s))
          | inr later ↦ inr (d, later, same)
        ]
      ]),
    )

-- VisibleServerIDs holds exactly the server ids that some entitlement names.
pub visible_server_ids_iff :
    (ents : List Entitlement) (s : String)
    → (lookup s (visible_server_ids ents) ≢ none)
      ↔ ((e : Entitlement) × Among e ents × (e.mcp_server_id ≡ s))
unfolding visible_server_ids lookup
visible_server_ids_iff ents s =
    let (to, from) = lookup-collect_ids s [] ents in
    (λ h. elim (to h) [ inl there ↦ absurd (there refl) | inr found ↦ found ], λ m. from (inr m))
