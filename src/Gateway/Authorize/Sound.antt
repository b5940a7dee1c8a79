-- ===== src/Gateway/Authorize/Sound.antt =====
-- Whom an authorised call is for, and by which entitlement.
use orbeat_community.Prelude.{
  String, ◌≡◌, ◌≢◌, ◌⊎◌, refl, inl, inr, Bool, true, false, Option, none, some, List, [], ◌∷◌,
  arith, eq_iff, Option-cases, Among,
}
use orbeat_community.Prelude.Assoc.{Assoc, lookup}
use orbeat_community.Rbac.{Entitlement, authorizing_entitlement, key_tool_allowed}
use orbeat_community.Rbac.Spec.{FirstGrant, authorizing_entitlement-FirstGrant, lists_tool_iff}
use orbeat_community.Gateway.Naming.{split}
use orbeat_community.Gateway.Authorize.{
  Authorization, narrow_entry, narrow_for, filter_key_narrow_for_server, authorize_found,
  allowed_on, authorize_on, authorize_split, tool_call_authorization,
}

-- A list of namespaced tools names the tool on the server of the slug.
abbrev pub NamesOn : List String → String → String → Type 0
NamesOn [] slug tool = ⊥
NamesOn (n ∷ ns) slug tool = (split n ≡ some (slug, tool)) ⊎ NamesOn ns slug tool

-- What a key's own list says of the tool: it has none, or it names the tool on that server.
abbrev pub KeyNames : Option (List String) → String → String → Type 0
KeyNames none slug tool = Unit
KeyNames (some narrow) slug tool = NamesOn narrow slug tool

narrow_entry-Among :
    (slug tool : String) (found : Option (String × String)) (out : List String)
    → Among tool (narrow_entry slug found out)
    → (found ≡ some (slug, tool)) ⊎ Among tool out
unfolding narrow_entry
narrow_entry-Among slug tool none out h = inr h
narrow_entry-Among slug tool (some (s, t)) out h = ground (arith, eq_iff s slug)

narrow_for-NamesOn :
    (narrow : List String) (slug tool : String)
    → Among tool (narrow_for narrow slug)
    → NamesOn narrow slug tool
unfolding narrow_for
narrow_for-NamesOn [] slug tool h = h
narrow_for-NamesOn (n ∷ ns) slug tool h =
    elim (narrow_entry-Among slug tool (split n) (narrow_for ns slug) h) [
      | inl here ↦ inl here
      | inr later ↦ inr (narrow_for-NamesOn ns slug tool later)
    ]

-- Why a call is authorised: its name splits into a slug that the session knows and a tool, and the
-- entitlement that authorises it is the first that grants the tool on that server. The call of a
-- key is also named by the key's list, if it has one.
pub record IsAuthorized (namespaced : String) (slug_to_server : Assoc String)
    (ents : List Entitlement) (key_id : String) (key_narrow : Option (List String))
    (a : Authorization) : Type 0 where
  pub slug : String
  pub named : split namespaced ≡ some (slug, a.tool)
  pub known : lookup slug slug_to_server ≡ some a.server_id
  pub by : Entitlement
  pub first : FirstGrant ents a.server_id a.tool by
  pub role : by.role_id ≡ a.role_id
  pub key : key_id ≢ "" → KeyNames key_narrow slug a.tool

allowed_on-KeyNames :
    (ents : List Entitlement) (key_id : String) (narrow : Option (List String))
    (slug server_id tool : String)
    → allowed_on ents key_id narrow slug server_id tool ≡ true
    → key_id ≢ ""
    → KeyNames narrow slug tool
unfolding allowed_on key_tool_allowed filter_key_narrow_for_server
allowed_on-KeyNames ents key_id none slug server_id tool h keyed = tt
allowed_on-KeyNames ents key_id (some narrow) slug server_id tool h keyed =
    narrow_for-NamesOn narrow slug tool
      ((lists_tool_iff (some (narrow_for narrow slug)) tool).0 (ground (arith, eq_iff key_id "")))

-- What is allowed with a key is allowed without one.
allowed_on-keyless :
    (ents : List Entitlement) (key_id : String) (narrow narrow' : Option (List String))
    (slug server_id tool : String)
    → allowed_on ents key_id narrow slug server_id tool ≡ true
    → allowed_on ents "" narrow' slug server_id tool ≡ true
unfolding allowed_on key_tool_allowed
allowed_on-keyless ents key_id narrow narrow' slug server_id tool h = ground arith

-- What the lookups of an authorised call found.
record Steps (namespaced : String) (slug_to_server : Assoc String) (ents : List Entitlement)
    (key_id : String) (key_narrow : Option (List String)) (a : Authorization) : Type 0 where
  slug : String
  named : split namespaced ≡ some (slug, a.tool)
  known : lookup slug slug_to_server ≡ some a.server_id
  allowed : allowed_on ents key_id key_narrow slug a.server_id a.tool ≡ true
  by : Entitlement
  found : authorizing_entitlement ents a.server_id a.tool ≡ some by
  role : by.role_id ≡ a.role_id

authorize_found-some :
    (allowed : Bool) (server_id tool : String) (found : Option Entitlement) (a : Authorization)
    → authorize_found allowed server_id tool found ≡ some a
    → (e : Entitlement) × (allowed ≡ true)
      × (found ≡ some e)
      × (a.server_id ≡ server_id)
      × (a.tool ≡ tool)
      × (e.role_id ≡ a.role_id)
unfolding authorize_found
authorize_found-some false server_id tool found a h = cc
authorize_found-some true server_id tool none a h = cc
authorize_found-some true server_id tool (some e) a h =
    (e, refl, refl, ground arith, ground arith, ground arith)

tool_call_authorization-Steps :
    (namespaced : String) (slug_to_server : Assoc String) (ents : List Entitlement)
    (key_id : String) (key_narrow : Option (List String)) (a : Authorization)
    → tool_call_authorization namespaced slug_to_server ents key_id key_narrow ≡ some a
    → Steps namespaced slug_to_server ents key_id key_narrow a
unfolding tool_call_authorization authorize_split authorize_on
tool_call_authorization-Steps namespaced slug_to_server ents key_id key_narrow a h =
    elim (Option-cases (split namespaced)) [
      | inl e ↦ cc (rw e at h)
      | inr (p, e) ↦
          let h₁ : authorize_on ents key_id key_narrow p.0 p.1 (lookup p.0 slug_to_server)
              ≡ some a =
            rw e at h in
          elim (Option-cases (lookup p.0 slug_to_server)) [
            | inl k ↦ cc (rw k at h₁)
            | inr (server_id, k) ↦
                let (by, ok, found, same_server, same_tool, role) =
                  authorize_found-some _ server_id p.1 _ a (rw k at h₁) in
                record {
                  slug = p.0;
                  named = rw same_tool e;
                  known = rw same_server k;
                  allowed = rw (same_server, same_tool) ok;
                  by = by;
                  found = rw (same_server, same_tool) found;
                  role = role;
                }
          ]
    ]

-- A call is authorised only if its name splits into a slug that the session knows and a tool, and
-- some entitlement grants the tool on that slug's server; the role returned is that of the first
-- such entitlement. The call of a key is also named by the key's list, if it has one.
pub tool_call_authorization_sound :
    (namespaced : String) (slug_to_server : Assoc String) (ents : List Entitlement)
    (key_id : String) (key_narrow : Option (List String)) (a : Authorization)
    → tool_call_authorization namespaced slug_to_server ents key_id key_narrow ≡ some a
    → IsAuthorized namespaced slug_to_server ents key_id key_narrow a
tool_call_authorization_sound namespaced slug_to_server ents key_id key_narrow a h =
    let s = tool_call_authorization-Steps namespaced slug_to_server ents key_id key_narrow a h in
    record {
      slug = s.slug;
      named = s.named;
      known = s.known;
      by = s.by;
      first = authorizing_entitlement-FirstGrant ents a.server_id a.tool s.by s.found;
      role = s.role;
      key = allowed_on-KeyNames ents key_id key_narrow s.slug a.server_id a.tool s.allowed;
    }

-- A key only ever narrows: a call authorised with it is authorised without it, whatever list the
-- keyless session carries, for the same server, tool and role.
pub tool_call_authorization-keyless :
    (namespaced : String) (slug_to_server : Assoc String) (ents : List Entitlement)
    (key_id : String) (key_narrow narrow' : Option (List String)) (a : Authorization)
    → tool_call_authorization namespaced slug_to_server ents key_id key_narrow ≡ some a
    → tool_call_authorization namespaced slug_to_server ents "" narrow' ≡ some a
unfolding tool_call_authorization authorize_split authorize_on authorize_found
tool_call_authorization-keyless namespaced slug_to_server ents key_id key_narrow narrow' a h =
    let s = tool_call_authorization-Steps namespaced slug_to_server ents key_id key_narrow a h in
    let allowed =
      allowed_on-keyless ents key_id key_narrow narrow' s.slug a.server_id a.tool s.allowed in
    rw (s.named, s.known, allowed, s.found) (ground (arith, s.role))
