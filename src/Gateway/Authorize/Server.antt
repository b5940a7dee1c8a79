-- ===== src/Gateway/Authorize/Server.antt =====
-- The server that a call is authorised for.
use orbeat_community.Prelude.{
  String, ◌≡◌, refl, sym, inl, inr, Bool, true, false, Option, none, some, List, [], ◌∷◌, ◌==◌,
  subst, eq_iff, Bool-cases,
}
use orbeat_community.Prelude.Assoc.{Assoc, lookup}
use orbeat_community.Rbac.{Entitlement, authorizing_entitlement, is_some}
use orbeat_community.Gateway.Naming.{split}
use orbeat_community.Gateway.Authorize.{
  Authorization, authorize_found, allowed_on, authorize_on, authorize_split,
  tool_call_authorization, tool_call_allowed,
}

abbrev pub server_of : Option Authorization → Option String
server_of none = none
server_of (some a) = some a.server_id

authorize_found-server :
    (ok : Bool) (server_id tool : String) (found : Option Entitlement)
    → is_some (authorize_found ok server_id tool found) ≡ true
    → server_of (authorize_found ok server_id tool found) ≡ some server_id
unfolding authorize_found
authorize_found-server false server_id tool found h = cc
authorize_found-server true server_id tool none h = cc
authorize_found-server true server_id tool (some e) h = refl

module _ (ents : List Entitlement) (key_id : String) (key_narrow : Option (List String)) where
  authorize_split-server :
      (slug server_id : String) (slugs : Assoc String) (parts : Option (String × String))
      → lookup slug slugs ≡ some server_id
      → is_some (authorize_split ents key_id key_narrow ((slug, server_id) ∷ []) parts) ≡ true
      → server_of (authorize_split ents key_id key_narrow slugs parts) ≡ some server_id
  unfolding authorize_split authorize_on lookup
  authorize_split-server slug server_id slugs none there h = cc
  authorize_split-server slug server_id slugs (some (s, tool)) there h =
      elim (Bool-cases (slug == s)) [
        | inr other ↦ cc (rw other at h)
        | inl same ↦
            let there_s : lookup s slugs ≡ some server_id =
              subst (λ x. lookup x slugs ≡ some server_id) ((eq_iff slug s).0 same) there in
            let hit : is_some (
                  authorize_found (allowed_on ents key_id key_narrow s server_id tool) server_id
                    tool (authorizing_entitlement ents server_id tool))
                ≡ true =
              rw same at h in
            subst (λ o. server_of (authorize_on ents key_id key_narrow s tool o) ≡ some server_id)
              (sym there_s)
              (authorize_found-server (allowed_on ents key_id key_narrow s server_id tool) server_id
                tool (authorizing_entitlement ents server_id tool) hit)
      ]

  -- What is allowed where one slug is known is authorised for the server of that slug, among others.
  pub tool_call_allowed-server :
      (namespaced slug server_id : String) (slugs : Assoc String)
      → lookup slug slugs ≡ some server_id
      → tool_call_allowed namespaced ((slug, server_id) ∷ []) ents key_id key_narrow ≡ true
      → server_of (tool_call_authorization namespaced slugs ents key_id key_narrow) ≡ some server_id
  unfolding tool_call_allowed tool_call_authorization
  tool_call_allowed-server namespaced slug server_id slugs there h =
      authorize_split-server slug server_id slugs (split namespaced) there h
