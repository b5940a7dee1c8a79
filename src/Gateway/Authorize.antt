-- ===== src/Gateway/Authorize.antt =====
-- internal/gateway/rbac_middleware.go: the decision about one tool call.
pub mod Sound
pub mod Server
mod Tests
use orbeat_community.Prelude.{
  String, Bool, true, false, not, ◌&&◌, Option, none, some, List, [], ◌∷◌, ◌==◌, if◌then◌else◌,
}
use orbeat_community.Prelude.Assoc.{Assoc, lookup}
use orbeat_community.Rbac.{
  Entitlement, authorizing_entitlement, tool_allowed, key_tool_allowed, is_some,
}
use orbeat_community.Gateway.Naming.{split}

-- What toolCallAuthorization returns beside ok = true.
pub record Authorization : Type 0 where
  pub server_id : String
  pub tool : String
  pub role_id : String

-- One entry of the loop of filterKeyNarrowForServer.
pub narrow_entry : String → Option (String × String) → List String → List String
narrow_entry slug none out = out
narrow_entry slug (some (s, tool)) out = if s == slug then tool ∷ out else out

pub narrow_for : List String → String → List String
narrow_for [] slug = []
narrow_for (n ∷ ns) slug = narrow_entry slug (split n) (narrow_for ns slug)

unfoldable pub filter_key_narrow_for_server : Option (List String) → String → Option (List String)
filter_key_narrow_for_server none slug = none
filter_key_narrow_for_server (some narrow) slug = some (narrow_for narrow slug)

-- The bodies of toolCallAuthorization after each of its lookups.
unfoldable pub authorize_found : Bool → String → String → Option Entitlement → Option Authorization
authorize_found false server_id tool found = none
authorize_found true server_id tool none = none
authorize_found true server_id tool (some e) =
    some (record { server_id = server_id; tool = tool; role_id = e.role_id })

module _ (ents : List Entitlement) (key_id : String) (key_narrow : Option (List String)) where
  -- `allowed`, for the server of a known slug
  unfoldable pub allowed_on : String → String → String → Bool
  allowed_on slug server_id tool =
      if key_id == ""
      then tool_allowed ents server_id tool
      else key_tool_allowed ents (filter_key_narrow_for_server key_narrow slug) server_id tool

  unfoldable pub authorize_on : String → String → Option String → Option Authorization
  authorize_on slug tool none = none
  authorize_on slug tool (some server_id) =
      authorize_found (allowed_on slug server_id tool) server_id tool
        (authorizing_entitlement ents server_id tool)

  unfoldable pub authorize_split : Assoc String → Option (String × String) → Option Authorization
  authorize_split slug_to_server none = none
  authorize_split slug_to_server (some (slug, tool)) =
      authorize_on slug tool (lookup slug slug_to_server)

unfoldable pub tool_call_authorization :
    String → Assoc String → List Entitlement → String → Option (List String) → Option Authorization
tool_call_authorization namespaced slug_to_server ents key_id key_narrow =
    authorize_split ents key_id key_narrow slug_to_server (split namespaced)

unfoldable pub tool_call_allowed :
    String → Assoc String → List Entitlement → String → Option (List String) → Bool
tool_call_allowed namespaced slug_to_server ents key_id key_narrow =
    is_some (tool_call_authorization namespaced slug_to_server ents key_id key_narrow)
