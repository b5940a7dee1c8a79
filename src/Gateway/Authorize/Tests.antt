-- ===== src/Gateway/Authorize/Tests.antt =====
-- The decision about a call at concrete inputs.
use orbeat_community.Prelude.{String, ◌≡◌, refl, Option, none, some, List, [], ◌∷◌, contains}
use orbeat_community.Prelude.Assoc.{Assoc, lookup}
use orbeat_community.Rbac.{
  Entitlement, authorizing_entitlement, tool_allowed, key_tool_allowed, grants,
}
use orbeat_community.Gateway.Naming.{split}
use orbeat_community.Gateway.Authorize.{
  Authorization, narrow_entry, narrow_for, filter_key_narrow_for_server, authorize_found,
  allowed_on, authorize_on, authorize_split, tool_call_authorization,
}
use orbeat_community.Gateway.Authorize.Sound.{IsAuthorized, tool_call_authorization_sound}

abbrev slugs : Assoc String
slugs = ("gh", "id-1") ∷ []

abbrev ents : List Entitlement
ents = record { mcp_server_id = "id-1"; role_id = "admin"; allowed_tools = none } ∷ []

abbrev narrow : Option (List String)
narrow = some ("gh__get" ∷ [])

abbrev get_on_gh : Authorization
get_on_gh = record { server_id = "id-1"; tool = "get"; role_id = "admin" }

authorized : tool_call_authorization "gh__get" slugs ents "key" narrow ≡ some get_on_gh
unfolding tool_call_authorization authorize_split authorize_on authorize_found allowed_on
    filter_key_narrow_for_server narrow_for narrow_entry split lookup tool_allowed key_tool_allowed
    authorizing_entitlement grants contains
authorized = refl

tool_call_authorization_sound_example : IsAuthorized "gh__get" slugs ents "key" narrow get_on_gh
tool_call_authorization_sound_example =
    tool_call_authorization_sound "gh__get" slugs ents "key" narrow get_on_gh authorized
