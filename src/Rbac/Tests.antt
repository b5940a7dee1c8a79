-- ===== src/Rbac/Tests.antt =====
-- Entitlements at concrete inputs.
use orbeat_community.Prelude.{String, ◌≡◌, ◌↔◌, true, Option, none, some, List, [], ◌∷◌, Among}
use orbeat_community.Rbac.{Entitlement, authorizing_entitlement, tool_allowed}
use orbeat_community.Rbac.Spec.{Grants, FirstGrant, tool_allowed_iff}

abbrev github : String
github = "github"

abbrev create_issue : String
create_issue = "create_issue"

abbrev ents : List Entitlement
ents =
    record { mcp_server_id = github; role_id = "reader"; allowed_tools = some ("get_issue" ∷ []) }
    ∷ (record { mcp_server_id = github; role_id = "admin"; allowed_tools = none } ∷ [])

tool_allowed_iff_example :
    ((tool_allowed ents github create_issue ≡ true)
      ↔ ((e : Entitlement) × Among e ents × Grants e github create_issue))
    × ((found : Entitlement)
        → authorizing_entitlement ents github create_issue ≡ some found
        → FirstGrant ents github create_issue found)
tool_allowed_iff_example = tool_allowed_iff ents github create_issue

abbrev narrow : Option (List String)
narrow = some (create_issue ∷ [])
