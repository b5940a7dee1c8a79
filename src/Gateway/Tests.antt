-- ===== src/Gateway/Tests.antt =====
-- The gateway at concrete inputs.
use orbeat_community.Prelude.{
  String, ◌≡◌, ◌⊎◌, ◌↔◌, true, false, ◌&&◌, Option, none, some, List, [], ◌∷◌, Among, if◌then◌else◌,
}
use orbeat_community.Prelude.Assoc.{Assoc}
use orbeat_community.Rbac.{Entitlement}
use orbeat_community.Govern.{Finding, Scanner, has_blocking}
use orbeat_community.Govern.Spec.{IsBlocking}
use orbeat_community.Gateway.Naming.{namespace, split, slugify}
use orbeat_community.Gateway.Naming.RoundTrip.{split-namespace}
use orbeat_community.Gateway.ToolCall.{
  Session, Server, forwarded, CallToolResult, rbac_tools_call, intercept_result,
}
use orbeat_community.Gateway.ToolCall.Safety.{MayCall, rbac_tools_call-forwarded_iff}
use orbeat_community.Gateway.ToolCall.Trail.{
  decisions, counts, is_denied, is_forwarded, rbac_tools_call-Traced,
}
use orbeat_community.Gateway.ToolCall.Withheld.{scan_result, IsRefusal, intercept_result_lem}

abbrev same : String → String
same s = s

split-namespace_example :
    split (namespace (slugify same "my  server") "a__b") ≡ some (slugify same "my  server", "a__b")
split-namespace_example = split-namespace same "my  server" "a__b"

abbrev slugs : Assoc String
slugs = ("gh", "id-1") ∷ []

abbrev ents : List Entitlement
ents = record { mcp_server_id = "id-1"; role_id = "admin"; allowed_tools = none } ∷ []

abbrev narrow : Option (List String)
narrow = some ("gh__get" ∷ [])

abbrev session : Session
session = record {
  subject = "alice";
  tenant_id = "t";
  entitlements = ents;
  slug_to_server = slugs;
  key_id = "key";
  key_narrow = narrow;
  key_client_id = "client";
}

abbrev server : Server
server = record {
  key_revoked = λ tenant client. some false;
  interceptor = none;
  quota = none;
  usage = true;
}

rbac_tools_call-forwarded_iff_example :
    ((rbac_tools_call server session (some ("gh__get", "{}"))).0 ≡ forwarded)
    ↔ MayCall server session "gh__get" "{}"
rbac_tools_call-forwarded_iff_example = rbac_tools_call-forwarded_iff server session "gh__get" "{}"

rbac_tools_call-Traced_example :
    let r = rbac_tools_call server session none in
    (decisions r.1 ≡ (if is_denied r.0 then "deny" else "allow") ∷ [])
    × (counts r.1 ≡ (if is_forwarded r.0 && true then 1 else 0))
rbac_tools_call-Traced_example = rbac_tools_call-Traced server session none

abbrev finds_secret : Scanner
finds_secret p = some (record { rule = "secret"; message = "m"; severity = "block" } ∷ [])

abbrev encode : CallToolResult → Option String
encode res = some "{}"

abbrev result : CallToolResult
result = record {
  content = "a key" ∷ [];
  structured_content = some "{}";
  meta = none;
  is_error = false;
}

intercept_result_lem_example :
    let out = (intercept_result same encode (some finds_secret) "gh__get" result).0 in
    let scanned = scan_result same encode finds_secret "gh__get" result in
    ((out ≡ result) × ((fs : List Finding) × (scanned ≡ some fs) × (has_blocking fs ≡ false)))
    ⊎ ((rule : String) × IsRefusal same encode "gh__get" rule out
        × (((scanned ≡ none) × (rule ≡ "scan-error"))
            ⊎ ((fs : List Finding) × (f : Finding) × (scanned ≡ some fs)
                × Among f fs
                × IsBlocking f
                × (f.rule ≡ rule))))
intercept_result_lem_example = intercept_result_lem same encode finds_secret "gh__get" result
