-- ===== src/Gateway/ToolCall.antt =====
-- internal/gateway/rbac_middleware.go and intercept.go: what the gateway does with tools/call and
-- tools/list. The audit rows and usage counts that a call writes are the events beside its result.
pub mod Safety
pub mod Trail
pub mod Withheld
use Prim.Native.String
use orbeat_community.Prelude.{
  ℕ, zero, suc, String, Bool, true, false, not, ◌&&◌, Option, none, some, List, [], ◌∷◌, ◌++◌, ◌==◌,
  leb, map, if◌then◌else◌,
}
use orbeat_community.Prelude.Assoc.{Assoc}
use orbeat_community.Rbac.{Entitlement}
use orbeat_community.Govern.{
  Finding, Scanner, has_blocking, scan_call, direction_arguments, direction_result,
}
use orbeat_community.Gateway.Authorize.{Authorization, tool_call_authorization}

-- The fields of a session that the decisions read.
pub record Session : Type 0 where
  pub subject : String
  pub tenant_id : String
  pub entitlements : List Entitlement
  pub slug_to_server : Assoc String
  pub key_id : String
  pub key_narrow : Option (List String)
  pub key_client_id : String

-- What a Server is built with: the revocation check (none where it fails), the scanner and the
-- quota check, if set (true where the role may call), and whether usage is counted.
pub record Server : Type 0 where
  pub key_revoked : String → String → Option Bool
  pub interceptor : Option Scanner
  pub quota : Option (String → Bool)
  pub usage : Bool

pub data Event : Type 0 where
  -- action, target, decision
  audit : String → String → String → Event
  -- action, target, decision, rule, severity
  audit_finding : String → String → String → String → String → Event
  -- subject, server, tool, role
  count : String → String → String → String → Event

pub data CallResult : Type 0 where
  tool_denied : String → CallResult
  intercept_denied : String → CallResult
  over_quota : String → CallResult
  forwarded : CallResult

abbrev pub max_audit_target_runes : ℕ
max_audit_target_runes = 256

abbrev pub rune_count : String → ℕ
rune_count String.[] = 0
rune_count (String.◌∷◌ c s) = suc (rune_count s)

pub take_runes : ℕ → String → String
take_runes zero s = ""
take_runes (suc n) String.[] = ""
take_runes (suc n) (String.◌∷◌ c s) = String.◌∷◌ c (take_runes n s)

unfoldable pub truncate_audit_target : String → String
truncate_audit_target s =
    if leb (rune_count s) max_audit_target_runes then s else take_runes max_audit_target_runes s

-- auditDecision, less its metric.
abbrev pub audit_decision : String → String → Event
audit_decision target decision = audit "gateway.tool.call" target decision

-- auditCallFinding
unfoldable pub audit_call_finding : String → Finding → Event
audit_call_finding tool f =
    if f.severity == "block"
    then audit_finding "gateway.call.blocked" tool "deny" f.rule f.severity
    else audit_finding "gateway.call.flagged" tool "allow" f.rule f.severity

-- interceptArguments on what the scan gives: whether the call is denied, and the audit rows.
pub intercept_findings : String → Option (List Finding) → Bool × List Event
intercept_findings tool none = (true, [])
intercept_findings tool (some fs) = (has_blocking fs, map (audit_call_finding tool) fs)

unfoldable pub intercept_arguments : Option Scanner → String → String → Bool × List Event
intercept_arguments none tool args = (false, [])
intercept_arguments (some sc) tool args =
    intercept_findings tool
      (scan_call sc (record { tool = tool; direction = direction_arguments; content = args }))

-- The virtual key's gate: refused where the check fails or the key is revoked.
abbrev pub gate_of : Option Bool → Bool
gate_of none = true
gate_of (some revoked) = revoked

unfoldable pub key_refused : Server → Session → Bool
key_refused sv sess =
    not (sess.key_id == "") && gate_of (sv.key_revoked sess.tenant_id sess.key_client_id)

abbrev pub quota_allows : Option (String → Bool) → String → Bool
quota_allows none role = true
quota_allows (some check) role = check role

-- rbacToolsCall once the call is authorised.
pub proceed : Server → Session → String → String → Authorization → CallResult × List Event
proceed sv sess target args a =
    let (blocked, rows) = intercept_arguments sv.interceptor target args in
    let trail = audit_decision target "allow" ∷ rows in
    if blocked
    then (intercept_denied target, trail)
    else if not (quota_allows sv.quota a.role_id)
    then (over_quota a.role_id, trail)
    else (
      forwarded,
      (if sv.usage then trail ++ count sess.subject a.server_id a.tool a.role_id ∷ [] else trail),
    )

pub decide : Server → Session → String → String → Option Authorization → CallResult × List Event
decide sv sess name args none =
    (tool_denied name, audit_decision (truncate_audit_target name) "deny" ∷ [])
decide sv sess name args (some a) = proceed sv sess (truncate_audit_target name) args a

abbrev pub unparseable : String
unparseable = "<unparseable>"

-- rbacToolsCall; the parameters are none where they are no *mcp.CallToolParamsRaw.
unfoldable pub rbac_tools_call :
    Server → Session → Option (String × String) → CallResult × List Event
rbac_tools_call sv sess none = (tool_denied unparseable, audit_decision unparseable "deny" ∷ [])
rbac_tools_call sv sess (some (name, args)) =
    if key_refused sv sess
    then (tool_denied name, audit_decision (truncate_audit_target name) "deny" ∷ [])
    else decide sv sess name args (
        tool_call_authorization name sess.slug_to_server sess.entitlements sess.key_id
          sess.key_narrow)

-- rbacToolsList: true where the request goes on.
unfoldable pub rbac_tools_list : Server → Session → Bool × List Event
rbac_tools_list sv sess =
    if key_refused sv sess
    then (false, audit "gateway.tools.list" "<tools/list>" "deny" ∷ [])
    else (true, [])

-- mcp.CallToolResult, its content as texts and the rest as JSON.
pub record CallToolResult : Type 0 where
  pub content : List String
  pub structured_content : Option String
  pub meta : Option String
  pub is_error : Bool

-- blockingRule
unfoldable pub blocking_rule : List Finding → String
blocking_rule [] = "unknown"
blocking_rule (f ∷ fs) = if f.severity == "block" then f.rule else blocking_rule fs

-- `quote` is fmt's %q, `marshal` json.Marshal of a result, none where it fails.
module _ (quote : String → String) (marshal : CallToolResult → Option String) where
  -- refusalContent
  pub refusal_text : String → String → String
  refusal_text tool rule = String.◌++◌ "orbeat: result withheld for tool " (
      String.◌++◌ (quote tool) (
        String.◌++◌ " -- its output matched a blocking content-governance rule (" (
          String.◌++◌ rule
            ") and was not returned. This does not undo the call: the upstream tool already ran before this check happened.")))

  -- withholdResult overwrites every field that it sets, whatever they hold.
  pub withhold_result : CallToolResult → String → String → CallToolResult
  withhold_result res tool rule = record res {
    content = refusal_text tool rule ∷ [];
    structured_content = none;
    meta = none;
    is_error = true;
  }

  -- marshalResult
  abbrev pub or_empty : Option String → String
  or_empty none = ""
  or_empty (some s) = s

  pub withhold_findings :
      CallToolResult → String → Option (List Finding) → CallToolResult × List Event
  withhold_findings res tool none = (withhold_result res tool "scan-error", [])
  withhold_findings res tool (some fs) = (
    (if has_blocking fs then withhold_result res tool (blocking_rule fs) else res),
    map (audit_call_finding tool) fs,
  )

  -- interceptResult
  unfoldable pub intercept_result :
      Option Scanner → String → CallToolResult → CallToolResult × List Event
  intercept_result none tool res = (res, [])
  intercept_result (some sc) tool res = withhold_findings res tool (
      scan_call sc
        (record { tool = tool; direction = direction_result; content = or_empty (marshal res) }))
