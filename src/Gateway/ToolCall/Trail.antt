-- ===== src/Gateway/ToolCall/Trail.antt =====
-- What a call leaves in the audit trail and in the usage counts.
use mathlib.Core.List.{append-nil}
use orbeat_community.Prelude.{
  ℕ, zero, suc, ◌≤◌, String, ◌≡◌, refl, inl, inr, Bool, true, false, ◌&&◌, Option, none, some, List,
  [], ◌∷◌, ◌++◌, ◌==◌, map, arith, Bool-cases, Option-cases, if◌then◌else◌,
}
use orbeat_community.Govern.{Finding, Scanner, scan_call, direction_arguments}
use orbeat_community.Gateway.Authorize.{Authorization}
use orbeat_community.Gateway.ToolCall.{
  Session, Server, Event, audit, audit_finding, count, CallResult, tool_denied, forwarded,
  max_audit_target_runes, rune_count, take_runes, truncate_audit_target, audit_call_finding,
  intercept_findings, intercept_arguments, key_refused, quota_allows, proceed, decide,
  rbac_tools_call,
}

-- The decisions among the events, in their order.
pub decisions : List Event → List String
decisions [] = []
decisions (audit action target decision ∷ es) =
    let rest = decisions es in if action == "gateway.tool.call" then decision ∷ rest else rest
decisions (audit_finding action target decision rule severity ∷ es) = decisions es
decisions (count subject server tool role ∷ es) = decisions es

pub counts : List Event → ℕ
counts [] = 0
counts (audit action target decision ∷ es) = counts es
counts (audit_finding action target decision rule severity ∷ es) = counts es
counts (count subject server tool role ∷ es) = suc (counts es)

abbrev pub is_denied : CallResult → Bool
is_denied (tool_denied tool) = true
is_denied _ = false

abbrev pub is_forwarded : CallResult → Bool
is_forwarded forwarded = true
is_forwarded _ = false

-- Rows that are neither decisions nor counts.
abbrev IsSilent : List Event → Type 0
IsSilent es =
    (tail : List Event)
    → (decisions (es ++ tail) ≡ decisions tail) × (counts (es ++ tail) ≡ counts tail)

audit_call_findings-IsSilent :
    (tool : String) (fs : List Finding) → IsSilent (map (audit_call_finding tool) fs)
unfolding decisions counts audit_call_finding
audit_call_findings-IsSilent tool [] tail = (refl, refl)
audit_call_findings-IsSilent tool (f ∷ fs) tail =
    let (d, c) = audit_call_findings-IsSilent tool fs tail in
    elim (Bool-cases (f.severity == "block")) [
      | inl blocks ↦ rw blocks (d, c)
      | inr other ↦ rw other (d, c)
    ]

intercept_arguments-IsSilent :
    (sc : Option Scanner) (tool args : String) → IsSilent (intercept_arguments sc tool args).1
unfolding intercept_arguments intercept_findings
intercept_arguments-IsSilent none tool args tail = (refl, refl)
intercept_arguments-IsSilent (some sc) tool args tail =
    elim (Option-cases
      (scan_call sc (record { tool = tool; direction = direction_arguments; content = args }))) [
        | inl failed ↦ rw failed (refl, refl)
        | inr (fs, ran) ↦ rw ran (audit_call_findings-IsSilent tool fs tail)
      ]

abbrev Traced : Bool → CallResult × List Event → Type 0
Traced usage r =
    (decisions r.1 ≡ (if is_denied r.0 then "deny" else "allow") ∷ [])
    × (counts r.1 ≡ (if is_forwarded r.0 && usage then 1 else 0))

proceed-Traced :
    (sv : Server) (sess : Session) (target args : String) (a : Authorization)
    → Traced sv.usage (proceed sv sess target args a)
unfolding proceed decisions counts
proceed-Traced sv sess target args a =
    let rows = (intercept_arguments sv.interceptor target args).1 in
    let silent = intercept_arguments-IsSilent sv.interceptor target args in
    let used = count sess.subject a.server_id a.tool a.role_id ∷ [] in
    let (d, c) = silent [] in
    let d' : decisions rows ≡ [] = rw (append-nil rows) at d in
    let c' : counts rows ≡ 0 = rw (append-nil rows) at c in
    let (d'', c'') = silent used in
    elim (Bool-cases (intercept_arguments sv.interceptor target args).0) [
      | inl blocked ↦ rw (blocked, d', c') (refl, refl)
      | inr clean ↦ elim (Bool-cases (quota_allows sv.quota a.role_id)) [
        | inr over ↦ rw (clean, over, d', c') (refl, refl)
        | inl within ↦ elim (Bool-cases sv.usage) [
          | inl counted ↦ rw (clean, within, counted, d'', c'') (refl, refl)
          | inr uncounted ↦ rw (clean, within, uncounted, d', c') (refl, refl)
        ]
      ]
    ]

decide-Traced :
    (sv : Server) (sess : Session) (name args : String) (auth : Option Authorization)
    → Traced sv.usage (decide sv sess name args auth)
unfolding decide decisions counts
decide-Traced sv sess name args none = (refl, refl)
decide-Traced sv sess name args (some a) =
    proceed-Traced sv sess (truncate_audit_target name) args a

-- Every tools/call writes exactly one decision to the audit trail, "deny" where the call is denied
-- as not authorised and "allow" otherwise, also for a call that the scan or the quota then stops;
-- and it adds one to the usage counts exactly where it is forwarded and usage is counted.
pub rbac_tools_call-Traced :
    (sv : Server) (sess : Session) (params : Option (String × String))
    → let r = rbac_tools_call sv sess params in
      (decisions r.1 ≡ (if is_denied r.0 then "deny" else "allow") ∷ [])
      × (counts r.1 ≡ (if is_forwarded r.0 && sv.usage then 1 else 0))
unfolding rbac_tools_call decisions counts
rbac_tools_call-Traced sv sess none = (refl, refl)
rbac_tools_call-Traced sv sess (some (name, args)) = elim (Bool-cases (key_refused sv sess)) [
  | inl refused ↦ rw refused (refl, refl)
  | inr live ↦ rw live (decide-Traced sv sess name args _)
]

rune_count-take_runes : (n : ℕ) (s : String) → rune_count (take_runes n s) ≤ n
unfolding take_runes
rune_count-take_runes zero s = omega arith
rune_count-take_runes (suc n) String.[] = omega arith
rune_count-take_runes (suc n) (String.◌∷◌ c s) = omega (arith, rune_count-take_runes n s)

-- The target of an audit row has at most 256 characters, and is the name itself where that fits.
pub truncate_audit_target_bounds :
    (s : String)
    → (rune_count (truncate_audit_target s) ≤ 256)
      × (rune_count s ≤ 256 → truncate_audit_target s ≡ s)
unfolding truncate_audit_target
truncate_audit_target_bounds s =
    (ground (arith, rune_count-take_runes max_audit_target_runes s), λ h. ground arith)
