-- ===== src/Gateway/ToolCall/Safety.antt =====
-- When a tool call reaches the upstream.
use orbeat_community.Prelude.{
  String, ◌≡◌, ◌⊎◌, ◌↔◌, refl, ap, inl, inr, Bool, true, false, Option, none, some, List, ◌==◌,
  arith, eq_iff, Bool-cases, Option-cases,
}
use orbeat_community.Govern.{Finding, Scanner, has_blocking, scan_call, direction_arguments}
use orbeat_community.Gateway.Authorize.{Authorization, tool_call_authorization}
use orbeat_community.Gateway.ToolCall.{
  Session, Server, forwarded, truncate_audit_target, intercept_findings, intercept_arguments,
  gate_of, key_refused, quota_allows, proceed, decide, rbac_tools_call,
}

-- The scan of the arguments ran and found nothing that blocks, or there is no scanner.
abbrev pub ScansClean : Option Scanner → String → String → Type 0
ScansClean none tool args = Unit
ScansClean (some sc) tool args =
    (fs : List Finding) × (scan_call sc
        (record { tool = tool; direction = direction_arguments; content = args })
      ≡ some fs)
    × (has_blocking fs ≡ false)

-- What must hold of a call that is forwarded.
pub record MayCall (sv : Server) (sess : Session) (name args : String) : Type 0 where
  pub live : (sess.key_id ≡ "") ⊎ (sv.key_revoked sess.tenant_id sess.key_client_id ≡ some false)
  pub by : Authorization
  pub authorized :
      tool_call_authorization name sess.slug_to_server sess.entitlements sess.key_id sess.key_narrow
      ≡ some by
  pub clean : ScansClean sv.interceptor (truncate_audit_target name) args
  pub within_quota : quota_allows sv.quota by.role_id ≡ true

intercept_arguments-clean :
    (sc : Option Scanner) (tool args : String)
    → (intercept_arguments sc tool args).0 ≡ false
    → ScansClean sc tool args
unfolding intercept_arguments intercept_findings
intercept_arguments-clean none tool args h = tt
intercept_arguments-clean (some sc) tool args h =
    elim (Option-cases
      (scan_call sc (record { tool = tool; direction = direction_arguments; content = args }))) [
        | inl failed ↦ cc (rw failed at h)
        | inr (fs, ran) ↦ (fs, ran, rw ran at h)
      ]

clean-intercept_arguments :
    (sc : Option Scanner) (tool args : String)
    → ScansClean sc tool args
    → (intercept_arguments sc tool args).0 ≡ false
unfolding intercept_arguments intercept_findings
clean-intercept_arguments none tool args h = refl
clean-intercept_arguments (some sc) tool args (fs, ran, ok) = rw ran ok

gate_of-false : (o : Option Bool) → gate_of o ≡ false → o ≡ some false
gate_of-false none h = cc
gate_of-false (some b) h = ap some h

key_refused-live :
    (sv : Server) (sess : Session)
    → key_refused sv sess ≡ false
    → (sess.key_id ≡ "") ⊎ (sv.key_revoked sess.tenant_id sess.key_client_id ≡ some false)
unfolding key_refused
key_refused-live sv sess h = elim (Bool-cases (sess.key_id == "")) [
  | inl bare ↦ inl ((eq_iff _ _).0 bare)
  | inr keyed ↦ inr (gate_of-false _ (rw keyed at h))
]

live-key_refused :
    (sv : Server) (sess : Session)
    → (sess.key_id ≡ "") ⊎ (sv.key_revoked sess.tenant_id sess.key_client_id ≡ some false)
    → key_refused sv sess ≡ false
unfolding key_refused
live-key_refused sv sess (inl bare) = ground (arith, eq_iff sess.key_id "")
live-key_refused sv sess (inr live) = rw live (ground arith)

proceed-forwarded :
    (sv : Server) (sess : Session) (target args : String) (a : Authorization)
    → ((proceed sv sess target args a).0 ≡ forwarded) ↔ (
        ((intercept_arguments sv.interceptor target args).0 ≡ false)
        × (quota_allows sv.quota a.role_id ≡ true))
unfolding proceed
proceed-forwarded sv sess target args a = ground arith

module _ (sv : Server) (sess : Session) (name args : String) where
  MayCall-of_forwarded :
      (rbac_tools_call sv sess (some (name, args))).0 ≡ forwarded → MayCall sv sess name args
  unfolding rbac_tools_call decide
  MayCall-of_forwarded h =
      let target = truncate_audit_target name in
      let auth =
        tool_call_authorization name sess.slug_to_server sess.entitlements sess.key_id
          sess.key_narrow in
      elim (Bool-cases (key_refused sv sess)) [
        | inl refused ↦ cc (rw refused at h)
        | inr live ↦
            let h' : (decide sv sess name args auth).0 ≡ forwarded = rw live at h in
            elim (Option-cases auth) [
              | inl none_ ↦ cc (rw none_ at h')
              | inr (a, authorized) ↦
                  let (scanned, allowed) =
                    (proceed-forwarded sv sess target args a).0 (rw authorized at h') in
                  record {
                    live = key_refused-live sv sess live;
                    by = a;
                    authorized = authorized;
                    clean = intercept_arguments-clean sv.interceptor target args scanned;
                    within_quota = allowed;
                  }
            ]
      ]

  forwarded_of_MayCall :
      MayCall sv sess name args → (rbac_tools_call sv sess (some (name, args))).0 ≡ forwarded
  unfolding rbac_tools_call decide
  forwarded_of_MayCall m =
      let target = truncate_audit_target name in
      rw (live-key_refused sv sess m.live, m.authorized)
        ((proceed-forwarded sv sess target args m.by).1
          (clean-intercept_arguments sv.interceptor target args m.clean, m.within_quota))

-- A call is forwarded to the upstream exactly where its key, if the session has one, is found not
-- revoked, the session's entitlements authorise it, the scan of its arguments, if a scanner is
-- set, ran and found nothing that blocks, and the quota of the authorising role allows it. So a
-- failed revocation check and a failed scan both stop the call.
pub rbac_tools_call-forwarded_iff :
    (sv : Server) (sess : Session) (name args : String)
    → ((rbac_tools_call sv sess (some (name, args))).0 ≡ forwarded) ↔ MayCall sv sess name args
rbac_tools_call-forwarded_iff sv sess name args =
    (MayCall-of_forwarded sv sess name args, forwarded_of_MayCall sv sess name args)
