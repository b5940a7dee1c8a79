-- ===== src/Gateway/BuildSession/Settled.antt =====
-- Every candidate is settled: its connection is kept or closed, and there is one row about it.
use mathlib.Core.List.{append_assoc, append-nil}
use orbeat_community.Prelude.{
  String, ◌≡◌, refl, sym, ap, ◌∙◌, inl, inr, Bool, true, false, ◌&&◌, Option, none, some, List, [],
  ◌∷◌, ◌++◌, subst, Bool-cases,
}
use orbeat_community.Prelude.Assoc.{Assoc, lookup}
use orbeat_community.Rbac.{Entitlement}
use orbeat_community.Gateway.BuildSession.{
  McpServer, UpstreamConn, Outside, DialOutcome, skipped, connected, Building, nothing_built, audit,
  close_conn, skip_upstream, slug_of, dial_upstream, register_proxies, keep_upstream,
  merge_registered, merge_connected, merge_outcome, merge_all,
}
use orbeat_community.Gateway.BuildSession.Dialled.{dial_upstream-own}
use orbeat_community.Gateway.BuildSession.Account.{
  Shared, nothing, left, right, ids, connections, contexts, IsSettled, ids-snoc, allowed-error,
  allowed-allow, settle,
}

module _ (w : Outside) where
  skip_upstream-IsSettled :
      (merged : List McpServer) (srv : McpServer) (conn : UpstreamConn) (s : Building)
      → dial_upstream w srv ≡ connected conn
      → IsSettled w merged s
      → IsSettled w (merged ++ srv ∷ []) (skip_upstream srv.id (some conn) s)
  unfolding skip_upstream close_conn
  skip_upstream-IsSettled merged srv conn s e h =
      settle w merged srv (connected conn) s (skip_upstream srv.id (some conn) s) "error" e refl
        (allowed-error s.audits srv.id ∙ h.allow_row) (right conn h.kept_or_closed)
        (right srv.id h.kept_or_cancelled) h

  undialled-IsSettled :
      (merged : List McpServer) (srv : McpServer) (reason : String) (s : Building)
      → dial_upstream w srv ≡ skipped reason true
      → IsSettled w merged s
      → IsSettled w (merged ++ srv ∷ []) (skip_upstream srv.id none s)
  unfolding skip_upstream close_conn
  undialled-IsSettled merged srv reason s e h =
      settle w merged srv (skipped reason true) s (skip_upstream srv.id none s) "error" e refl
        (allowed-error s.audits srv.id ∙ h.allow_row)
        (rw (append-nil (connections w merged)) h.kept_or_closed) (right srv.id h.kept_or_cancelled)
        h

  untried-IsSettled :
      (merged : List McpServer) (srv : McpServer) (reason : String) (s : Building)
      → dial_upstream w srv ≡ skipped reason false
      → IsSettled w merged s
      → IsSettled w (merged ++ srv ∷ []) (audit srv.id "error" s)
  untried-IsSettled merged srv reason s e h =
      settle w merged srv (skipped reason false) s (audit srv.id "error" s) "error" e refl
        (allowed-error s.audits srv.id ∙ h.allow_row)
        (rw (append-nil (connections w merged)) h.kept_or_closed)
        (rw (append-nil (contexts w merged)) h.kept_or_cancelled) h

  module _ (ents : List Entitlement) (key_id : String) (key_narrow : Option (List String)) where
    keep_upstream-IsSettled :
        (merged : List McpServer) (srv : McpServer) (conn : UpstreamConn) (s : Building)
        → dial_upstream w srv ≡ connected conn
        → IsSettled w merged s
        → IsSettled w (merged ++ srv ∷ []) (keep_upstream w ents key_id key_narrow srv.id conn s)
    unfolding keep_upstream
    keep_upstream-IsSettled merged srv conn s e h =
        let own : conn.server_id ≡ srv.id = (dial_upstream-own w srv conn e).0 in
        let kept : ids (s.upstreams ++ conn ∷ []) ≡ ids s.upstreams ++ srv.id ∷ [] =
          ids-snoc s.upstreams conn ∙ ap (λ i. ids s.upstreams ++ i ∷ []) own in
        settle w merged srv (connected conn) s
          (keep_upstream w ents key_id key_narrow srv.id conn s) "allow" e refl
          (allowed-allow s.audits srv.id ∙ ap (λ l. l ++ srv.id ∷ []) h.allow_row ∙ sym kept)
          (left conn h.kept_or_closed)
          (subst (λ l. Shared l s.cancelled (contexts w merged ++ srv.id ∷ [])) (sym kept)
            (left srv.id h.kept_or_cancelled))
          h

    with_registry :
        (merged : List McpServer) (s : Building) (registry : Assoc UpstreamConn)
        → IsSettled w merged s
        → IsSettled w merged (record s { registry = registry })
    with_registry merged s registry h = record {
      kept_or_closed = h.kept_or_closed;
      kept_or_cancelled = h.kept_or_cancelled;
      one_row = h.one_row;
      allow_row = h.allow_row;
    }

    merge_registered-IsSettled :
        (merged : List McpServer) (srv : McpServer) (conn : UpstreamConn) (s : Building)
        (listed : Bool) (registry : Assoc UpstreamConn)
        → dial_upstream w srv ≡ connected conn
        → IsSettled w merged s
        → IsSettled w
            (merged ++ srv ∷ [])
            (merge_registered w ents key_id key_narrow srv.id conn s (listed, registry))
    unfolding merge_registered
    merge_registered-IsSettled merged srv conn s listed registry e h =
        let h' = with_registry merged s registry h in
        elim (Bool-cases (listed && w.stops conn)) [
          | inl live ↦ rw live (keep_upstream-IsSettled merged srv conn _ e h')
          | inr dead ↦ rw dead (skip_upstream-IsSettled merged srv conn _ e h')
        ]

    merge_connected-IsSettled :
        (merged : List McpServer) (srv : McpServer) (conn : UpstreamConn) (s : Building)
        (taken : Option String)
        → dial_upstream w srv ≡ connected conn
        → IsSettled w merged s
        → IsSettled w
            (merged ++ srv ∷ [])
            (merge_connected w ents key_id key_narrow srv.id conn s taken)
    unfolding merge_connected
    merge_connected-IsSettled merged srv conn s (some winner) e h =
        skip_upstream-IsSettled merged srv conn s e h
    merge_connected-IsSettled merged srv conn s none e h =
        let found = register_proxies w ents key_id key_narrow conn (w.tools conn) s.registry in
        merge_registered-IsSettled merged srv conn s found.0 found.1 e h

    merge_outcome-IsSettled :
        (merged : List McpServer) (srv : McpServer) (s : Building) (o : DialOutcome)
        → dial_upstream w srv ≡ o
        → IsSettled w merged s
        → IsSettled w (merged ++ srv ∷ []) (merge_outcome w ents key_id key_narrow srv s o)
    unfolding merge_outcome
    merge_outcome-IsSettled merged srv s (skipped reason true) e h =
        undialled-IsSettled merged srv reason s e h
    merge_outcome-IsSettled merged srv s (skipped reason false) e h =
        untried-IsSettled merged srv reason s e h
    merge_outcome-IsSettled merged srv s (connected conn) e h =
        merge_connected-IsSettled merged srv conn s (lookup (slug_of w srv) s.slug_to_server) e h

    merge_all-append-IsSettled :
        (merged rest : List McpServer) (s : Building)
        → IsSettled w merged s
        → IsSettled w (merged ++ rest) (merge_all w ents key_id key_narrow rest s)
    unfolding merge_all
    merge_all-append-IsSettled merged [] s h =
        subst (λ l. IsSettled w l s) (sym (append-nil merged)) h
    merge_all-append-IsSettled merged (srv ∷ rest) s h =
        subst
          (λ l. IsSettled w l (
            merge_all w ents key_id key_narrow rest
              (merge_outcome w ents key_id key_narrow srv s (dial_upstream w srv))))
          (append_assoc merged (srv ∷ []) rest)
          (merge_all-append-IsSettled (merged ++ srv ∷ []) rest _
            (merge_outcome-IsSettled merged srv s (dial_upstream w srv) refl h))

    -- However the dials, the listings and the watchdogs go: every connection that was opened is in
    -- the session or was closed, once, in the order of the servers; every context is a kept
    -- connection's or was cancelled, once; there is one audit row for each candidate, in their
    -- order; and the rows that allow are those of the session's connections.
    pub merge_all-IsSettled :
        (servers : List McpServer)
        → IsSettled w servers (merge_all w ents key_id key_narrow servers nothing_built)
    merge_all-IsSettled servers = merge_all-append-IsSettled [] servers nothing_built (record {
      kept_or_closed = nothing;
      kept_or_cancelled = nothing;
      one_row = refl;
      allow_row = refl;
    })
