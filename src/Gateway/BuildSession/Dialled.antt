-- ===== src/Gateway/BuildSession/Dialled.antt =====
-- A dial that connects gives the server's own connection.
use orbeat_community.Prelude.{
  some_inj, String, ◌≡◌, sym, ap, inl, inr, not, ◌&&◌, ◌||◌, Option, none, some, ◌==◌, arith,
  Bool-cases,
}
use orbeat_community.Gateway.BuildSession.{
  McpServer, UpstreamConn, Outside, connected, slug_of, connect_upstream, dialled, dial_with,
  dial_upstream,
}

module _ (w : Outside) where
  connected_inj : {c d : UpstreamConn} → connected c ≡ connected d → c ≡ d
  connected_inj e = ground arith

  connect_upstream-own :
      (srv : McpServer) (secret ca_pem : String) (conn : UpstreamConn)
      → connect_upstream w srv secret ca_pem ≡ some conn
      → (conn.server_id ≡ srv.id) × (conn.slug ≡ slug_of w srv)
  unfolding connect_upstream
  connect_upstream-own srv secret ca_pem conn e =
      let made =
        ◌≡◌ {A = UpstreamConn} (record { server_id = srv.id; slug = slug_of w srv }) conn in
      elim (Bool-cases (slug_of w srv == "" || not (w.parses srv.endpoint_or_command))) [
        | inl malformed ↦ cc (rw malformed at e)
        | inr formed ↦ elim (Bool-cases (not (ca_pem == "") && not (w.is_ca ca_pem))) [
          | inl uncertified ↦ cc (rw (formed, uncertified) at e)
          | inr certified ↦
              elim (Bool-cases (not (srv.transport == "http") && not (srv.transport == "sse"))) [
                | inl unsupported ↦ cc (rw (formed, certified, unsupported) at e)
                | inr supported ↦ elim (Bool-cases (w.connects srv secret ca_pem)) [
                  | inr refused ↦ cc (rw (formed, certified, supported, refused) at e)
                  | inl open_ ↦
                      let same : made = some_inj (rw (formed, certified, supported, open_) at e) in
                      (ap (λ c. c.server_id) (sym same), ap (λ c. c.slug) (sym same))
                ]
              ]
        ]
      ]

  dialled-own :
      (o : Option UpstreamConn) (conn : UpstreamConn) → dialled w o ≡ connected conn → o ≡ some conn
  dialled-own none conn e = ground arith
  dialled-own (some d) conn e = ap some (connected_inj e)

  dial_with-own :
      (srv : McpServer) (secret ca_pem : Option String) (conn : UpstreamConn)
      → dial_with w srv secret ca_pem ≡ connected conn
      → (conn.server_id ≡ srv.id) × (conn.slug ≡ slug_of w srv)
  unfolding dial_with
  dial_with-own srv none ca_pem conn e = ground arith
  dial_with-own srv (some secret) none conn e = ground arith
  dial_with-own srv (some secret) (some ca_pem) conn e =
      connect_upstream-own srv secret ca_pem conn
        (dialled-own (connect_upstream w srv secret ca_pem) conn e)

  pub dial_upstream-own :
      (srv : McpServer) (conn : UpstreamConn)
      → dial_upstream w srv ≡ connected conn
      → (conn.server_id ≡ srv.id) × (conn.slug ≡ slug_of w srv)
  unfolding dial_upstream
  dial_upstream-own srv conn e =
      elim (Bool-cases (not (srv.transport == "http") && not (srv.transport == "sse"))) [
        | inl unsupported ↦ ground arith
        | inr supported ↦ dial_with-own srv _ _ conn (rw supported at e)
      ]
