-- ===== src/Gateway/BuildSession/Account.antt =====
-- The account of the candidates that were merged, and what one more adds to it.
use mathlib.Core.List.{append_assoc, append-nil}
use orbeat_community.Prelude.{
  String, ◌≡◌, refl, sym, ap, ◌∙◌, true, false, List, [], ◌∷◌, ◌++◌, ◌==◌, subst, arith,
  if◌then◌else◌,
}
use orbeat_community.Gateway.BuildSession.{
  McpServer, UpstreamConn, Outside, DialOutcome, skipped, connected, Building, dial_upstream,
}

-- Each element of the third list stands in one of the others, in its order.
pub data Shared {A : Type 0} : List A → List A → List A → Type 0 where
  nothing : Shared [] [] []
  left : {xs ys zs : List A} (x : A) → Shared xs ys zs → Shared (xs ++ x ∷ []) ys (zs ++ x ∷ [])
  right : {xs ys zs : List A} (x : A) → Shared xs ys zs → Shared xs (ys ++ x ∷ []) (zs ++ x ∷ [])

-- What a dial opens: a connection, and a context with the name of its server.
abbrev pub conns_of : DialOutcome → List UpstreamConn
conns_of (skipped reason armed) = []
conns_of (connected conn) = conn ∷ []

abbrev pub contexts_of : String → DialOutcome → List String
contexts_of id (skipped reason true) = id ∷ []
contexts_of id (skipped reason false) = []
contexts_of id (connected conn) = id ∷ []

abbrev pub ids : List UpstreamConn → List String
ids [] = []
ids (conn ∷ conns) = conn.server_id ∷ ids conns

abbrev pub audited : List (String × String) → List String
audited [] = []
audited ((id, decision) ∷ rows) = id ∷ audited rows

abbrev pub server_ids : List McpServer → List String
server_ids [] = []
server_ids (srv ∷ servers) = srv.id ∷ server_ids servers

-- The rows that allow.
abbrev pub allowed : List (String × String) → List String
allowed [] = []
allowed ((id, decision) ∷ rows) =
    let rest = allowed rows in if decision == "allow" then id ∷ rest else rest

module _ (w : Outside) where
  abbrev pub connections : List McpServer → List UpstreamConn
  connections [] = []
  connections (srv ∷ servers) = conns_of (dial_upstream w srv) ++ connections servers

  abbrev pub contexts : List McpServer → List String
  contexts [] = []
  contexts (srv ∷ servers) = contexts_of srv.id (dial_upstream w srv) ++ contexts servers

  -- The candidates that were merged are settled.
  pub record IsSettled (merged : List McpServer) (s : Building) : Type 0 where
    pub kept_or_closed : Shared s.upstreams s.closed (connections merged)
    pub kept_or_cancelled : Shared (ids s.upstreams) s.cancelled (contexts merged)
    pub one_row : audited s.audits ≡ server_ids merged
    pub allow_row : allowed s.audits ≡ ids s.upstreams

pub ids-snoc :
    (conns : List UpstreamConn) (c : UpstreamConn)
    → ids (conns ++ c ∷ []) ≡ ids conns ++ c.server_id ∷ []
ids-snoc [] c = refl
ids-snoc (d ∷ conns) c = ap (λ l. d.server_id ∷ l) (ids-snoc conns c)

audited-snoc :
    (rows : List (String × String)) (id decision : String)
    → audited (rows ++ (id, decision) ∷ []) ≡ audited rows ++ id ∷ []
audited-snoc [] id decision = refl
audited-snoc ((i, d) ∷ rows) id decision = ap (λ l. i ∷ l) (audited-snoc rows id decision)

server_ids-snoc :
    (servers : List McpServer) (srv : McpServer)
    → server_ids (servers ++ srv ∷ []) ≡ server_ids servers ++ srv.id ∷ []
server_ids-snoc [] srv = refl
server_ids-snoc (x ∷ servers) srv = ap (λ l. x.id ∷ l) (server_ids-snoc servers srv)

pub allowed-error :
    (rows : List (String × String)) (id : String)
    → allowed (rows ++ (id, "error") ∷ []) ≡ allowed rows
allowed-error [] id = refl
allowed-error ((i, d) ∷ rows) id = ground (arith, allowed-error rows id)

pub allowed-allow :
    (rows : List (String × String)) (id : String)
    → allowed (rows ++ (id, "allow") ∷ []) ≡ allowed rows ++ id ∷ []
allowed-allow [] id = refl
allowed-allow ((i, d) ∷ rows) id = ground (arith, allowed-allow rows id)

module _ (w : Outside) where
  connections-snoc :
      (servers : List McpServer) (srv : McpServer)
      → connections w (servers ++ srv ∷ [])
        ≡ connections w servers ++ conns_of (dial_upstream w srv)
  connections-snoc [] srv = append-nil (conns_of (dial_upstream w srv))
  connections-snoc (x ∷ servers) srv =
      ap (λ l. conns_of (dial_upstream w x) ++ l) (connections-snoc servers srv)
      ∙ sym (
          append_assoc (conns_of (dial_upstream w x)) (connections w servers)
            (conns_of (dial_upstream w srv)))

  contexts-snoc :
      (servers : List McpServer) (srv : McpServer)
      → contexts w (servers ++ srv ∷ [])
        ≡ contexts w servers ++ contexts_of srv.id (dial_upstream w srv)
  contexts-snoc [] srv = append-nil (contexts_of srv.id (dial_upstream w srv))
  contexts-snoc (x ∷ servers) srv =
      ap (λ l. contexts_of x.id (dial_upstream w x) ++ l) (contexts-snoc servers srv)
      ∙ sym (
          append_assoc (contexts_of x.id (dial_upstream w x)) (contexts w servers)
            (contexts_of srv.id (dial_upstream w srv)))

  -- The account of one more candidate, from its shares and its row.
  pub settle :
      (merged : List McpServer) (srv : McpServer) (o : DialOutcome) (s s' : Building)
      (decision : String)
      → dial_upstream w srv ≡ o
      → s'.audits ≡ s.audits ++ (srv.id, decision) ∷ []
      → allowed s'.audits ≡ ids s'.upstreams
      → Shared s'.upstreams s'.closed (connections w merged ++ conns_of o)
      → Shared (ids s'.upstreams) s'.cancelled (contexts w merged ++ contexts_of srv.id o)
      → IsSettled w merged s
      → IsSettled w (merged ++ srv ∷ []) s'
  settle merged srv o s s' decision dialled_ rows allows conns ctxs h = record {
    kept_or_closed =
        subst (Shared s'.upstreams s'.closed)
          (sym
            (connections-snoc merged srv ∙ ap (λ x. connections w merged ++ conns_of x) dialled_))
          conns;
    kept_or_cancelled =
        subst (Shared (ids s'.upstreams) s'.cancelled)
          (sym (
            contexts-snoc merged srv
            ∙ ap (λ x. contexts w merged ++ contexts_of srv.id x) dialled_))
          ctxs;
    one_row =
        ap audited rows
        ∙ audited-snoc s.audits srv.id decision
        ∙ ap (λ l. l ++ srv.id ∷ []) h.one_row
        ∙ sym (server_ids-snoc merged srv);
    allow_row = allows;
  }
