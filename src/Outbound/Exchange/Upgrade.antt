-- ===== src/Outbound/Exchange/Upgrade.antt =====
-- What `http_proxy` sends, and which task it spawns for the response.
use local_proxy_rs.Base.{
  true, false, ◌==◌, ==_iff, List, [], ◌∷◌, Option, none, some, Bytes, codes, bytes_eq, Error,
  Result, ok, err, rejected, map_ok, ok_or, bind-eq-ok, map_ok-eq-ok, ok-eq, ◌++◌, ◌≡◌, ◌≢◌, refl,
  sym, ap, ◌∙◌, Bool-cases, inl, inr,
}
use mathlib.Core.Path.{subst}
use local_proxy_rs.Doh.{RequestConfig}
use local_proxy_rs.Request.{Request, get}
use local_proxy_rs.Request.Headers.{get-remove_other}
use local_proxy_rs.Request.UriParse.{Library}
use local_proxy_rs.Outbound.Conn.{Conn}
use local_proxy_rs.Outbound.Http.{HttpProxy}
use local_proxy_rs.Outbound.Stack.{
  Outbound, raw, tls_client, fragment, server, http, socks4, socks5, connect,
}
use local_proxy_rs.Outbound.Exchange.{
  Env, Exchanged, spawn_upgrade, server_addr, secure, http_proxy_direct, host_text,
  set_authorization, forward, http_proxy,
}

-- The task of a response to the request `sent`: none unless the server switches protocols; else the
-- copying between the two upgraded connections, or the error of one of them, the client's first.
pub data HasTask {R : Type 0} (e : Env R) (sent : Request) (x : Exchanged R) : Type 0 where
  no_task : e.status x.response ≢ 101 → x.task ≡ none → HasTask e sent x
  copies :
      (client server : Conn)
      → e.status x.response ≡ 101
      → e.upgrade_request sent ≡ ok client
      → e.upgrade_response x.response ≡ ok server
      → x.task ≡ some (ok (client, server))
      → HasTask e sent x
  no_client :
      (f : Error)
      → e.status x.response ≡ 101
      → e.upgrade_request sent ≡ err f
      → x.task ≡ some (err f)
      → HasTask e sent x
  no_server :
      (client : Conn) (f : Error)
      → e.status x.response ≡ 101
      → e.upgrade_request sent ≡ ok client
      → e.upgrade_response x.response ≡ err f
      → x.task ≡ some (err f)
      → HasTask e sent x

-- The response is the one to a request that was sent, which has all headers of `q` but
-- `proxy-authorization` as they are; and the task is the one of both.
pub record IsExchanged {R : Type 0} (e : Env R) (q : Request) (x : Exchanged R) : Type 0 where
  pub conn : Conn
  pub sent : Request
  pub headers :
      (n : Bytes)
      → bytes_eq (codes "proxy-authorization") n ≡ false
      → get n sent.headers ≡ get n q.headers
  pub answered : e.send_request conn sent ≡ ok x.response
  pub has_task : HasTask e sent x

spawn_upgrade-HasTask :
    {R : Type 0} (e : Env R) (sent : Request) (r : R) → HasTask e sent (spawn_upgrade e sent r)
spawn_upgrade-HasTask e sent r = elim (Bool-cases (e.status r == 101)) [
  | inr f ↦ no_task (λ t. cc) (rw f refl)
  | inl t ↦ switching (e.upgrade_request sent) (e.upgrade_response r) refl refl t
]
  where
    switching :
        (c s : Result Conn)
        → e.upgrade_request sent ≡ c
        → e.upgrade_response r ≡ s
        → (e.status r == 101) ≡ true
        → HasTask e sent (spawn_upgrade e sent r)
    switching (ok c) (ok s) p q t =
        copies c s ((==_iff (e.status r) 101).0 t) p q (rw t (rw (p, q) refl))
    switching (ok c) (err f) p q t =
        no_server c f ((==_iff (e.status r) 101).0 t) p q (rw t (rw (p, q) refl))
    switching (err f) s p q t = no_client f ((==_iff (e.status r) 101).0 t) p (rw t (rw p refl))

module _ {R : Type 0} (e : Env R) where
  sent-IsExchanged :
      (c : Conn) (q sent : Request) (x : Exchanged R)
      → ((n : Bytes)
          → bytes_eq (codes "proxy-authorization") n ≡ false
          → get n sent.headers ≡ get n q.headers)
      → map_ok (spawn_upgrade e sent) (e.send_request c sent) ≡ ok x
      → IsExchanged e q x
  sent-IsExchanged c q sent x headers h =
      let (r, answered, same) = map_ok-eq-ok (spawn_upgrade e sent) (e.send_request c sent) h in
      subst (IsExchanged e q) same (record {
        conn = c;
        sent = sent;
        headers = headers;
        answered = answered;
        has_task = spawn_upgrade-HasTask e sent r;
      })

  http_proxy_direct-IsExchanged :
      (stack : List Outbound) (scheme : Bytes) (conf : RequestConfig) (q : Request)
      (x : Exchanged R)
      → http_proxy_direct e stack scheme conf q ≡ ok x
      → IsExchanged e q x
  unfolding http_proxy_direct
  http_proxy_direct-IsExchanged stack scheme conf q x h =
      let (addr, e1, h1) = bind-eq-ok (server_addr e.library scheme q) _ h in
      let (c, e2, h2) = bind-eq-ok (secure e.network scheme addr _) _ h1 in
      sent-IsExchanged c q q x (λ n p. refl) h2

  set_authorization_headers :
      (k : Library) (auth : Option Bytes) (r out : Request)
      → set_authorization k auth r ≡ ok out
      → (n : Bytes) → bytes_eq (codes "proxy-authorization") n ≡ false
      → get n out.headers ≡ get n r.headers
  set_authorization_headers k none r out h n p = ap (λ z. get n z.headers) (sym (ok-eq h))
  set_authorization_headers k (some auth) r out h n p =
      let (v, parsed, h1) = bind-eq-ok (k.parse_value (codes "Basic " ++ auth)) _ h in
      ap (λ z. get n z.headers) (sym (ok-eq h1))
      ∙ rw p (get-remove_other n (codes "proxy-authorization") r.headers p)

  forward-IsExchanged :
      (p : HttpProxy) (opened : Result Conn) (q : Request) (x : Exchanged R)
      → forward e p opened q ≡ ok x
      → IsExchanged e q x
  forward-IsExchanged p opened q x h =
      let (c, e1, h1) = bind-eq-ok opened _ h in
      let (host, e2, h2) = bind-eq-ok (host_text e.library q) _ h1 in
      let (pq, e3, h3) = bind-eq-ok (ok_or (e.path_and_query q.uri) rejected) _ h2 in
      let (uri, e4, h4) = bind-eq-ok (e.library.build _) _ h3 in
      let (sent, e5, h5) =
        bind-eq-ok (set_authorization e.library p.auth (record q { uri = uri })) _ h4 in
      sent-IsExchanged c q sent x
        (set_authorization_headers e.library p.auth (record q { uri = uri }) sent e5) h5

  -- Whatever the stack, a response that comes back is the answer to a request that was sent on, with
  -- all headers but `proxy-authorization` as they were; and a task is spawned for it exactly if its
  -- status is 101, which copies between the connection behind the upgrade of the request that was
  -- sent and that behind the upgrade of the response, or ends with the error of the first of them that
  -- fails.
  pub http_proxy-IsExchanged :
      (stack : List Outbound) (scheme : Bytes) (conf : RequestConfig) (q : Request)
      (x : Exchanged R)
      → http_proxy e stack scheme conf q ≡ ok x
      → IsExchanged e q x
  unfolding http_proxy
  http_proxy-IsExchanged [] scheme conf q x h = cc
  http_proxy-IsExchanged (raw ∷ proxies) scheme conf q x h =
      http_proxy_direct-IsExchanged (raw ∷ proxies) scheme conf q x h
  http_proxy-IsExchanged (tls_client ∷ proxies) scheme conf q x h =
      http_proxy_direct-IsExchanged (tls_client ∷ proxies) scheme conf q x h
  http_proxy-IsExchanged (fragment ∷ proxies) scheme conf q x h =
      elim (Bool-cases (bytes_eq scheme (codes "http"))) [
        | inl t ↦ http_proxy-IsExchanged proxies scheme conf q x (rw t at h)
        | inr f ↦ http_proxy_direct-IsExchanged (fragment ∷ proxies) scheme conf q x (rw f at h)
      ]
  http_proxy-IsExchanged (server (http p) ∷ proxies) scheme conf q x h =
      elim (Bool-cases (bytes_eq scheme (codes "http"))) [
        | inl t ↦ forward-IsExchanged p (connect e.network proxies p.addr) q x (rw t at h)
        | inr f ↦
            http_proxy_direct-IsExchanged (server (http p) ∷ proxies) scheme conf q x (rw f at h)
      ]
  http_proxy-IsExchanged (server (socks4 p) ∷ proxies) scheme conf q x h =
      http_proxy_direct-IsExchanged (server (socks4 p) ∷ proxies) scheme conf q x h
  http_proxy-IsExchanged (server (socks5 p) ∷ proxies) scheme conf q x h =
      http_proxy_direct-IsExchanged (server (socks5 p) ∷ proxies) scheme conf q x h
