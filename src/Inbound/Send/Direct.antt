-- ===== src/Inbound/Send/Direct.antt =====
-- A DNS query by HTTPS asks for no name itself, so that the calls of `dns_resolve` end.
use local_proxy_rs.Base.{
  ℕ, suc, Bool, false, List, [], ◌∷◌, Option, none, some, Bytes, Result, ok, err, bind, map_ok,
  rejected, ok_or, ◌≡◌, refl, sym, ap, ◌∙◌,
}
use mathlib.Core.Path.{fun_ext}
use local_proxy_rs.Addr.{HostName, host_v4, host_v6, domain}
use local_proxy_rs.Config.{Config}
use local_proxy_rs.Main.{ProxyState}
use local_proxy_rs.Outbound.Stack.{
  Outbound, raw, tls_client, fragment, server, http, socks4, socks5, rev, request_stack,
}
use local_proxy_rs.Outbound.Exchange.{Env, http_proxy, http_proxy_direct}
use local_proxy_rs.Request.{Request, rewrite_request}
use local_proxy_rs.Request.UriParse.{Uri}
use local_proxy_rs.Doh.{
  RequestConfig, request_config, Response, Client, Cache, body_of, ask, after_ask, after_get,
  doh_query,
}
use local_proxy_rs.Doh.Resolve.{QueryType, DnsParser, run_query, after_query, dns_resolve}
use local_proxy_rs.Inbound.Send.{
  send_request, Answers, answer_by, doh_request, doh_client, resolver,
}

-- The configuration of a request without name resolution.
abbrev no_doh : Option HostName → Option Bool → RequestConfig
no_doh host wish = record { doh = false; fake_host = host; fragment = wish }

module _ {R : Type 0} (e : Env R) (f : Answers) (host : Option HostName) (wish : Option Bool) where
  direct_blind :
      (stack : List Outbound) (scheme : Bytes) (r : Request)
      → http_proxy_direct (answer_by f e) stack scheme (no_doh host wish) r
        ≡ http_proxy_direct e stack scheme (no_doh host wish) r
  unfolding http_proxy_direct
  direct_blind stack scheme r = refl

  http_proxy_blind :
      (stack : List Outbound) (scheme : Bytes) (r : Request)
      → http_proxy (answer_by f e) stack scheme (no_doh host wish) r
        ≡ http_proxy e stack scheme (no_doh host wish) r
  unfolding http_proxy
  http_proxy_blind [] scheme r = refl
  http_proxy_blind (raw ∷ os) scheme r = direct_blind (raw ∷ os) scheme r
  http_proxy_blind (tls_client ∷ os) scheme r = direct_blind (tls_client ∷ os) scheme r
  http_proxy_blind (fragment ∷ os) scheme r =
      rw (http_proxy_blind os scheme r, direct_blind (fragment ∷ os) scheme r) refl
  http_proxy_blind (server (http p) ∷ os) scheme r =
      rw (direct_blind (server (http p) ∷ os) scheme r) refl
  http_proxy_blind (server (socks4 p) ∷ os) scheme r =
      direct_blind (server (socks4 p) ∷ os) scheme r
  http_proxy_blind (server (socks5 p) ∷ os) scheme r =
      direct_blind (server (socks5 p) ∷ os) scheme r

  send_request_blind :
      (state : ProxyState) (r : Request)
      → send_request (answer_by f e) state r (no_doh host wish)
        ≡ send_request e state r (no_doh host wish)
  unfolding send_request
  send_request_blind state r = ap (bind (rewrite_request e.library r)) (
      fun_ext (λ x.
        http_proxy_blind (rev (request_stack state.config.fragment wish state.proxy_stack)) x.0
          x.1))

module _ (parse_uri : Bytes → Result Uri) (env : Bytes → Env Response) (state : ProxyState) where
  abbrev client : Answers → Client Uri
  client f = doh_client parse_uri (λ query. answer_by f (env query)) state

  ask_blind :
      (f : Answers) (query : Bytes)
      → ask (client f) state.config query ≡ ask (doh_client parse_uri env state) state.config query
  unfolding ask
  ask_blind f query = ap (bind (ok_or state.config.doh rejected)) (
      fun_ext (λ d. ap (bind (parse_uri d.endpoint)) (
        fun_ext (λ u.
          ap (λ r. bind (map_ok (λ x. x.response) r) body_of)
            (send_request_blind (env query) f (request_config state.config d).fake_host
              (request_config state.config d).fragment state (doh_request u))))))

-- Clients that ask alike answer alike.
module _ {C U V : Type 0} (cache : Cache C) (k : Client U) (k' : Client V) (config : Config) where
  after_get_alike :
      (c : C) (query : Bytes) (a b : ℕ) (found : Option Bytes)
      → ask k config query ≡ ask k' config query
      → after_get cache k config c query a b found ≡ after_get cache k' config c query a b found
  after_get_alike c query a b (some body) same = refl
  after_get_alike c query a b none same = ap (after_ask cache c query a b) same

  doh_query_alike :
      ((query : Bytes) → ask k config query ≡ ask k' config query)
      → (c : C) (query : Bytes)
      → doh_query cache k config c query ≡ doh_query cache k' config c query
  unfolding doh_query
  doh_query_alike same c [] = refl
  doh_query_alike same c (a ∷ []) = refl
  doh_query_alike same c (a ∷ b ∷ q) =
      let query : Bytes = 0xab ∷ 0xcd ∷ q in
      after_get_alike c query a b (cache.get c query) (same query)

  dns_resolve_alike :
      (dns : DnsParser)
      → ((query : Bytes) → ask k config query ≡ ask k' config query)
      → (c : C) (name : HostName) (t : QueryType)
      → dns_resolve cache k config dns c name t ≡ dns_resolve cache k' config dns c name t
  unfolding dns_resolve
  dns_resolve_alike dns same c (host_v4 a) t = refl
  dns_resolve_alike dns same c (host_v6 a) t = refl
  dns_resolve_alike dns same c (domain d) t = asked (dns.new_query d t)
    where
      asked :
          (r : Result Bytes) → run_query cache k config dns c r ≡ run_query cache k' config dns c r
      asked (ok query) = ap (after_query dns) (doh_query_alike same c query)
      asked (err e) = refl

-- The nested calls by which a name is found end at depth one: any depth from there on gives the
-- same, whatever would answer names at the bottom, since a DNS query is sent with `doh` off and the
-- stack is asked for the server's name as it is.
pub resolver_ends :
    {C : Type 0} (cache : Cache C) (parse_uri : Bytes → Result Uri) (env : Bytes → Env Response)
    (state : ProxyState) (dns : DnsParser) (c : C) (out out' : Answers) (depth : ℕ)
    (name : HostName) (t : QueryType)
    → resolver cache parse_uri env state dns c out (suc depth) name t
      ≡ resolver cache parse_uri env state dns c out' 1 name t
unfolding resolver
resolver_ends cache parse_uri env state dns c out out' depth name t =
    let below = resolver cache parse_uri env state dns c out depth in
    ap (λ r. r.1)
      (dns_resolve_alike cache (client parse_uri env state below) (client parse_uri env state out')
        state.config dns
        (λ query.
          ask_blind parse_uri env state below query
          ∙ sym (ask_blind parse_uri env state out' query))
        c name t)
