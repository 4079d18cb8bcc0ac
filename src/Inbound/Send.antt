-- ===== src/Inbound/Send.antt =====
-- local_proxy/src/inbound/http/http_proxy.rs, `run` and `send_request` as a whole; and the requests
-- that local_proxy/src/utils/dns.rs sends by it.
pub mod Forward
pub mod Direct
use local_proxy_rs.Base.{
  ℕ, zero, suc, Bool, true, false, List, [], ◌∷◌, Option, none, some, Bytes, codes, Result, ok,
  bind, map_ok,
}
use local_proxy_rs.Addr.{HostName}
use local_proxy_rs.Config.{Config, DohConfig}
use local_proxy_rs.Main.{ProxyState}
use local_proxy_rs.Outbound.Stack.{Outbound, rev, request_stack}
use local_proxy_rs.Outbound.Exchange.{Env, Exchanged, http_proxy}
use local_proxy_rs.Request.{Request, rewrite_request}
use local_proxy_rs.Request.UriParse.{Uri}
use local_proxy_rs.Doh.{RequestConfig, new_request_config, Response, Client, Cache}
use local_proxy_rs.Doh.Resolve.{QueryType, DnsParser, dns_resolve}

unfoldable pub send_request :
    {R : Type 0} → Env R → ProxyState → Request → RequestConfig → Result (Exchanged R)
send_request e state request conf = bind (rewrite_request e.library request) (λ r.
    http_proxy e (rev (request_stack state.config.fragment conf.fragment state.proxy_stack)) r.0
      conf r.1)

-- `http_proxy::run`.
unfoldable pub run : {R : Type 0} → Env R → ProxyState → Request → Result (Exchanged R)
run e state request = send_request e state request new_request_config

-- The POST request of a query, but for its body, which is the query.
abbrev pub doh_request : Uri → Request
doh_request endpoint = record {
  uri = endpoint;
  headers =
      (codes "accept", codes "application/dns-message")
      ∷ (codes "content-type", codes "application/dns-message")
      ∷ [];
}

-- The client of a query is the proxy itself; the answer of hyper's `send_request` depends on the body.
abbrev pub doh_client : (Bytes → Result Uri) → (Bytes → Env Response) → ProxyState → Client Uri
doh_client parse_uri env state = record {
  parse_uri = parse_uri;
  send_request = λ endpoint query conf.
      map_ok (λ x. x.response) (send_request (env query) state (doh_request endpoint) conf);
}

-- How names are found for a request.
abbrev pub Answers : Type 0
Answers = HostName → QueryType → Result (Option HostName)

abbrev pub answer_by : {R : Type 0} → Answers → Env R → Env R
answer_by answers e = record e { answers = answers }

-- `happy_eyeballs` calls `dns_resolve`, which calls `doh_query` and, by `send_request`, the stack
-- again: the calls as they are nested, to a given depth, below which names are answered by `out`.
unfoldable pub resolver :
    {C : Type 0}
    → Cache C
    → (Bytes → Result Uri)
    → (Bytes → Env Response)
    → ProxyState
    → DnsParser
    → C
    → Answers
    → ℕ
    → Answers
resolver cache parse_uri env state dns c out zero = out
resolver cache parse_uri env state dns c out (suc depth) = λ name t.
    let below = resolver cache parse_uri env state dns c out depth in
    let client = doh_client parse_uri (λ query. answer_by below (env query)) state in
    (dns_resolve cache client state.config dns c name t).1
