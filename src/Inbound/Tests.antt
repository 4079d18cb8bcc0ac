-- ===== src/Inbound/Tests.antt =====
-- Requests, queries and clients at concrete input.
use local_proxy_rs.Base.{
  true, false, List, [], ◌∷◌, Option, none, some, Bytes, codes, bytes_eq, if◌then◌else◌, Result, ok,
  err, io, ◌≡◌, refl, arith,
}
use local_proxy_rs.Net.{v4_octets, split}
use local_proxy_rs.Addr.{SocketAddr, host_v4, domain, addr_to_string}
use local_proxy_rs.Addr.RoundTrip.{addr_from_str-addr_to_string}
use local_proxy_rs.Config.{Config}
use local_proxy_rs.Main.{ProxyState}
use local_proxy_rs.Doh.{Cache, Response, data_frame, new_request_config}
use local_proxy_rs.Doh.Resolve.{a, rdata_a, DnsParser}
use local_proxy_rs.Outbound.Conn.{Conn}
use local_proxy_rs.Outbound.Http
use local_proxy_rs.Outbound.Http.{HttpProxy}
use local_proxy_rs.Outbound.Stack.{
  raw, fragment, server, http, rev, Network, connect, credentials, push_proxy, push_proxies,
  or_no_proxies, proxy_stack, request_stack,
}
use local_proxy_rs.Outbound.Exchange.{Env, http_proxy, happy_eyeballs}
use local_proxy_rs.Request.{Request}
use local_proxy_rs.Request.UriParse.{Uri}
use local_proxy_rs.Request.Tests.{plain, server_text, incoming, outgoing, rewritten}
use local_proxy_rs.Inbound.Send.{send_request, Answers, resolver}
use local_proxy_rs.Inbound.Send.Forward.{IsForwarded, send_request-IsForwarded}
use local_proxy_rs.Inbound.Send.Direct.{resolver_ends}
use local_proxy_rs.Inbound.Http.{HttpResponse, ClientRequest, handle, open_tunnel}
use local_proxy_rs.Inbound.Http.Handled.{IsAnswered, handle-IsAnswered}

abbrev fresh : Conn
fresh = record { incoming = []; sent = [] }

abbrev open_network : Network
open_network = record {
  dial = λ t. ok fresh;
  set_nodelay = λ c. ok c;
  tls = λ name c. ok c;
  tunnel = λ r c. ok c;
  fragment_layer = λ c. c;
}

-- The proxy's libraries, with what the servers answer.
abbrev env : {R : Type 0} → (Conn → Request → Result R) → Env R
env answer = record {
  network = open_network;
  doh = false;
  answers = λ name t. err io;
  first = a;
  library = plain;
  path_and_query = λ u. some u.path;
  send_request = answer;
  status = λ r. 200;
  upgrade_request = λ q. err io;
  upgrade_response = λ r. err io;
}

abbrev proxy_addr : SocketAddr
proxy_addr = record { hostname = host_v4 (v4_octets 10 0 0 2); port = 3128 }

abbrev one_proxy : Config
one_proxy = record {
  proxies = some (
      record {
        protocol = codes "http";
        user = some (codes "u");
        password = some (codes "p");
        server = addr_to_string proxy_addr;
      }
      ∷ []);
  doh = none;
  fragment = none;
  http_listen = none;
  tproxy_listen = none;
  dns_listen = none;
}

abbrev same_text : Bytes → Bytes
same_text s = s

abbrev the_proxy : HttpProxy
the_proxy = record { addr = proxy_addr; auth = some (codes "u:p") }

abbrev state : ProxyState
state = record {
  config = one_proxy;
  dns_cache = 0;
  proxy_stack = raw ∷ server (http the_proxy) ∷ fragment ∷ [];
}

parsed :
    push_proxies same_text (or_no_proxies one_proxy.proxies) []
    ≡ some (server (http the_proxy) ∷ [])
unfolding push_proxies push_proxy credentials split Http.new
parsed =
    rw
      (addr_from_str-addr_to_string proxy_addr (omega arith, omega arith, omega arith, omega arith)
        (omega arith))
      refl

built : proxy_stack same_text one_proxy [] ≡ some state.proxy_stack
unfolding proxy_stack
built = rw parsed refl

abbrev forwarded : Request
forwarded = record {
  uri = record {
    scheme_str = some (codes "http");
    authority = some server_text;
    path = codes "/?q";
    query = none;
  };
  headers = (codes "proxy-authorization", codes "Basic u:p") ∷ outgoing.headers;
}

sent_on :
    send_request (env (λ c r. ok r)) state incoming new_request_config
    ≡ ok (record { response = forwarded; task = none })
unfolding send_request http_proxy request_stack connect
sent_on = rw rewritten refl

send_request-IsForwarded_example :
    (c : Conn) × (connect open_network (rev (raw ∷ [])) proxy_addr ≡ ok c)
    × IsForwarded (env (λ c r. ok r)) the_proxy outgoing c forwarded
send_request-IsForwarded_example =
    send_request-IsForwarded (env (λ c r. ok r)) same_text state [] [] the_proxy incoming outgoing
      new_request_config (record { response = forwarded; task = none }) built parsed rewritten
      sent_on

-- Settings with a server for DNS queries, and no proxies.
abbrev doh_state : ProxyState
doh_state = record {
  config = record one_proxy {
    proxies = none;
    doh = some (record { endpoint = codes "https://dns/"; fake_host = none });
  };
  dns_cache = 65535;
  proxy_stack = raw ∷ fragment ∷ [];
}

abbrev list_get : List (Bytes × Bytes) → Bytes → Option Bytes
list_get [] q = none
list_get ((k, v) ∷ c) q = if bytes_eq k q then some v else list_get c q

abbrev list_cache : Cache (List (Bytes × Bytes))
list_cache = record { get = list_get; insert = λ q r c. (q, r) ∷ c }

-- A server that answers a query with its own bytes.
abbrev echo : Bytes → Env Response
echo query =
    env (λ c r. ok (record { is_success = true; frames = ok (data_frame (query ∷ [])) ∷ [] }))

-- A library that puts a name behind the id, and reads one address in every reply.
abbrev one_address : DnsParser
one_address = record {
  new_query = λ d t. ok (1 ∷ 2 ∷ d);
  parse = λ b. ok (record { is_class_in = true; data_of = rdata_a (v4_octets 1 2 3 4) } ∷ []);
}

abbrev endpoint : Bytes → Result Uri
endpoint s = ok (record {
  scheme_str = some (codes "https");
  authority = some server_text;
  path = [];
  query = none;
})

abbrev unanswered : Answers
unanswered name t = err io

resolver_ends_example :
    resolver list_cache endpoint echo doh_state one_address [] unanswered 3 (domain (codes "a")) a
    ≡ resolver list_cache endpoint echo doh_state one_address []
        (λ name t. ok none)
        1
        (domain (codes "a"))
        a
resolver_ends_example =
    resolver_ends list_cache endpoint echo doh_state one_address [] unanswered (λ name t. ok none) 2
      (domain (codes "a")) a

abbrev page : HttpResponse
page = record { status = 200; headers = (codes "keep-alive", codes "5") ∷ []; body = 1 ∷ [] }

abbrev connect_request : ClientRequest
connect_request = record {
  method = codes "CONNECT";
  uri_text = addr_to_string proxy_addr;
  request = incoming;
}

handle-IsAnswered_example :
    IsAnswered
      (9 ∷ [])
      (env (λ c r. ok page))
      state
      connect_request
      (handle (9 ∷ []) (env (λ c r. ok page)) state connect_request)
handle-IsAnswered_example = handle-IsAnswered (9 ∷ []) (env (λ c r. ok page)) state connect_request

-- The client gets a tunnel.
tunnelled : (handle (9 ∷ []) (env (λ c r. ok page)) state connect_request).tunnel ≡ some fresh
unfolding handle open_tunnel happy_eyeballs connect
tunnelled =
    rw
      (addr_from_str-addr_to_string proxy_addr (omega arith, omega arith, omega arith, omega arith)
        (omega arith))
      refl
