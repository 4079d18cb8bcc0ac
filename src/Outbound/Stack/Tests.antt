-- ===== src/Outbound/Stack/Tests.antt =====
-- A stack of two proxies at concrete settings.
use local_proxy_rs.Base.{◌≡◌, refl, false, List, [], ◌∷◌, ◌++◌, none, some, Bytes, codes, arith}
use local_proxy_rs.Net.{v4_octets, split}
use local_proxy_rs.Addr.{SocketAddr, host_v4, addr_to_string}
use local_proxy_rs.Addr.RoundTrip.{addr_from_str-addr_to_string}
use local_proxy_rs.Config.{Config}
use local_proxy_rs.Outbound.Http
use local_proxy_rs.Outbound.Socks5
use local_proxy_rs.Outbound.Stack.{
  Outbound, raw, tls_client, fragment, server, http, socks5, Network, connect, rev, credentials,
  push_proxy, push_proxies, or_no_proxies, proxy_stack, request_stack,
}
use local_proxy_rs.Outbound.Stack.Route.{Hop, whole_way}
use local_proxy_rs.Outbound.Stack.Built.{ServesAll, connect-proxy_stack}
use local_proxy_rs.Outbound.Stack.Policy.{fragmented, layer_if, request_stack-proxy_stack}

abbrev first_addr : SocketAddr
first_addr = record { hostname = host_v4 (v4_octets 10 0 0 1); port = 8443 }

abbrev second_addr : SocketAddr
second_addr = record { hostname = host_v4 (v4_octets 10 0 0 2); port = 1080 }

-- An HTTP proxy by TLS whose password is in the file, and a SOCKS proxy whose user is typed in.
abbrev two_proxies : Config
two_proxies = record {
  proxies = some (
      record {
        protocol = codes "tls+http";
        user = some (codes "u");
        password = some (codes "p");
        server = addr_to_string first_addr;
      }
      ∷ record {
        protocol = codes "socks5";
        user = none;
        password = none;
        server = addr_to_string second_addr;
      }
      ∷ []);
  doh = none;
  fragment = none;
  http_listen = none;
  tproxy_listen = none;
  dns_listen = none;
}

abbrev typed : List Bytes
typed = (codes "ann" ++ 13 ∷ 10 ∷ []) ∷ (10 ∷ []) ∷ []

-- Stands for base64 here.
abbrev same_text : Bytes → Bytes
same_text s = s

abbrev two_stack : List Outbound
two_stack =
    raw
    ∷ tls_client
    ∷ server (http (record { addr = first_addr; auth = some (codes "u:p") }))
    ∷ server (socks5 (record { addr = second_addr; user = codes "ann"; password = [] }))
    ∷ fragment
    ∷ []

two_built : proxy_stack same_text two_proxies typed ≡ some two_stack
unfolding proxy_stack push_proxies push_proxy credentials split Http.new Socks5.new
two_built =
    rw
      (
        addr_from_str-addr_to_string first_addr (omega arith, omega arith, omega arith, omega arith)
            (omega arith),
        addr_from_str-addr_to_string second_addr
            (omega arith, omega arith, omega arith, omega arith) (omega arith),
      )
      refl

connect-proxy_stack_example :
    (hops : List Hop) × ServesAll (or_no_proxies two_proxies.proxies) hops
    × ((k : Network) (dest : SocketAddr)
        → connect k (rev two_stack) dest ≡ whole_way k none hops dest)
connect-proxy_stack_example = connect-proxy_stack same_text two_proxies typed two_stack two_built

request_stack-proxy_stack_example :
    (os : List Outbound) × (push_proxies same_text (or_no_proxies two_proxies.proxies) typed
      ≡ some os)
    × (request_stack none (some false) two_stack
        ≡ raw ∷ (os ++ layer_if (fragmented none (some false))))
request_stack-proxy_stack_example =
    request_stack-proxy_stack same_text two_proxies typed (some false) two_stack two_built
