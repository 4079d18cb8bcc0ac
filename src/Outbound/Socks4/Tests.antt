-- ===== src/Outbound/Socks4/Tests.antt =====
-- A granted request at concrete input.
use local_proxy_rs.Base.{◌≡◌, refl, [], ◌∷◌, ◌++◌, none, some, Bytes, codes, ok, arith}
use local_proxy_rs.Net.{v4_octets}
use local_proxy_rs.Addr.{SocketAddr, host_v4, domain, addr_to_string}
use local_proxy_rs.Addr.RoundTrip.{addr_from_str-addr_to_string}
use local_proxy_rs.Config.{ProxyConfig}
use local_proxy_rs.Outbound.Socks4.{Socks4Proxy, new, connect, push_user, push_password}
use local_proxy_rs.Outbound.Socks4.Server.{decode}
use local_proxy_rs.Outbound.Socks4.Handshake.{connect-granted, told}

abbrev granting_addr : SocketAddr
granting_addr = record { hostname = host_v4 (v4_octets 10 0 0 1); port = 1080 }

abbrev user_conf : ProxyConfig
user_conf = record {
  protocol = codes "socks4";
  user = some (codes "ann");
  password = none;
  server = addr_to_string granting_addr;
}

abbrev user_proxy : Socks4Proxy
user_proxy = record { addr = granting_addr; auth = some (codes "ann") }

abbrev named_site : SocketAddr
named_site = record { hostname = domain (codes "a.org"); port = 80 }

user_new : new user_conf ≡ ok user_proxy
unfolding new
user_new =
    rw
      (addr_from_str-addr_to_string granting_addr
        (omega arith, omega arith, omega arith, omega arith) (omega arith))
      refl

connect-granted_example :
    (w : Bytes) × (connect user_proxy named_site
        (ok (record { incoming = 0 ∷ 90 ∷ 1 ∷ 2 ∷ 3 ∷ 4 ∷ 5 ∷ 6 ∷ 77 ∷ []; sent = [] }))
      ≡ ok (record { incoming = 77 ∷ []; sent = [] ++ w }))
    × (decode w
        ≡ some (record {
          user = push_user user_conf.user ++ push_password user_conf.password;
          host = told named_site.hostname;
          port = 80;
          rest = [];
        }))
connect-granted_example =
    connect-granted user_conf user_proxy named_site 1 2 3 4 5 6 (77 ∷ []) [] user_new refl
