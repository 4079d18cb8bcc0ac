-- ===== src/Outbound/Socks5/Tests.antt =====
-- A login, an open proxy and a refusal at concrete input.
use local_proxy_rs.Base.{ℕ, ◌≡◌, ◌≢◌, refl, [], ◌∷◌, ◌++◌, some, Bytes, codes, get_elem?, ok, arith}
use local_proxy_rs.Net.{v4_octets}
use local_proxy_rs.Addr.{SocketAddr, host_v4, domain, addr_to_string}
use local_proxy_rs.Addr.RoundTrip.{addr_from_str-addr_to_string}
use local_proxy_rs.Config.{ProxyConfig}
use local_proxy_rs.Outbound.Socks5.{Socks5Proxy, new, greeting, connect}
use local_proxy_rs.Outbound.Socks5.Server.{reply}
use local_proxy_rs.Outbound.Socks5.Handshake.{
  connect-login, connect-open, connect-blind, credentials, Asks,
}

abbrev server_addr : SocketAddr
server_addr = record { hostname = host_v4 (v4_octets 10 0 0 1); port = 1080 }

abbrev login_conf : ProxyConfig
login_conf = record {
  protocol = codes "socks5";
  user = some (codes "ann");
  password = some (codes "pw");
  server = addr_to_string server_addr;
}

abbrev login_proxy : Socks5Proxy
login_proxy = record { addr = server_addr; user = codes "ann"; password = codes "pw" }

abbrev website : SocketAddr
website = record { hostname = domain (codes "example.org"); port = 443 }

login_new : new login_conf ≡ ok login_proxy
unfolding new
login_new =
    rw
      (addr_from_str-addr_to_string server_addr (omega arith, omega arith, omega arith, omega arith)
        (omega arith))
      refl

connect-login_example :
    (w : Bytes) × (connect login_proxy website
        (record { incoming = 5 ∷ 2 ∷ 1 ∷ 0 ∷ (reply server_addr ++ (9 ∷ [])); sent = [] })
      ≡ (
        record { incoming = 9 ∷ []; sent = [] ++ greeting ++ credentials login_proxy ++ w },
        ok tt,
      ))
    × Asks website w
connect-login_example =
    connect-login login_conf login_proxy website server_addr (9 ∷ []) [] login_new (omega arith) tt

connect-open_example :
    (w : Bytes) × (connect login_proxy website
        (record { incoming = 5 ∷ 0 ∷ (reply server_addr ++ (9 ∷ [])); sent = [] })
      ≡ (record { incoming = 9 ∷ []; sent = [] ++ greeting ++ w }, ok tt))
    × Asks website w
connect-open_example = connect-open login_proxy website server_addr (9 ∷ []) [] (omega arith) tt

not_login : get_elem? {A = ℕ} (5 ∷ 0xff ∷ []) 1 ≢ some 2
not_login e = ground arith

connect-blind_example :
    connect login_proxy website (record { incoming = 5 ∷ 0xff ∷ []; sent = [] })
    ≡ connect
        (record { addr = server_addr; user = []; password = [] })
        website
        (record { incoming = 5 ∷ 0xff ∷ []; sent = [] })
connect-blind_example =
    connect-blind login_proxy (record { addr = server_addr; user = []; password = [] }) website
      (record { incoming = 5 ∷ 0xff ∷ []; sent = [] }) not_login
