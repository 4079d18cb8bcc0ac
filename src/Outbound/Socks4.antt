-- ===== src/Outbound/Socks4.antt =====
-- local_proxy/src/outbound/socks4.rs: the client's side of SOCKS 4 and 4A.
mod Server
mod Handshake
mod Tests
use local_proxy_rs.Base.{
  ℕ, ◌+◌, ◌*◌, ◌/◌, ◌%◌, Bool, true, false, not, ◌&&◌, List, [], ◌∷◌, ◌++◌, Option, none, some,
  Bytes, contains, ◌==◌, if◌then◌else◌, u16_to_be_bytes, Error, rejected, Result, ok, err,
}
use local_proxy_rs.Base
use local_proxy_rs.Net.{Ipv4Addr, v4_octets, octets, show_v6}
use local_proxy_rs.Addr.{HostName, host_v4, host_v6, domain, SocketAddr, addr_from_str}
use local_proxy_rs.Config.{ProxyConfig}
use local_proxy_rs.Outbound.Conn.{
  Conn, M, ◌>>=◌, ◌>>◌, done, fail, write_all, read_u8, read_exact, require,
}

pub record Socks4Proxy : Type 0 where
  pub addr : SocketAddr
  pub auth : Option Bytes

abbrev pub push_user : Option Bytes → Bytes
push_user none = []
push_user (some user) = user

abbrev pub push_password : Option Bytes → Bytes
push_password none = []
push_password (some password) = b':' ∷ password

abbrev pub non_empty : Bytes → Option Bytes
non_empty [] = none
non_empty (c ∷ s) = some (c ∷ s)

-- `Socks4Proxy::new`.
unfoldable pub new : ProxyConfig → Result Socks4Proxy
new conf =
    let auth = push_user conf.user ++ push_password conf.password in
    if contains auth 0
    then err rejected
    else Base.map_ok (λ a. record { addr = a; auth = non_empty auth }) (addr_from_str conf.server)

-- `u32::from_be_bytes`.
abbrev pub u32_from_be_bytes : Ipv4Addr → ℕ
u32_from_be_bytes (v4_octets a b c d) = a * 16777216 + b * 65536 + c * 256 + d

-- The addresses 0.0.0.x with x not 0, which SOCKS 4A uses to announce a name:
-- `v & 0xFFFFFF00 == 0 && v & 0xFF != 0`.
abbrev pub is_marker : ℕ → Bool
is_marker v = v / 256 * 256 == 0 && not (v % 256 == 0)

-- The address field and the name of a request, where the destination can be written.
abbrev pub target : HostName → Result (Ipv4Addr × Option Bytes)
target (host_v4 a) = if is_marker (u32_from_be_bytes a) then err rejected else ok (a, none)
target (host_v6 a) = ok (v4_octets 0 0 0 1, some (show_v6 a))
target (domain d) = if contains d 0 then err rejected else ok (v4_octets 0 0 0 1, some d)

abbrev pub write_opt : Option Bytes → M (Unit {0})
write_opt none = done tt
write_opt (some b) = write_all b

abbrev pub write_name : Option Bytes → M (Unit {0})
write_name none = done tt
write_name (some b) = write_all b >> write_all (0 ∷ [])

unfoldable pub write_request : Option Bytes → ℕ → Ipv4Addr × Option Bytes → M (Unit {0})
write_request auth port (ip, hostname) = do
  write_all (4 ∷ 1 ∷ [])
  write_all (u16_to_be_bytes port)
  write_all (octets ip)
  write_opt auth
  write_all (0 ∷ [])
  write_name hostname

unfoldable pub read_reply : M (Unit {0})
unfolding read_exact
read_reply = do
  version ← read_u8
  require (version == 0)
  status ← read_u8
  require (status == 90)
  read_exact 6

-- `connect` once there is a connection to the proxy.
unfoldable pub handshake : Option Bytes → ℕ → Ipv4Addr × Option Bytes → M (Unit {0})
handshake auth port t = do write_request auth port t; read_reply

abbrev pub finish : Conn × Result (Unit {0}) → Result Conn
finish (c, ok _) = ok c
finish (c, err e) = err e

-- `connect`: a destination that cannot be written is refused before `dial`, the connection to the
-- proxy, is asked for.
unfoldable pub connect : Socks4Proxy → SocketAddr → Result Conn → Result Conn
connect p a dial =
    Base.bind (target a.hostname) (λ t. Base.bind dial (λ c. finish (handshake p.auth a.port t c)))
