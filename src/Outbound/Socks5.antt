-- ===== src/Outbound/Socks5.antt =====
-- local_proxy/src/outbound/socks5.rs: the client's side of RFC 1928 and RFC 1929.
mod Server
mod Handshake
mod Tests
use local_proxy_rs.Base.{
  ℕ, suc, ◌+◌, Bool, true, false, not, List, [], ◌∷◌, ◌++◌, Option, none, some, Bytes, length, ltb,
  ◌==◌, if◌then◌else◌, u16_to_be_bytes, Error, rejected, Result, ok, err,
}
use local_proxy_rs.Base
use local_proxy_rs.Net.{octets, v6_octets}
use local_proxy_rs.Addr.{HostName, host_v4, host_v6, domain, SocketAddr, addr_from_str}
use local_proxy_rs.Config.{ProxyConfig}
use local_proxy_rs.Outbound.Conn.{
  Conn, M, ◌>>=◌, ◌>>◌, done, fail, write_all, read_u8, read_exact, require, u8_try_into,
}

pub record Socks5Proxy : Type 0 where
  pub addr : SocketAddr
  pub user : Bytes
  pub password : Bytes

abbrev pub or_empty : Option Bytes → Bytes
or_empty none = []
or_empty (some s) = s

-- `Socks5Proxy::new`.
unfoldable pub new : ProxyConfig → Result Socks5Proxy
new conf =
    let user = or_empty conf.user in
    let password = or_empty conf.password in
    if ltb 255 (length user)
    then err rejected
    else if ltb 255 (length password)
    then err rejected
    else Base.map_ok (λ a. record { addr = a; user = user; password = password })
        (addr_from_str conf.server)

abbrev pub greeting : Bytes
greeting = 5 ∷ 2 ∷ 0 ∷ 2 ∷ []

-- The username and password of RFC 1929.
unfoldable pub authenticate : Socks5Proxy → M (Unit {0})
authenticate p = do
  user_len ← u8_try_into (length p.user)
  write_all (1 ∷ user_len ∷ [])
  write_all p.user
  password_len ← u8_try_into (length p.password)
  write_all (password_len ∷ [])
  write_all p.password
  version ← read_u8
  require (version == 1)
  status ← read_u8
  require (status == 0)

-- `match server.read_u8().await? { 0 => {} 2 => … _ => … }`.
abbrev pub choose : Socks5Proxy → ℕ → M (Unit {0})
choose p method =
    if method == 0 then done tt else if method == 2 then authenticate p else fail rejected

abbrev pub write_host : HostName → M (Unit {0})
write_host (host_v4 a) = write_all (1 ∷ []) >> write_all (octets a)
write_host (host_v6 a) = write_all (4 ∷ []) >> write_all (v6_octets a)
write_host (domain d) = do len ← u8_try_into (length d); write_all (3 ∷ len ∷ []); write_all d

unfoldable pub write_request : SocketAddr → M (Unit {0})
write_request a = do
  write_all (5 ∷ 1 ∷ 0 ∷ [])
  write_host a.hostname
  write_all (u16_to_be_bytes a.port)

-- The bound address in the reply, which is passed over.
abbrev pub read_bound : ℕ → M (Unit {0})
read_bound kind =
    if kind == 1
    then read_exact 4
    else if kind == 3
    then (do len ← read_u8; read_exact len)
    else if kind == 4
    then read_exact 16
    else fail rejected

unfoldable pub read_reply : M (Unit {0})
read_reply = do
  version ← read_u8
  require (version == 5)
  status ← read_u8
  require (status == 0)
  reserved ← read_u8
  require (reserved == 0)
  kind ← read_u8
  read_bound kind
  read_exact 2

unfoldable pub negotiate : Socks5Proxy → M (Unit {0})
negotiate p = do
  write_all greeting
  version ← read_u8
  require (version == 5)
  method ← read_u8
  choose p method

-- `connect`, once there is a connection to the proxy.
unfoldable pub connect : Socks5Proxy → SocketAddr → M (Unit {0})
connect p a = do negotiate p; write_request a; read_reply
