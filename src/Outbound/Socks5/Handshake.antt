-- ===== src/Outbound/Socks5/Handshake.antt =====
-- The handshake against a server's answers.
use local_proxy_rs.Base.{
  ℕ, ◌≤◌, [], ◌∷◌, ◌++◌, append_assoc, append-nil, get_elem?, some, Bytes, length, le→leb,
  u16_to_be_bytes, ◌≡◌, ◌≢◌, refl, arith, ok,
}
use mathlib.Core.Path.{subst}
use local_proxy_rs.Net.{v4_octets, v6_segments}
use local_proxy_rs.Addr.{HostName, host_v4, host_v6, domain, SocketAddr}
use local_proxy_rs.Config.{ProxyConfig}
use local_proxy_rs.Outbound.Conn.{Conn, read_exact, read_exact-append}
use local_proxy_rs.Outbound.Socks5.{
  Socks5Proxy, new, greeting, authenticate, write_request, read_reply, negotiate, connect,
}
use local_proxy_rs.Outbound.Socks5.Server.{
  request, reply, Fits, decode_request, decode_request-request,
}

write_request_lem :
    (a : SocketAddr) (inc sent : Bytes)
    → Fits a.hostname
    → write_request a (record { incoming = inc; sent = sent })
      ≡ (record { incoming = inc; sent = sent ++ request a }, ok tt)
unfolding write_request
write_request_lem a inc sent h = go a.hostname a.port h
  where
    go :
        (h : HostName) (port : ℕ)
        → Fits h
        → write_request
            (record { hostname = h; port = port })
            (record { incoming = inc; sent = sent })
          ≡ (
            record {
              incoming = inc;
              sent = sent ++ request (record { hostname = h; port = port });
            },
            ok tt,
          )
    go (host_v4 (v4_octets a b c d)) port f = simp append_assoc
    go (host_v6 (v6_segments a b c d e f g h)) port k = simp append_assoc
    go (domain d) port f = rw (le→leb (length d) 255 f) (simp append_assoc)

read_reply_lem :
    (b : SocketAddr) (rest sent : Bytes)
    → Fits b.hostname
    → read_reply (record { incoming = reply b ++ rest; sent = sent })
      ≡ (record { incoming = rest; sent = sent }, ok tt)
unfolding read_reply read_exact
read_reply_lem b rest sent h = go b.hostname b.port
  where
    go :
        (h : HostName) (port : ℕ)
        → read_reply (record {
          incoming = reply (record { hostname = h; port = port }) ++ rest;
          sent = sent;
        })
          ≡ (record { incoming = rest; sent = sent }, ok tt)
    go (host_v4 (v4_octets a b c d)) port = refl
    go (host_v6 (v6_segments a b c d e f g h)) port = refl
    go (domain d) port =
        rw
          (
            append_assoc d (u16_to_be_bytes port) rest,
            read_exact-append d (u16_to_be_bytes port ++ rest) sent,
          )
          refl

-- The message of RFC 1929.
abbrev pub credentials : Socks5Proxy → Bytes
credentials p = 1 ∷ length p.user ∷ (p.user ++ (length p.password ∷ p.password))

authenticate_lem :
    (p : Socks5Proxy) (inc sent : Bytes)
    → length p.user ≤ 255
    → length p.password ≤ 255
    → authenticate p (record { incoming = 1 ∷ 0 ∷ inc; sent = sent })
      ≡ (record { incoming = inc; sent = sent ++ credentials p }, ok tt)
unfolding authenticate
authenticate_lem p inc sent hu hp =
    rw (le→leb (length p.user) 255 hu, le→leb (length p.password) 255 hp) (simp append_assoc)

negotiate_open :
    (p : Socks5Proxy) (inc sent : Bytes)
    → negotiate p (record { incoming = 5 ∷ 0 ∷ inc; sent = sent })
      ≡ (record { incoming = inc; sent = sent ++ greeting }, ok tt)
unfolding negotiate
negotiate_open p inc sent = refl

negotiate_login :
    (p : Socks5Proxy) (inc sent : Bytes)
    → length p.user ≤ 255
    → length p.password ≤ 255
    → negotiate p (record { incoming = 5 ∷ 2 ∷ 1 ∷ 0 ∷ inc; sent = sent })
      ≡ (record { incoming = inc; sent = sent ++ greeting ++ credentials p }, ok tt)
unfolding negotiate
negotiate_login p inc sent hu hp = authenticate_lem p inc (sent ++ greeting) hu hp

connect_after :
    (p : Socks5Proxy) (a b : SocketAddr) (c : Conn) (rest sent : Bytes)
    → Fits a.hostname
    → Fits b.hostname
    → negotiate p c ≡ (record { incoming = reply b ++ rest; sent = sent }, ok tt)
    → connect p a c ≡ (record { incoming = rest; sent = sent ++ request a }, ok tt)
unfolding connect
connect_after p a b c rest sent ha hb e =
    rw (e, connect)
      (rw (write_request_lem a (reply b ++ rest) sent ha)
        (read_reply_lem b rest (sent ++ request a) hb))

-- What the proxy makes of the bytes behind the greeting.
abbrev pub Asks : SocketAddr → Bytes → Type 0
Asks a b = decode_request b ≡ some (a, [])

Asks-request : (a : SocketAddr) → Asks a (request a)
Asks-request a = subst (Asks a) (append-nil (request a)) (decode_request-request a [])

-- A server that wants no authentication and connects, from whatever address, gets the greeting and
-- a request that it reads as the address asked for; the handshake succeeds and has read the reply
-- and nothing behind it.
pub connect-open :
    (p : Socks5Proxy) (a b : SocketAddr) (rest sent : Bytes)
    → Fits a.hostname
    → Fits b.hostname
    → (w : Bytes) × (connect p a (record { incoming = 5 ∷ 0 ∷ (reply b ++ rest); sent = sent })
        ≡ (record { incoming = rest; sent = sent ++ greeting ++ w }, ok tt))
      × Asks a w
connect-open p a b rest sent ha hb = (
  request a,
  connect_after p a b _ rest (sent ++ greeting) ha hb (negotiate_open p (reply b ++ rest) sent),
  Asks-request a,
)

-- `new` lets only credentials through whose lengths fit a byte.
new_fits :
    (conf : ProxyConfig) {p : Socks5Proxy}
    → new conf ≡ ok p
    → (length p.user ≤ 255) × (length p.password ≤ 255)
unfolding new
new_fits conf h = ground arith

-- A proxy made from settings that `new` accepts, against a server that asks for a login, accepts it
-- and connects: the server gets the greeting, the user name and the password of the proxy in the
-- message of RFC 1929, and a request that it reads as the address asked for; the handshake
-- succeeds and has read nothing behind the reply.
pub connect-login :
    (conf : ProxyConfig) (p : Socks5Proxy) (a b : SocketAddr) (rest sent : Bytes)
    → new conf ≡ ok p
    → Fits a.hostname
    → Fits b.hostname
    → (w : Bytes) × (connect p a
          (record { incoming = 5 ∷ 2 ∷ 1 ∷ 0 ∷ (reply b ++ rest); sent = sent })
        ≡ (record { incoming = rest; sent = sent ++ greeting ++ credentials p ++ w }, ok tt))
      × Asks a w
connect-login conf p a b rest sent made ha hb =
    let (hu, hp) = new_fits conf made in
    (
      request a,
      connect_after p a b _ rest (sent ++ greeting ++ credentials p) ha hb
          (negotiate_login p (reply b ++ rest) sent hu hp),
      Asks-request a,
    )

negotiate_blind :
    (p q : Socks5Proxy) (inc sent : Bytes)
    → get_elem? inc 1 ≢ some 2
    → negotiate p (record { incoming = inc; sent = sent })
      ≡ negotiate q (record { incoming = inc; sent = sent })
unfolding negotiate
negotiate_blind p q [] sent h = refl
negotiate_blind p q (v ∷ []) sent h = ground arith
negotiate_blind p q (v ∷ m ∷ inc) sent h = ground arith

-- Unless the server chooses the method of user name and password, nothing that the handshake sends
-- or returns depends on the credentials.
pub connect-blind :
    (p q : Socks5Proxy) (a : SocketAddr) (c : Conn)
    → get_elem? c.incoming 1 ≢ some 2
    → connect p a c ≡ connect q a c
unfolding connect
connect-blind p q a c h = rw (negotiate_blind p q c.incoming c.sent h, connect) refl
