-- ===== src/Outbound/Socks4/Handshake.antt =====
-- A SOCKS 4A server reads the destination that was asked for.
use local_proxy_rs.Base.{
  ℕ, false, [], ◌∷◌, ◌++◌, append_assoc, Option, none, some, Bytes, contains, u16_to_be_bytes, ◌≡◌,
  refl, ap, ◌∙◌, arith, ok, Bool-cases, inl, inr,
}
use mathlib.Core.Path.{subst}
use local_proxy_rs.Net.{Ipv4Addr, v4_octets, octets, show_v6}
use local_proxy_rs.Addr.{HostName, host_v4, host_v6, domain, SocketAddr}
use local_proxy_rs.Config.{ProxyConfig}
use local_proxy_rs.Outbound.Conn.{Conn}
use local_proxy_rs.Outbound.Socks4.{
  Socks4Proxy, new, push_user, push_password, non_empty, is_marker, u32_from_be_bytes, target,
  write_request, read_reply, handshake, connect,
}
use local_proxy_rs.Net.Zero.{show_v6_zero}
use local_proxy_rs.Outbound.Socks4.Server.{port_bytes, decode, until_zero-append}

-- The destination as a server can be told it: an IPv6 address by its text, as a name.
abbrev pub told : HostName → HostName
told (host_v6 a) = domain (show_v6 a)
told h = h

abbrev pub opt_bytes : Option Bytes → Bytes
opt_bytes none = []
opt_bytes (some b) = b

abbrev name_bytes : Option Bytes → Bytes
name_bytes none = []
name_bytes (some b) = b ++ 0 ∷ []

-- The request on the wire.
abbrev wire : Option Bytes → ℕ → Ipv4Addr × Option Bytes → Bytes
wire auth port (ip, hostname) =
    4 ∷ 1 ∷ (u16_to_be_bytes port ++ (octets ip ++ (opt_bytes auth ++ (0 ∷ name_bytes hostname))))

write_request_lem :
    (auth : Option Bytes) (port : ℕ) (ip : Ipv4Addr) (hostname : Option Bytes) (c : Conn)
    → write_request auth port (ip, hostname) c
      ≡ (record { incoming = c.incoming; sent = c.sent ++ wire auth port (ip, hostname) }, ok tt)
unfolding write_request
write_request_lem none port (v4_octets a b c d) none conn = simp append_assoc
write_request_lem none port (v4_octets a b c d) (some n) conn = simp append_assoc
write_request_lem (some u) port (v4_octets a b c d) none conn = simp append_assoc
write_request_lem (some u) port (v4_octets a b c d) (some n) conn = simp append_assoc

decode-wire_name :
    (auth : Option Bytes) (port : ℕ) (name : Bytes)
    → contains (opt_bytes auth) 0 ≡ false
    → contains name 0 ≡ false
    → decode (wire auth port (v4_octets 0 0 0 1, some name))
      ≡ some (record { user = opt_bytes auth; host = domain name; port = port; rest = [] })
decode-wire_name auth port name ha hn =
    rw
      (
        until_zero-append (opt_bytes auth) (name ++ 0 ∷ []) ha,
        until_zero-append name [] hn,
        port_bytes port,
      )
      refl

decode-wire_ip :
    (auth : Option Bytes) (port : ℕ) (ip : Ipv4Addr)
    → contains (opt_bytes auth) 0 ≡ false
    → is_marker (u32_from_be_bytes ip) ≡ false
    → decode (wire auth port (ip, none))
      ≡ some (record { user = opt_bytes auth; host = host_v4 ip; port = port; rest = [] })
decode-wire_ip auth port (v4_octets a b c d) ha m =
    rw (until_zero-append (opt_bytes auth) [] ha, m, port_bytes port) refl

-- A destination that `connect` does not refuse is told as such.
decode-wire :
    (auth : Option Bytes) (h : HostName) (port : ℕ) {t : Ipv4Addr × Option Bytes}
    → contains (opt_bytes auth) 0 ≡ false
    → target h ≡ ok t
    → decode (wire auth port t)
      ≡ some (record { user = opt_bytes auth; host = told h; port = port; rest = [] })
decode-wire auth (host_v4 ip) port {t} ha e = elim (Bool-cases (is_marker (u32_from_be_bytes ip))) [
  | inl m ↦ absurd (ground arith)
  | inr m ↦
      (let same : (ip, none) ≡ t = ground arith in
        subst
          (λ u.
            decode (wire auth port u)
            ≡ some (record { user = opt_bytes auth; host = host_v4 ip; port = port; rest = [] }))
          same (decode-wire_ip auth port ip ha m))
]
decode-wire auth (host_v6 a) port {t} ha e =
    let same : (v4_octets 0 0 0 1, some (show_v6 a)) ≡ t = ground arith in
    subst
      (λ u.
        decode (wire auth port u)
        ≡ some
            (record { user = opt_bytes auth; host = domain (show_v6 a); port = port; rest = [] }))
      same (decode-wire_name auth port (show_v6 a) ha (show_v6_zero a))
decode-wire auth (domain d) port {t} ha e = elim (Bool-cases (contains d 0)) [
  | inl z ↦ absurd (ground arith)
  | inr z ↦
      (let same : (v4_octets 0 0 0 1, some d) ≡ t = ground arith in
        subst
          (λ u.
            decode (wire auth port u)
            ≡ some (record { user = opt_bytes auth; host = domain d; port = port; rest = [] }))
          same (decode-wire_name auth port d ha z))
]

opt_bytes-non_empty : (s : Bytes) → opt_bytes (non_empty s) ≡ s
opt_bytes-non_empty [] = refl
opt_bytes-non_empty (c ∷ s) = refl

-- `new` lets only credentials through that hold no zero byte, and keeps user and password in order.
new_auth :
    (conf : ProxyConfig) {p : Socks4Proxy}
    → new conf ≡ ok p
    → (opt_bytes p.auth ≡ push_user conf.user ++ push_password conf.password)
      × (contains (opt_bytes p.auth) 0 ≡ false)
unfolding new
new_auth conf {p} h =
    let s = push_user conf.user ++ push_password conf.password in
    elim (Bool-cases (contains s 0)) [
      | inl z ↦ absurd (ground arith)
      | inr z ↦
          (let e : p.auth ≡ non_empty s = ground arith in
            let f : opt_bytes p.auth ≡ s = ap opt_bytes e ∙ opt_bytes-non_empty s in (f, rw f z))
    ]

-- A proxy made from settings that `new` accepts, asked for a destination that `connect` does not
-- refuse, over a connection on which the server grants the request: the handshake succeeds, has
-- read the eight bytes of the reply and no more, and has sent a request that a SOCKS 4A server
-- reads as the settings' user and password, with a colon before the password, and as the
-- destination, an IPv6 address by its text as a name.
pub connect-granted :
    (conf : ProxyConfig) (p : Socks4Proxy) (a : SocketAddr) {t : Ipv4Addr × Option Bytes}
    (b0 b1 b2 b3 b4 b5 : ℕ) (rest sent : Bytes)
    → new conf ≡ ok p
    → target a.hostname ≡ ok t
    → (w : Bytes) × (connect p a
          (ok (record { incoming = 0 ∷ 90 ∷ b0 ∷ b1 ∷ b2 ∷ b3 ∷ b4 ∷ b5 ∷ rest; sent = sent }))
        ≡ ok (record { incoming = rest; sent = sent ++ w }))
      × (decode w
          ≡ some (record {
            user = push_user conf.user ++ push_password conf.password;
            host = told a.hostname;
            port = a.port;
            rest = [];
          }))
unfolding connect handshake read_reply
connect-granted conf p a {t} b0 b1 b2 b3 b4 b5 rest sent made e =
    let (auth, zero_free) = new_auth conf made in
    let run =
      write_request_lem p.auth a.port t.0 t.1
        (record { incoming = 0 ∷ 90 ∷ b0 ∷ b1 ∷ b2 ∷ b3 ∷ b4 ∷ b5 ∷ rest; sent = sent }) in
    (
      wire p.auth a.port t,
      rw (e, connect) (rw (run, handshake) refl),
      rw (← auth) (decode-wire p.auth a.hostname a.port zero_free e),
    )
