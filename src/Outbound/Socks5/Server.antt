-- ===== src/Outbound/Socks5/Server.antt =====
-- The proxy's side: how a server of RFC 1928 reads a request, and how it replies.
use local_proxy_rs.Base.{
  ℕ, ◌+◌, ◌*◌, ◌/◌, ◌%◌, ◌≤◌, ◌&&◌, [], ◌∷◌, ◌++◌, append_assoc, Option, none, some, Bytes, length,
  take, drop, take-append_self, drop-append_self, length-append, leb, le→leb, ◌==◌, if◌then◌else◌,
  u16_to_be_bytes, u16_from_be_bytes, ◌≡◌, refl, arith,
}
use local_proxy_rs.Net.{v4_octets, octets, v6_segments, v6_octets}
use local_proxy_rs.Addr.{HostName, host_v4, host_v6, domain, SocketAddr}

-- An address as both sides write it.
abbrev pub host_bytes : HostName → Bytes
host_bytes (host_v4 a) = 1 ∷ octets a
host_bytes (host_v6 a) = 4 ∷ v6_octets a
host_bytes (domain d) = 3 ∷ length d ∷ d

abbrev pub request : SocketAddr → Bytes
request a = 5 ∷ 1 ∷ 0 ∷ (host_bytes a.hostname ++ u16_to_be_bytes a.port)

-- The reply of a server that has connected, from the address `b`.
abbrev pub reply : SocketAddr → Bytes
reply b = 5 ∷ 0 ∷ 0 ∷ (host_bytes b.hostname ++ u16_to_be_bytes b.port)

-- A name whose length fits a byte.
abbrev pub Fits : HostName → Type 0
Fits (domain d) = length d ≤ 255
Fits _ = Unit

abbrev pub decode_port : HostName → Bytes → Option (SocketAddr × Bytes)
decode_port h (hi ∷ lo ∷ r) = some (record { hostname = h; port = u16_from_be_bytes hi lo }, r)
decode_port h _ = none

abbrev pub decode_v4 : Bytes → Option (SocketAddr × Bytes)
decode_v4 (a ∷ b ∷ c ∷ d ∷ s) = decode_port (host_v4 (v4_octets a b c d)) s
decode_v4 _ = none

abbrev pub decode_v6 : Bytes → Option (SocketAddr × Bytes)
decode_v6 (a0 ∷ a1 ∷ b0 ∷ b1 ∷ c0 ∷ c1 ∷ d0 ∷ d1 ∷ e0 ∷ e1 ∷ f0 ∷ f1 ∷ g0 ∷ g1 ∷ h0 ∷ h1 ∷ s) =
    decode_port
      (host_v6 (
        v6_segments (u16_from_be_bytes a0 a1) (u16_from_be_bytes b0 b1) (u16_from_be_bytes c0 c1)
          (u16_from_be_bytes d0 d1) (u16_from_be_bytes e0 e1) (u16_from_be_bytes f0 f1)
          (u16_from_be_bytes g0 g1) (u16_from_be_bytes h0 h1)))
      s
decode_v6 _ = none

abbrev pub decode_domain : Bytes → Option (SocketAddr × Bytes)
decode_domain [] = none
decode_domain (len ∷ s) =
    if leb len (length s) then decode_port (domain (take len s)) (drop len s) else none

-- Section 4 of RFC 1928, of the command CONNECT: the address asked for, and what follows it.
abbrev pub decode_request : Bytes → Option (SocketAddr × Bytes)
decode_request (version ∷ command ∷ reserved ∷ kind ∷ s) =
    if version == 5 && (command == 1 && reserved == 0)
    then (if kind == 1
        then decode_v4 s
        else if kind == 3
        then decode_domain s
        else if kind == 4
        then decode_v6 s
        else none)
    else none
decode_request _ = none

segment_bytes : (n : ℕ) → n / 256 * 256 + n % 256 ≡ n
segment_bytes n = omega arith

-- A server reads the request as the address that was asked for.
pub decode_request-request :
    (a : SocketAddr) (r : Bytes) → decode_request (request a ++ r) ≡ some (a, r)
decode_request-request a r = go a.hostname a.port
  where
    go :
        (h : HostName) (port : ℕ)
        → decode_request (request (record { hostname = h; port = port }) ++ r)
          ≡ some (record { hostname = h; port = port }, r)
    go (host_v4 (v4_octets a b c d)) port = rw (segment_bytes port) refl
    go (host_v6 (v6_segments a b c d e f g h)) port = simp segment_bytes
    go (domain d) port = rw (append_assoc d (port / 256 ∷ port % 256 ∷ []) r) (
        let s : Bytes = port / 256 ∷ port % 256 ∷ r in
        rw
          (
            le→leb (length d) (length (d ++ s)) (omega (arith, length-append d s)),
            take-append_self d s,
            drop-append_self d s,
            segment_bytes port,
          )
          refl)
