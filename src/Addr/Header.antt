-- ===== src/Addr/Header.antt =====
-- Host headers with no port, and what becomes of IPv6 addresses.
use local_proxy_rs.Base.{
  ℕ, ◌+◌, ◌-◌, ◌*◌, ltb, take, All-append, true, false, List, [], ◌∷◌, ◌++◌, Option, none, some,
  Bytes, Lacks, contains, ◌≡◌, ◌≢◌, refl, arith, ◌==◌, ok, err, invalid_text, Bool-cases, inl, inr,
}
use mathlib.Core.Path.{subst}
use local_proxy_rs.Base.Decimal.{parse_u16, scan_u16}
use local_proxy_rs.Net.{
  Ipv4Addr, Ipv6Addr, IpAddr, v4, v6, to_ipv4_mapped, show_v6, show_hex, show_segments, show_gap,
  show_v6_of, longest_run, v6_segments, parse_ip,
}
use local_proxy_rs.Addr.{
  HostName, host_v6, from_v6, unmapped, to_string_url_style, rsplit_once, host_of, host_from_str,
  parse_host_header, strip_brackets, from_std, try_into_std,
}
use local_proxy_rs.Addr.RoundTrip.{rsplit_once-Lacks, IsCanonical, host_from_str-url_style}

-- A Host header that names a canonical host whose text has no colon, and no port, is read as the host.
pub parse_host_header-plain :
    (h : HostName)
    → IsCanonical h
    → Lacks b':' (to_string_url_style h)
    → parse_host_header (to_string_url_style h) ≡ ok (h, none)
unfolding parse_host_header
parse_host_header-plain h c l =
    rw (rsplit_once-Lacks (to_string_url_style h) b':' l, parse_host_header)
      (rw (host_from_str-url_style h c) refl)

scan_u16-bracket : (s : Bytes) (n : ℕ) → scan_u16 (s ++ b']' ∷ []) n ≡ none
unfolding scan_u16
scan_u16-bracket [] n = ground arith
scan_u16-bracket (c ∷ s) n = ground (arith, scan_u16-bracket s (n * 10 + (c - b'0')))

-- A number does not end in a bracket.
parse_u16-bracket : (s : Bytes) → parse_u16 (s ++ b']' ∷ []) ≡ none
unfolding parse_u16
parse_u16-bracket [] = scan_u16-bracket [] 0
parse_u16-bracket (c ∷ []) = ground (arith, scan_u16-bracket [] 0, scan_u16-bracket (c ∷ []) 0)
parse_u16-bracket (c ∷ d ∷ s) =
    ground (arith, scan_u16-bracket (d ∷ s) 0, scan_u16-bracket (c ∷ d ∷ s) 0)

pub Lacks-contains : (s : Bytes) (b : ℕ) → contains s b ≡ false → Lacks b s
Lacks-contains [] b h = tt
Lacks-contains (c ∷ s) b h = ((λ e. ground arith), Lacks-contains s b (ground arith))

contains-append : (s t : Bytes) (b : ℕ) → contains t b ≡ true → contains (s ++ t) b ≡ true
contains-append [] t b h = h
contains-append (c ∷ s) t b h = ground (arith, contains-append s t b h)

contains-show_hex :
    (n : ℕ) (s : Bytes) (b : ℕ) → contains s b ≡ true → contains (show_hex n s) b ≡ true
contains-show_hex n s b h = ground arith

show_gap_colon :
    (n m : ℕ) (ns : List ℕ) (run : ℕ × ℕ) → contains (show_gap (n ∷ m ∷ ns) run) b':' ≡ true
show_gap_colon n m ns (at, len) = elim (Bool-cases (ltb 1 len)) [
  | inl t ↦ rw t (contains-append (show_segments (take at (n ∷ m ∷ ns))) _ b':' refl)
  | inr f ↦ rw f (contains-show_hex n (b':' ∷ show_segments (m ∷ ns)) b':' refl)
]

-- The text of an IPv6 address has a colon.
show_v6_colon : (a : Ipv6Addr) → contains (show_v6 a) b':' ≡ true
unfolding show_v6
show_v6_colon (v6_segments a b c d e f g h) = go (to_ipv4_mapped (v6_segments a b c d e f g h))
  where
    go : (o : Option Ipv4Addr) → contains (show_v6_of (v6_segments a b c d e f g h) o) b':' ≡ true
    go (some x) = refl
    go none =
        show_gap_colon a b (c ∷ d ∷ e ∷ f ∷ g ∷ h ∷ [])
          (longest_run (a ∷ b ∷ c ∷ d ∷ e ∷ f ∷ g ∷ h ∷ []))

-- The last colon of a text stays the last when a bracket follows.
rsplit_once-bracket :
    (s : Bytes)
    → contains s b':' ≡ true
    → (a : Bytes) × (b : Bytes) × (rsplit_once (s ++ b']' ∷ []) b':' ≡ some (a, b ++ b']' ∷ []))
unfolding rsplit_once
rsplit_once-bracket [] h = cc
rsplit_once-bracket (c ∷ s) h = elim (Bool-cases (contains s b':')) [
  | inl more ↦ (let (a, b, e) = rsplit_once-bracket s more in (c ∷ a, b, rw (e, rsplit_once) refl))
  | inr last ↦
      (let none_left : rsplit_once (s ++ b']' ∷ []) b':' ≡ none =
          rsplit_once-Lacks (s ++ b']' ∷ []) b':' (
            All-append (λ x. x ≢ b':') s (b']' ∷ []) (Lacks-contains s b':' last)
              ((λ e. omega arith), tt)) in
        let colon : (c == b':') ≡ true = ground arith in
        ([], s, rw (none_left, rsplit_once) (rw colon refl)))
]

-- A Host header that is an IPv6 address in brackets with no port is refused: what stands behind
-- the last colon of the address, with the bracket, is read as a port.
pub parse_host_header-v6 :
    (a : Ipv6Addr) → parse_host_header (to_string_url_style (host_v6 a)) ≡ err invalid_text
unfolding parse_host_header to_string_url_style
parse_host_header-v6 a =
    let (x, y, e) = rsplit_once-bracket (b'[' ∷ show_v6 a) (show_v6_colon a) in
    rw (e, parse_host_header) (rw (parse_u16-bracket y) refl)

-- The address behind a mapped one.
abbrev pub unmap_of : Ipv6Addr → Option Ipv4Addr → IpAddr
unmap_of a (some b) = v4 b
unmap_of a none = v6 a

abbrev pub unmap : IpAddr → IpAddr
unmap (v4 a) = v4 a
unmap (v6 a) = unmap_of a (to_ipv4_mapped a)

-- No host name is an IPv6 address that maps an IPv4 address.
abbrev pub IsUnmapped : HostName → Type 0
IsUnmapped (host_v6 a) = to_ipv4_mapped a ≡ none
IsUnmapped _ = Unit

from_v6-IsUnmapped : (a : Ipv6Addr) → IsUnmapped (from_v6 a)
from_v6-IsUnmapped a = go (to_ipv4_mapped a) refl
  where
    go : (o : Option Ipv4Addr) → to_ipv4_mapped a ≡ o → IsUnmapped (unmapped a o)
    go none e = e
    go (some b) e = tt

-- Whatever text a host name is read from, it is no mapped address.
pub host_from_str-IsUnmapped : (s : Bytes) {h : HostName} → host_from_str s ≡ ok h → IsUnmapped h
unfolding host_from_str
host_from_str-IsUnmapped s {h} e =
    subst IsUnmapped (ground arith) (go (parse_ip (strip_brackets s)))
  where
    go : (o : Option IpAddr) → IsUnmapped (host_of (strip_brackets s) o)
    go none = tt
    go (some (v4 a)) = tt
    go (some (v6 a)) = from_v6-IsUnmapped a

-- An address that the system hands over is handed back as it was, unless it maps an IPv4 address;
-- such a one is handed back as the IPv4 address.
pub try_into_std-from_std :
    (ip : IpAddr) (port : ℕ)
    → try_into_std (from_std (record { ip = ip; port = port }))
      ≡ ok (record { ip = unmap ip; port = port })
try_into_std-from_std (v4 a) port = refl
try_into_std-from_std (v6 a) port = go (to_ipv4_mapped a)
  where
    go :
        (o : Option Ipv4Addr)
        → try_into_std (record { hostname = unmapped a o; port = port })
          ≡ ok (record { ip = unmap_of a o; port = port })
    go none = refl
    go (some b) = refl
