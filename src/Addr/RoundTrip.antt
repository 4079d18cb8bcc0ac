-- ===== src/Addr/RoundTrip.antt =====
-- The text of a socket address is read back as the address.
use local_proxy_rs.Base.{
  ℕ, ◌<◌, true, [], ◌∷◌, ◌++◌, append_assoc, Option, none, some, Bytes, Lacks, ◌≡◌, refl, sym, ap,
  ◌∙◌, arith, ok,
}
use local_proxy_rs.Base.Decimal.{show_u16, show_u16-IsDigits, parse_u16-show_u16, IsDigits}
use local_proxy_rs.Net.{
  Ipv4Addr, IpAddr, v4_octets, segments, to_ipv4_mapped, show_v4, show_v6, parse_ip,
}
use local_proxy_rs.Net.Hex.{AreGroups}
use local_proxy_rs.Net.V6.{parse_ip-show_v6}
use local_proxy_rs.Net.V4.{parse_ip-show_v4, show_v4-cons}
use local_proxy_rs.Addr.{
  HostName, host_v4, host_v6, domain, to_string_url_style, rsplit_once, strip_brackets, ends_with,
  but_last, host_of, unmapped, host_from_str, SocketAddr, addr_to_string, addr_from_str, parse_port,
  parse_host_header,
}

pub rsplit_once-Lacks : (p : Bytes) (sep : ℕ) → Lacks sep p → rsplit_once p sep ≡ none
unfolding rsplit_once
rsplit_once-Lacks [] sep h = refl
rsplit_once-Lacks (c ∷ p) sep h = ground (arith, rsplit_once-Lacks p sep h.1)

-- The last separator is the one that the rest lacks.
pub rsplit_once-append :
    (h p : Bytes) (sep : ℕ) → Lacks sep p → rsplit_once (h ++ sep ∷ p) sep ≡ some (h, p)
unfolding rsplit_once
rsplit_once-append [] p sep k = ground (arith, rsplit_once-Lacks p sep k)
rsplit_once-append (c ∷ h) p sep k = rw (rsplit_once-append h p sep k, rsplit_once) refl

IsDigits-Lacks_colon : (s : Bytes) → IsDigits s → Lacks b':' s
IsDigits-Lacks_colon [] d = tt
IsDigits-Lacks_colon (c ∷ s) d = (λ e. omega arith, IsDigits-Lacks_colon s d.1)

parse_port-show_u16 : (n : ℕ) → n < 65536 → parse_port (show_u16 n) ≡ ok n
parse_port-show_u16 n h = rw (parse_u16-show_u16 n h) refl

ends_with-append : (s : Bytes) (c : ℕ) → ends_with (s ++ c ∷ []) c ≡ true
ends_with-append [] c = ground arith
ends_with-append (b ∷ []) c = ground arith
ends_with-append (b ∷ d ∷ s) c = ends_with-append (d ∷ s) c

but_last-append : (s : Bytes) (c : ℕ) → but_last (s ++ c ∷ []) ≡ s
but_last-append [] c = refl
but_last-append (b ∷ []) c = refl
but_last-append (b ∷ d ∷ s) c = ap (λ t. b ∷ t) (but_last-append (d ∷ s) c)

-- Brackets around a text come off.
pub strip_brackets-bracketed : (s : Bytes) → strip_brackets (b'[' ∷ (s ++ b']' ∷ [])) ≡ s
strip_brackets-bracketed [] = refl
strip_brackets-bracketed (b ∷ s) =
    rw (ends_with-append (b ∷ s) b']', but_last-append (b ∷ s) b']') refl

-- A host name that its own text determines: an address of octets, an IPv6 address of 16-bit
-- segments that is not mapped, a name that is no address and is not in brackets.
abbrev pub IsCanonical : HostName → Type 0
IsCanonical (host_v4 (v4_octets a b c d)) = (a < 256) × (b < 256) × (c < 256) × (d < 256)
IsCanonical (host_v6 a) = AreGroups (segments a) × (to_ipv4_mapped a ≡ none)
IsCanonical (domain d) = (parse_ip d ≡ none) × (strip_brackets d ≡ d)

strip_brackets-show_v4 : (a : Ipv4Addr) → strip_brackets (show_v4 a) ≡ show_v4 a
strip_brackets-show_v4 a = let (c, s, e, lo, hi) = show_v4-cons a in rw e (ground arith)

host_from_str-host_of :
    (s : Bytes) {t : Bytes} {o : Option IpAddr}
    → strip_brackets s ≡ t
    → parse_ip t ≡ o
    → host_from_str s ≡ ok (host_of t o)
unfolding host_from_str
host_from_str-host_of s {t} e f =
    ap (λ u. ok (host_of u (parse_ip u))) e ∙ ap (λ u. ok (host_of t u)) f

pub host_from_str-url_style :
    (h : HostName) → IsCanonical h → host_from_str (to_string_url_style h) ≡ ok h
unfolding to_string_url_style
host_from_str-url_style (host_v4 (v4_octets a b c d)) (ha, hb, hc, hd) =
    host_from_str-host_of (show_v4 (v4_octets a b c d)) (strip_brackets-show_v4 (v4_octets a b c d))
      (parse_ip-show_v4 a b c d ha hb hc hd)
host_from_str-url_style (host_v6 a) (groups, m) =
    host_from_str-host_of (b'[' ∷ (show_v6 a ++ b']' ∷ [])) (strip_brackets-bracketed (show_v6 a))
      (parse_ip-show_v6 a groups m)
    ∙ ap (λ o. ok (unmapped a o)) m
host_from_str-url_style (domain d) (p, s) = host_from_str-host_of d s p

-- The text of a socket address is that of its host in the style of a URL, a colon and the port.
pub addr_to_string-url_style :
    (h : HostName) (port : ℕ)
    → addr_to_string (record { hostname = h; port = port })
      ≡ to_string_url_style h ++ b':' ∷ show_u16 port
unfolding addr_to_string to_string_url_style
addr_to_string-url_style (host_v4 a) port = refl
addr_to_string-url_style (host_v6 a) port =
    ap (λ t. b'[' ∷ t) (sym (append_assoc (show_v6 a) (b']' ∷ []) (b':' ∷ show_u16 port)))
addr_to_string-url_style (domain d) port = refl

-- A socket address with a canonical host and a port of 16 bits is read back from its text.
pub addr_from_str-addr_to_string :
    (a : SocketAddr)
    → IsCanonical a.hostname
    → a.port < 65536
    → addr_from_str (addr_to_string a) ≡ ok a
unfolding addr_from_str
addr_from_str-addr_to_string a h p =
    let url = to_string_url_style a.hostname in
    let colon =
      rsplit_once-append url (show_u16 a.port) b':'
        (IsDigits-Lacks_colon _ (show_u16-IsDigits a.port)) in
    rw (addr_to_string-url_style a.hostname a.port, colon, addr_from_str)
      (rw (host_from_str-url_style a.hostname h, parse_u16-show_u16 a.port p) refl)

-- A Host header that names a canonical host and a port is read as both.
pub parse_host_header-port :
    (h : HostName) (port : ℕ)
    → IsCanonical h
    → port < 65536
    → parse_host_header (to_string_url_style h ++ b':' ∷ show_u16 port) ≡ ok (h, some port)
unfolding parse_host_header
parse_host_header-port h port c p =
    let colon =
      rsplit_once-append (to_string_url_style h) (show_u16 port) b':'
        (IsDigits-Lacks_colon _ (show_u16-IsDigits port)) in
    rw (colon, parse_host_header) (rw (host_from_str-url_style h c, parse_u16-show_u16 port p) refl)
