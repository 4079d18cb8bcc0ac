-- ===== src/Addr.antt =====
-- local_proxy/src/utils/addr.rs: host names and socket addresses, in both directions of their text.
pub mod RoundTrip
pub mod Header
mod Tests
use local_proxy_rs.Base.{
  ℕ, ◌+◌, ◌<◌, Bool, true, false, ◌&&◌, ◌||◌, List, [], ◌∷◌, ◌++◌, Option, none, some, Bytes, ◌==◌,
  if◌then◌else◌, Error, rejected, invalid_text, Result, ok, err, ◌>>=◌, ok_or, map_ok,
}
use local_proxy_rs.Base.Decimal.{show_u16, parse_u16}
use local_proxy_rs.Net.{
  Ipv4Addr, Ipv6Addr, IpAddr, v4, v6, to_ipv4_mapped, show_v4, show_v6, parse_ip,
}

-- `split_once` and `rsplit_once` of the standard library: around the first and the last `sep`.
unfoldable pub split_once : Bytes → ℕ → Option (Bytes × Bytes)
split_once [] sep = none
split_once (c ∷ s) sep =
    let rest = split_once s sep in
    if c == sep then some ([], s) else elim rest [ none ↦ none | some (a, b) ↦ some (c ∷ a, b) ]

unfoldable pub rsplit_once : Bytes → ℕ → Option (Bytes × Bytes)
rsplit_once [] sep = none
rsplit_once (c ∷ s) sep = elim (rsplit_once s sep) [
  | some (a, b) ↦ some (c ∷ a, b)
  | none ↦ if c == sep then some ([], s) else none
]

pub data HostName : Type 0 where
  host_v4 : Ipv4Addr → HostName
  host_v6 : Ipv6Addr → HostName
  domain : Bytes → HostName

-- `is_ipaddr`.
abbrev pub is_ipaddr : HostName → Bool
is_ipaddr (host_v4 a) = true
is_ipaddr (host_v6 a) = true
is_ipaddr (domain d) = false

-- `From<Ipv4Addr>`.
abbrev pub from_v4 : Ipv4Addr → HostName
from_v4 a = host_v4 a

-- `From<Ipv6Addr>`: a mapped address becomes the address that it maps.
abbrev pub unmapped : Ipv6Addr → Option Ipv4Addr → HostName
unmapped a (some b) = host_v4 b
unmapped a none = host_v6 a

abbrev pub from_v6 : Ipv6Addr → HostName
from_v6 a = unmapped a (to_ipv4_mapped a)

-- `From<IpAddr>`.
abbrev pub from_ip : IpAddr → HostName
from_ip (v4 a) = from_v4 a
from_ip (v6 a) = from_v6 a

-- `Display for HostName`.
unfoldable pub host_to_string : HostName → Bytes
host_to_string (host_v4 a) = show_v4 a
host_to_string (host_v6 a) = show_v6 a
host_to_string (domain d) = d

unfoldable pub to_string_url_style : HostName → Bytes
unfolding host_to_string
to_string_url_style (host_v6 a) = b'[' ∷ (show_v6 a ++ b']' ∷ [])
to_string_url_style h = host_to_string h

-- `s.starts_with('[') && s.ends_with(']')`, and the text between the two.
abbrev pub ends_with : Bytes → ℕ → Bool
ends_with [] c = false
ends_with (b ∷ []) c = b == c
ends_with (b ∷ d ∷ s) c = ends_with (d ∷ s) c

abbrev pub but_last : Bytes → Bytes
but_last [] = []
but_last (b ∷ []) = []
but_last (b ∷ d ∷ s) = b ∷ but_last (d ∷ s)

-- One byte cannot be both brackets, so that `1..len - 1` is a range.
abbrev pub strip_brackets : Bytes → Bytes
strip_brackets [] = []
strip_brackets (b ∷ s) = if b == b'[' && ends_with (b ∷ s) b']' then but_last s else b ∷ s

-- `FromStr for HostName`, which accepts any text.
abbrev pub host_of : Bytes → Option IpAddr → HostName
host_of t (some ip) = from_ip ip
host_of t none = domain t

unfoldable pub host_from_str : Bytes → Result HostName
host_from_str s = let t = strip_brackets s in ok (host_of t (parse_ip t))

pub record SocketAddr : Type 0 where
  pub hostname : HostName
  pub port : ℕ

-- `Display for SocketAddr`.
abbrev pub show_host_port : HostName → ℕ → Bytes
show_host_port (host_v6 v) port = b'[' ∷ (show_v6 v ++ (b']' ∷ b':' ∷ show_u16 port))
show_host_port h port = host_to_string h ++ (b':' ∷ show_u16 port)

unfoldable pub addr_to_string : SocketAddr → Bytes
unfolding host_to_string
addr_to_string a = show_host_port a.hostname a.port

-- `port.parse()?`
abbrev pub parse_port : Bytes → Result ℕ
parse_port s = ok_or (parse_u16 s) invalid_text

-- `FromStr for SocketAddr`.
unfoldable pub addr_from_str : Bytes → Result SocketAddr
addr_from_str s = do
  (host, port) ← ok_or (rsplit_once s b':') rejected
  hostname ← host_from_str host
  p ← parse_port port
  ok (record { hostname = hostname; port = p })

-- `SocketAddr::parse_host_header`: the host, and the port where there is a colon.
unfoldable pub parse_host_header : Bytes → Result (HostName × Option ℕ)
parse_host_header host = elim (rsplit_once host b':') [
  | some (name, port) ↦ (do
    p ← parse_port port
    hostname ← host_from_str name
    ok (hostname, some p))
  | none ↦ (do hostname ← host_from_str host; ok (hostname, none))
]

-- `TryFrom<&HostName>` for the three address types.
abbrev pub try_into_ip : HostName → Result IpAddr
try_into_ip (host_v4 a) = ok (v4 a)
try_into_ip (host_v6 a) = ok (v6 a)
try_into_ip (domain d) = err rejected

abbrev pub try_into_v4 : HostName → Result Ipv4Addr
try_into_v4 (host_v4 a) = ok a
try_into_v4 _ = err rejected

abbrev pub try_into_v6 : HostName → Result Ipv6Addr
try_into_v6 (host_v6 a) = ok a
try_into_v6 _ = err rejected

-- `std::net::SocketAddr`, with no flow information or scope, which the source sets to 0.
pub record StdSocketAddr : Type 0 where
  pub ip : IpAddr
  pub port : ℕ

-- `From<std::net::SocketAddr>` and `TryFrom<&SocketAddr>` back.
abbrev pub from_std : StdSocketAddr → SocketAddr
from_std a = record { hostname = from_ip a.ip; port = a.port }

abbrev pub try_into_std : SocketAddr → Result StdSocketAddr
try_into_std a = map_ok (λ ip. record { ip = ip; port = a.port }) (try_into_ip a.hostname)
