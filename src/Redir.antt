-- ===== src/Redir.antt =====
-- tproxy_tokio/src/lib.rs: the kinds of transparent redirection, their names and where they exist.
-- The `cfg` conditions of the source are tests on the platform.
mod Names
pub mod Reach
mod Tests
pub mod Pf
pub mod Listen
use local_proxy_rs.Base.{
  Bool, true, false, not, List, [], ◌∷◌, Option, none, some, Bytes, codes, bytes_eq, if◌then◌else◌,
}

-- `target_os`: linux and android; freebsd; openbsd; macos and ios; anything else.
pub data Platform : Type 0 where
  linux freebsd openbsd macos elsewhere : Platform

pub data RedirType : Type 0 where
  not_supported redirect tproxy packet_filter ip_firewall : RedirType

-- Whether the platform's `RedirType` has the variant.
abbrev pub has_variant : Platform → RedirType → Bool
has_variant _ not_supported = true
has_variant linux redirect = true
has_variant linux tproxy = true
has_variant freebsd packet_filter = true
has_variant openbsd packet_filter = true
has_variant macos packet_filter = true
has_variant freebsd ip_firewall = true
has_variant macos ip_firewall = true
has_variant _ _ = false

abbrev pub name : RedirType → Bytes
name not_supported = codes "not_supported"
name redirect = codes "redirect"
name tproxy = codes "tproxy"
name packet_filter = codes "pf"
name ip_firewall = codes "ipfw"

unfoldable pub tcp_default : Platform → RedirType
tcp_default linux = redirect
tcp_default freebsd = packet_filter
tcp_default openbsd = packet_filter
tcp_default macos = packet_filter
tcp_default elsewhere = not_supported

unfoldable pub udp_default : Platform → RedirType
udp_default linux = tproxy
udp_default freebsd = packet_filter
udp_default openbsd = packet_filter
udp_default macos = packet_filter
udp_default elsewhere = not_supported

unfoldable pub tcp_available_types : Platform → List Bytes
tcp_available_types linux = name redirect ∷ name tproxy ∷ []
tcp_available_types freebsd = name packet_filter ∷ name ip_firewall ∷ []
tcp_available_types openbsd = name packet_filter ∷ []
tcp_available_types macos = name packet_filter ∷ name ip_firewall ∷ []
tcp_available_types elsewhere = []

unfoldable pub udp_available_types : Platform → List Bytes
udp_available_types linux = name tproxy ∷ []
udp_available_types freebsd = name packet_filter ∷ name ip_firewall ∷ []
udp_available_types openbsd = name packet_filter ∷ []
udp_available_types macos = name packet_filter ∷ []
udp_available_types elsewhere = []

abbrev pub is_supported : RedirType → Bool
is_supported not_supported = false
is_supported _ = true

-- One arm of `match s { … }`, which stands only where the platform has the variant.
abbrev pub arm : Platform → Bytes → RedirType → Option RedirType → Option RedirType
arm p s t rest = if has_variant p t then (if bytes_eq s (name t) then some t else rest) else rest

-- `FromStr for RedirType`; `none` is `InvalidRedirType`.
unfoldable pub redir_from_str : Platform → Bytes → Option RedirType
redir_from_str p s =
    arm p s redirect (arm p s tproxy (arm p s packet_filter (arm p s ip_firewall none)))
