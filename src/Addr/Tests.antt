-- ===== src/Addr/Tests.antt =====
-- Addresses at concrete input.
use local_proxy_rs.Base.{◌≡◌, refl, codes, ok, err, none, invalid_text, arith}
use local_proxy_rs.Base.Decimal.{digits, scan_u16, parse_u16}
use local_proxy_rs.Net.{
  parse_ip, parse_v4, parse_v6, split_gap, parse_groups, split, to_ipv4_mapped, v4_octets,
  v6_segments, Ipv6Addr, segments,
}
use local_proxy_rs.Net.Hex.{AreGroups}
use local_proxy_rs.Addr.{
  host_v4, host_v6, SocketAddr, host_from_str, to_string_url_style, addr_to_string, addr_from_str,
  parse_host_header,
}
use local_proxy_rs.Addr.RoundTrip.{addr_from_str-addr_to_string}
use local_proxy_rs.Addr.Header.{parse_host_header-v6}

abbrev proxy_host : Ipv6Addr
proxy_host = v6_segments 0x2001 0xdb8 0 0 0 0 0 1

abbrev proxy_addr : SocketAddr
proxy_addr = record { hostname = host_v6 proxy_host; port = 8080 }

proxy_host-AreGroups : AreGroups (segments proxy_host)
proxy_host-AreGroups = ground arith

not_mapped : to_ipv4_mapped proxy_host ≡ none
unfolding to_ipv4_mapped
not_mapped = refl

addr_from_str-addr_to_string_example : addr_from_str (addr_to_string proxy_addr) ≡ ok proxy_addr
addr_from_str-addr_to_string_example =
    addr_from_str-addr_to_string proxy_addr (proxy_host-AreGroups, not_mapped) (omega arith)

parse_host_header-v6_example :
    parse_host_header (to_string_url_style (host_v6 (v6_segments 0x2001 0xdb8 0 0 0 0 0 1)))
    ≡ err invalid_text
parse_host_header-v6_example = parse_host_header-v6 (v6_segments 0x2001 0xdb8 0 0 0 0 0 1)

mapped_read : host_from_str (codes "[::ffff:1.2.3.4]") ≡ ok (host_v4 (v4_octets 1 2 3 4))
unfolding host_from_str parse_ip parse_v4 parse_v6 split_gap parse_groups split to_ipv4_mapped
    digits scan_u16 parse_u16
mapped_read = refl
