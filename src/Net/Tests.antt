-- ===== src/Net/Tests.antt =====
-- Addresses in both directions.
use local_proxy_rs.Base.{codes, ◌≡◌, refl, some, none}
use local_proxy_rs.Base.Decimal.{digits, scan_u16}
use local_proxy_rs.Net.{v4_octets, v6_segments, v4, v6, show_v6, parse_ip}

loopback : parse_ip (codes "::1") ≡ some (v6 (v6_segments 0 0 0 0 0 0 0 1))
unfolding parse_ip scan_u16
loopback = refl

doc :
    parse_ip (codes "2001:db8::ff00:42:8329")
    ≡ some (v6 (v6_segments 0x2001 0xdb8 0 0 0 0xff00 0x42 0x8329))
unfolding parse_ip scan_u16
doc = refl

mapped : parse_ip (codes "::ffff:1.2.3.4") ≡ some (v6 (v6_segments 0 0 0 0 0 0xffff 0x102 0x304))
unfolding parse_ip scan_u16
mapped = refl

two_gaps : parse_ip (codes "1::2::3") ≡ none
unfolding parse_ip scan_u16
two_gaps = refl

leading_zero : parse_ip (codes "01.2.3.4") ≡ none
unfolding parse_ip scan_u16
leading_zero = refl

plain : parse_ip (codes "192.168.0.1") ≡ some (v4 (v4_octets 192 168 0 1))
unfolding parse_ip scan_u16
plain = refl

show_doc :
    show_v6 (v6_segments 0x2001 0xdb8 0 0 0 0xff00 0x42 0x8329) ≡ codes "2001:db8::ff00:42:8329"
unfolding show_v6 digits
show_doc = refl

show_any : show_v6 (v6_segments 0 0 0 0 0 0 0 0) ≡ codes "::"
unfolding show_v6 digits
show_any = refl

show_one_zero : show_v6 (v6_segments 1 0 2 3 4 5 6 7) ≡ codes "1:0:2:3:4:5:6:7"
unfolding show_v6 digits
show_one_zero = refl

show_mapped : show_v6 (v6_segments 0 0 0 0 0 0xffff 0x102 0x304) ≡ codes "::ffff:1.2.3.4"
unfolding show_v6 digits
show_mapped = refl
