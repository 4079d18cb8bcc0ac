-- ===== src/Redir/Pf.antt =====
-- tproxy_tokio/src/tcp/bsd/pf.rs: the lookup of a connection's first destination in the packet
-- filter, for TCP. The device /dev/pf is a parameter.
pub mod Answer
pub mod Udp
pub mod Natlook
pub mod Ends
pub mod Device
use local_proxy_rs.Base.{
  ℕ, zero, suc, ◌+◌, ◌*◌, ◌/◌, ◌%◌, Bool, true, false, List, [], ◌∷◌, ◌++◌, Option, none, some,
  Bytes, length, drop, Result, ok, err, bind, Error, rejected, io,
}
use local_proxy_rs.Net.{
  Ipv4Addr, v4_octets, Ipv6Addr, v6_segments, IpAddr, v4, v6, octets, v6_octets,
}
use local_proxy_rs.Addr.{StdSocketAddr}

-- The value of a call that may panic, at `expect("SocketAddr")`, at the `unreachable!` of
-- `destination_addr`, or at that of the lookup here; or that goes on asking for the table of states
-- after the answers that are given; or that panics as the device cannot be opened.
pub data Outcome : Type 0 where
  returns : Result StdSocketAddr → Outcome
  no_socket_addr : Outcome
  unreachable : Outcome
  wrong_family : Outcome
  unending : Outcome
  cannot_open : Outcome

-- `sa_family_t`; 0 of `mem::zeroed` is none of the two that are used.
pub data Family : Type 0 where
  af_inet af_inet6 : Family
  af_other : ℕ → Family

-- `u16::to_be` of a machine that keeps the low byte first, as those with this filter do.
abbrev pub to_be : ℕ → ℕ
to_be port = port % 256 * 256 + port / 256

-- `pfioc_natlook`: the addresses are the 16 bytes of `pfa`, the ports in network order.
pub record PfiocNatlook : Type 0 where
  pub saddr : Bytes
  pub daddr : Bytes
  pub rdaddr : Bytes
  pub sport : ℕ
  pub dport : ℕ
  pub rdport : ℕ
  pub af : Family
  pub proto : ℕ
  pub direction : ℕ

abbrev pub zero_bytes : ℕ → Bytes
zero_bytes zero = []
zero_bytes (suc n) = 0 ∷ zero_bytes n

-- `mem::zeroed()`
abbrev pub zeroed : PfiocNatlook
zeroed = record {
  saddr = zero_bytes 16;
  daddr = zero_bytes 16;
  rdaddr = zero_bytes 16;
  sport = 0;
  dport = 0;
  rdport = 0;
  af = af_other 0;
  proto = 0;
  direction = 0;
}

-- `ptr::write_unaligned` at the start of a field.
abbrev pub write_unaligned : Bytes → Bytes → Bytes
write_unaligned field b = b ++ drop (length b) field

-- `match *bind_addr { … }`
abbrev pub write_bind : IpAddr → ℕ → PfiocNatlook → PfiocNatlook
write_bind (v4 a) port pnl = record pnl {
  af = af_inet;
  daddr = write_unaligned pnl.daddr (octets a);
  dport = to_be port;
}
write_bind (v6 a) port pnl = record pnl {
  af = af_inet6;
  daddr = write_unaligned pnl.daddr (v6_octets a);
  dport = to_be port;
}

abbrev pub write_source : Bytes → ℕ → PfiocNatlook → PfiocNatlook
write_source b port pnl = record pnl { saddr = write_unaligned pnl.saddr b; sport = to_be port }

-- `match *peer_addr { … }`, whose family must be the one that is set.
abbrev pub write_peer : IpAddr → ℕ → Family → PfiocNatlook → Result PfiocNatlook
write_peer (v4 a) port af_inet pnl = ok (write_source (octets a) port pnl)
write_peer (v6 a) port af_inet6 pnl = ok (write_source (v6_octets a) port pnl)
write_peer _ port _ pnl = err rejected

-- The protocol TCP and the direction `PF_OUT`.
abbrev pub outward : PfiocNatlook → PfiocNatlook
outward pnl = record pnl { proto = 6; direction = 2 }

-- The address of a `sockaddr_in` or `sockaddr_in6`, read from the start of a field.
abbrev pub read_v4 : Bytes → Option IpAddr
read_v4 (a ∷ b ∷ c ∷ d ∷ _) = some (v4 (v4_octets a b c d))
read_v4 _ = none

abbrev pub read_segments : Bytes → List ℕ
read_segments (a ∷ b ∷ r) = (a * 256 + b) ∷ read_segments r
read_segments _ = []

abbrev pub v6_of_segments : List ℕ → Option IpAddr
v6_of_segments (a ∷ b ∷ c ∷ d ∷ e ∷ f ∷ g ∷ h ∷ _) = some (v6 (v6_segments a b c d e f g h))
v6_of_segments _ = none

-- `dst_addr.as_socket().expect("SocketAddr")`
abbrev pub expect_at : Option IpAddr → ℕ → Outcome
expect_at (some ip) port = returns (ok (record { ip = ip; port = to_be port }))
expect_at none port = no_socket_addr

-- The closure of `SockAddr::try_init`, by the family in the answer.
abbrev pub read_answer : Family → PfiocNatlook → Outcome
read_answer af_inet pnl = expect_at (read_v4 pnl.rdaddr) pnl.rdport
read_answer af_inet6 pnl = expect_at (v6_of_segments (read_segments pnl.rdaddr)) pnl.rdport
read_answer (af_other n) pnl = wrong_family

abbrev pub after_natlook : Result PfiocNatlook → Outcome
after_natlook (ok pnl) = read_answer pnl.af pnl
after_natlook (err e) = returns (err e)

-- `ioc_natlook` on the open device.
abbrev pub Ioctl : Type 0
Ioctl = PfiocNatlook → Result PfiocNatlook

abbrev pub after_peer : Ioctl → Result PfiocNatlook → Outcome
after_peer ioc (ok pnl) = after_natlook (ioc (outward pnl))
after_peer ioc (err e) = returns (err e)

unfoldable pub tcp_natlook : Ioctl → StdSocketAddr → StdSocketAddr → Outcome
tcp_natlook ioc bind_addr peer_addr =
    let pnl = write_bind bind_addr.ip bind_addr.port zeroed in
    after_peer ioc (write_peer peer_addr.ip peer_addr.port pnl.af pnl)
