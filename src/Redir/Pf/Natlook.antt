-- ===== src/Redir/Pf/Natlook.antt =====
-- `natlook` of tproxy_tokio/src/tcp/bsd/pf.rs: the lookup for a protocol.
use local_proxy_rs.Base.{ℕ, List, Result, err, rejected}
use local_proxy_rs.Addr.{StdSocketAddr}
use local_proxy_rs.Redir.{Platform, macos}
use local_proxy_rs.Redir.Pf.{Outcome, returns, Ioctl, tcp_natlook}
use local_proxy_rs.Redir.Pf.Udp.{States, udp_natlook}

-- The calls on the open device: `ioc_natlook`, the answers of one `ioc_getstates` after the other,
-- and the size of a state in them.
pub record PfCalls : Type 0 where
  pub ioc_natlook : Ioctl
  pub ioc_getstates : List (Result States)
  pub state_size : ℕ

-- `Protocol`, as far as the lookup tells them apart.
pub data Protocol : Type 0 where
  tcp udp other_protocol : Protocol

-- `natlook`, whose arm for UDP stands only on macOS and iOS.
unfoldable pub natlook : Platform → PfCalls → StdSocketAddr → StdSocketAddr → Protocol → Outcome
natlook p c bind_addr peer_addr tcp = tcp_natlook c.ioc_natlook bind_addr peer_addr
natlook macos c bind_addr peer_addr udp =
    udp_natlook c.state_size c.ioc_getstates bind_addr peer_addr
natlook _ c bind_addr peer_addr _ = returns (err rejected)
