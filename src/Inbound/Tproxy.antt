-- ===== src/Inbound/Tproxy.antt =====
-- local_proxy/src/inbound/tproxy.rs, `run`: a redirected connection up to the copying of its bytes.
mod Route
mod Tests
use local_proxy_rs.Base.{Error, Result, ok, err}
use local_proxy_rs.Addr.{SocketAddr, from_std}
use local_proxy_rs.Main.{ProxyState}
use local_proxy_rs.Redir.{Platform, RedirType}
use local_proxy_rs.Redir.Pf.{
  Outcome, returns, no_socket_addr, unreachable, wrong_family, unending, cannot_open,
}
use local_proxy_rs.Redir.Listen.{PfStatic, TcpStream, destination_addr}
use local_proxy_rs.Outbound.Conn.{Conn}
use local_proxy_rs.Outbound.Stack.{Network, connect, rev}

-- The task of a client: it opens a connection to the server or fails, or panics on the way.
pub data Ran : Type 0 where
  opened : Result Conn → Ran
  panicked : Outcome → Ran

-- `client.destination_addr(redir_type)?.into()`, and what follows.
abbrev pub after_destination : (SocketAddr → Result Conn) → Outcome → Ran
after_destination to (returns (ok a)) = opened (to (from_std a))
after_destination to (returns (err e)) = opened (err e)
after_destination to no_socket_addr = panicked no_socket_addr
after_destination to unreachable = panicked unreachable
after_destination to wrong_family = panicked wrong_family
after_destination to unending = panicked unending
after_destination to cannot_open = panicked cannot_open

unfoldable pub run : Platform → PfStatic → Network → ProxyState → TcpStream → RedirType → Ran
run p pf k state client redir_type =
    after_destination (connect k (rev state.proxy_stack)) (destination_addr p pf client redir_type)
