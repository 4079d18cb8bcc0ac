-- ===== src/Inbound/Listeners.antt =====
-- The `start` functions of local_proxy/src/inbound: the listeners of each kind, and when `start`
-- returns. The listening sockets of http and dns are tokio's.
pub mod Bound
use local_proxy_rs.Base.{
  List, [], ◌∷◌, Option, none, some, Bytes, Error, rejected, foreign, Result, ok, err, ok_or,
}
use local_proxy_rs.Addr.{StdSocketAddr}
use local_proxy_rs.Config.{TproxyConfig}
use local_proxy_rs.Redir.{Platform, RedirType, tcp_default, redir_from_str}
use local_proxy_rs.Redir.Listen.{TcpSocket, System, Binder, bind_redir}

-- `start` either returns or sleeps for ever, while the loops of its listeners, which it has spawned
-- one by one, go on.
pub data Started (L : Type 0) : Type 0 where
  returned : Result (Unit {0}) → List L → Started L
  sleeping : List L → Started L

abbrev pub after_bind :
    {L : Type 0} → Result L → List L × Result (Unit {0}) → List L × Result (Unit {0})
after_bind (ok l) (ls, r) = (l ∷ ls, r)
after_bind (err e) _ = ([], err e)

-- `for i in listen { let listener = bind(i).await?; tokio::spawn(…); }`
unfoldable pub bind_each :
    {L : Type 0} → (StdSocketAddr → Result L) → List StdSocketAddr → List L × Result (Unit {0})
bind_each f [] = ([], ok tt)
bind_each f (a ∷ rest) = after_bind (f a) (bind_each f rest)

abbrev pub sleep_or_return : {L : Type 0} → List L × Result (Unit {0}) → Started L
sleep_or_return (ls, ok u) = sleeping ls
sleep_or_return (ls, err e) = returned (err e) ls

-- `http::start` and `dns::start`.
unfoldable pub start :
    {L : Type 0} → (StdSocketAddr → Result L) → Option (List StdSocketAddr) → Started L
start bind none = returned (err rejected) []
start bind (some []) = returned (ok tt) []
start bind (some (a ∷ rest)) = sleep_or_return (bind_each bind (a ∷ rest))

-- `config.redir_type.as_deref().map(|t| t.parse()).unwrap_or(Ok(RedirType::tcp_default()))?`
unfoldable pub redir_type_of : Platform → Option Bytes → Result RedirType
redir_type_of p none = ok (tcp_default p)
redir_type_of p (some t) = ok_or (redir_from_str p t) foreign

abbrev pub start_redir :
    Platform → System → Binder → List StdSocketAddr → Result RedirType → Started TcpSocket
start_redir p k bind_tcp listen (ok t) =
    sleep_or_return (bind_each (bind_redir p k bind_tcp t) listen)
start_redir p k bind_tcp listen (err e) = returned (err e) []

abbrev pub start_listed :
    Platform → System → Binder → Option Bytes → List StdSocketAddr → Started TcpSocket
start_listed p k bind_tcp redir_type [] = returned (ok tt) []
start_listed p k bind_tcp redir_type (a ∷ rest) =
    start_redir p k bind_tcp (a ∷ rest) (redir_type_of p redir_type)

-- `tproxy::start`.
unfoldable pub start_tproxy : Platform → System → Binder → Option TproxyConfig → Started TcpSocket
start_tproxy p k bind_tcp none = returned (err rejected) []
start_tproxy p k bind_tcp (some config) = start_listed p k bind_tcp config.redir_type config.listen

-- What `listener.accept()` and `client.set_nodelay(true)` give in each round of a loop; a failure of
-- either one goes on to the next.
pub record Accept (S : Type 0) : Type 0 where
  pub client : Result S
  pub nodelay : Result (Unit {0})

abbrev pub accepted : {S : Type 0} → Result S → Result (Unit {0}) → List S → List S
accepted (ok s) (ok u) rest = s ∷ rest
accepted (ok s) (err e) rest = rest
accepted (err e) _ rest = rest

-- The clients for which the loop has spawned a task.
unfoldable pub accept_loop : {S : Type 0} → List (Accept S) → List S
accept_loop [] = []
accept_loop (a ∷ rest) = accepted a.client a.nodelay (accept_loop rest)
