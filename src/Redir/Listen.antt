-- ===== src/Redir/Listen.antt =====
-- tproxy_tokio/src/tcp: binding a listener for redirected connections, and the address such a
-- connection was meant for, on each platform. The system calls are parameters.
use local_proxy_rs.Base.{
  ℕ, Bool, List, [], ◌∷◌, ◌++◌, Option, none, some, Result, ok, err, rejected, io, ◌>>=◌, ◌>>◌,
  guard,
}
use local_proxy_rs.Addr.{StdSocketAddr}
use local_proxy_rs.Net.{IpAddr, v4, v6}
use local_proxy_rs.Redir.Pf.{Outcome, returns, no_socket_addr, unreachable, cannot_open}
use local_proxy_rs.Redir.Pf.Device.{Files, Libc, LazyFilter, ready, force}
use local_proxy_rs.Redir.Pf.Natlook.{PfCalls, tcp, natlook}
use local_proxy_rs.Redir.{
  Platform, linux, freebsd, openbsd, macos, elsewhere, RedirType, redirect, tproxy, packet_filter,
  ip_firewall,
}

-- `IPPROTO_IP` and `IPPROTO_IPV6`.
pub data Level : Type 0 where
  ip_level ipv6_level : Level

-- `IP_TRANSPARENT` and `IPV6_TRANSPARENT`.
pub data SockOpt : Type 0 where
  ip_transparent ipv6_transparent : SockOpt

-- What has been done to a TCP socket so far: the options that were set, each with its level, the
-- address it is bound to, the backlog it listens with.
pub record TcpSocket : Type 0 where
  pub family : Level
  pub options : List (Level × SockOpt)
  pub bound : Option StdSocketAddr
  pub backlog : Option ℕ

-- Whether the system carries out a call.
pub record System : Type 0 where
  pub opens : Level → Bool
  -- `setsockopt` of an option to 1
  pub sets_option : Level → SockOpt → TcpSocket → Bool
  pub binds : TcpSocket → StdSocketAddr → Bool
  pub listens : TcpSocket → ℕ → Bool

abbrev pub open_socket : System → Level → Result TcpSocket
open_socket k f = do
  guard (k.opens f) io
  ok (record { family = f; options = []; bound = none; backlog = none })

-- `match level { … }`
abbrev pub option_of : Level → SockOpt
option_of ip_level = ip_transparent
option_of ipv6_level = ipv6_transparent

unfoldable pub set_ip_transparent : System → Level → TcpSocket → Result TcpSocket
set_ip_transparent k level s = do
  guard (k.sets_option level (option_of level) s) io
  ok (record s { options = s.options ++ ((level, option_of level) ∷ []) })

abbrev pub bind_socket : System → StdSocketAddr → TcpSocket → Result TcpSocket
bind_socket k addr s = do guard (k.binds s addr) io; ok (record s { bound = some addr })

abbrev pub listen : System → ℕ → TcpSocket → Result TcpSocket
listen k n s = do guard (k.listens s n) io; ok (record s { backlog = some n })

-- The `match` on the address, which for IPv6 sets one option more.
abbrev pub family_socket : System → IpAddr → Result TcpSocket
unfolding set_ip_transparent
family_socket k (v4 _) = open_socket k ip_level
family_socket k (v6 _) = do s ← open_socket k ipv6_level; set_ip_transparent k ipv6_level s

unfoldable pub create_tproxy_listener : System → StdSocketAddr → Result TcpSocket
create_tproxy_listener k addr = do
  s ← family_socket k addr.ip
  t ← set_ip_transparent k ip_level s
  b ← bind_socket k addr t
  listen k 1024 b

-- `tokio::net::TcpListener::bind`, which is not this repository's code.
abbrev pub Binder : Type 0
Binder = StdSocketAddr → Result TcpSocket

-- The module that tcp/mod.rs takes for the platform.
pub data TcpModule : Type 0 where
  linux_module bsd_module other_module : TcpModule

abbrev pub tcp_module : Platform → TcpModule
tcp_module linux = linux_module
tcp_module freebsd = bsd_module
tcp_module openbsd = bsd_module
tcp_module macos = bsd_module
tcp_module elsewhere = other_module

-- `bind_redir` of each of the three modules.
abbrev pub linux_bind_redir : System → Binder → RedirType → StdSocketAddr → Result TcpSocket
linux_bind_redir k bind_tcp redirect addr = bind_tcp addr
linux_bind_redir k bind_tcp tproxy addr = create_tproxy_listener k addr
linux_bind_redir k bind_tcp _ addr = err rejected

abbrev pub bsd_bind_redir : Platform → Binder → RedirType → StdSocketAddr → Result TcpSocket
bsd_bind_redir freebsd bind_tcp packet_filter addr = bind_tcp addr
bsd_bind_redir openbsd bind_tcp packet_filter addr = bind_tcp addr
bsd_bind_redir macos bind_tcp packet_filter addr = bind_tcp addr
bsd_bind_redir freebsd bind_tcp ip_firewall addr = bind_tcp addr
bsd_bind_redir macos bind_tcp ip_firewall addr = bind_tcp addr
bsd_bind_redir _ bind_tcp _ addr = err rejected

abbrev pub other_bind_redir : RedirType → StdSocketAddr → Result TcpSocket
other_bind_redir t addr = err rejected

abbrev pub bind_redir_by :
    TcpModule → Platform → System → Binder → RedirType → StdSocketAddr → Result TcpSocket
bind_redir_by linux_module p k bind_tcp t addr = linux_bind_redir k bind_tcp t addr
bind_redir_by bsd_module p k bind_tcp t addr = bsd_bind_redir p bind_tcp t addr
bind_redir_by other_module p k bind_tcp t addr = other_bind_redir t addr

unfoldable pub bind_redir :
    Platform → System → Binder → RedirType → StdSocketAddr → Result TcpSocket
bind_redir p = bind_redir_by (tcp_module p) p

-- An accepted connection, as the system answers for it. `original` is the answer of `getsockopt` at
-- a level, and what the bytes it stored are as an address: `as_socket` has none for a family that
-- is neither IPv4 nor IPv6.
pub record TcpStream : Type 0 where
  pub peer_addr : Result StdSocketAddr
  pub local_addr : Result StdSocketAddr
  pub original : Level → Option (Option StdSocketAddr)

-- `as_socket().expect("SocketAddr")`
abbrev pub expect : Option StdSocketAddr → Outcome
expect (some a) = returns (ok a)
expect none = no_socket_addr

abbrev pub or_ipv6 : Option (Option StdSocketAddr) → Option (Option StdSocketAddr) → Outcome
or_ipv6 (some a) _ = expect a
or_ipv6 none (some a) = expect a
or_ipv6 none none = returns (err io)

unfoldable pub get_original_destination_addr : TcpStream → Outcome
get_original_destination_addr s = or_ipv6 (s.original ip_level) (s.original ipv6_level)

-- The static `PF` before a use of it: how the system opens the device, the files that are open, the
-- cell, and the calls on a device that is open under a descriptor.
pub record PfStatic : Type 0 where
  pub libc : Libc
  pub files : Files
  pub cell : LazyFilter
  pub calls : ℕ → PfCalls

-- `natlook` of what the use gives, or its panic.
abbrev pub natlook_on :
    Platform → (ℕ → PfCalls) → LazyFilter → StdSocketAddr → StdSocketAddr → Outcome
natlook_on p calls (ready pf) bind_addr peer_addr = natlook p (calls pf.fd) bind_addr peer_addr tcp
natlook_on p calls _ bind_addr peer_addr = cannot_open

-- `pf::PF.natlook` between the peer and the bound address.
abbrev pub look_up : Platform → PfStatic → Result StdSocketAddr → Result StdSocketAddr → Outcome
look_up p pf (ok peer_addr) (ok bind_addr) =
    natlook_on p pf.calls (force pf.libc pf.files pf.cell).1 bind_addr peer_addr
look_up p pf (ok peer_addr) (err e) = returns (err e)
look_up p pf (err e) _ = returns (err e)

-- `destination_addr` of each of the three modules.
abbrev pub linux_destination_addr : TcpStream → RedirType → Outcome
unfolding get_original_destination_addr
linux_destination_addr s redirect = get_original_destination_addr s
linux_destination_addr s tproxy = returns s.local_addr
linux_destination_addr s _ = unreachable

abbrev pub bsd_destination_addr : Platform → PfStatic → TcpStream → RedirType → Outcome
bsd_destination_addr freebsd pf s packet_filter = look_up freebsd pf s.peer_addr s.local_addr
bsd_destination_addr macos pf s packet_filter = look_up macos pf s.peer_addr s.local_addr
bsd_destination_addr openbsd pf s packet_filter = returns s.local_addr
bsd_destination_addr freebsd pf s ip_firewall = returns s.local_addr
bsd_destination_addr macos pf s ip_firewall = returns s.local_addr
bsd_destination_addr _ pf s _ = unreachable

abbrev pub other_destination_addr : TcpStream → RedirType → Outcome
other_destination_addr s t = unreachable

abbrev pub destination_addr_by : TcpModule → Platform → PfStatic → TcpStream → RedirType → Outcome
destination_addr_by linux_module p pf s t = linux_destination_addr s t
destination_addr_by bsd_module p pf s t = bsd_destination_addr p pf s t
destination_addr_by other_module p pf s t = other_destination_addr s t

unfoldable pub destination_addr : Platform → PfStatic → TcpStream → RedirType → Outcome
destination_addr p = destination_addr_by (tcp_module p) p
