-- ===== src/Redir/Reach.antt =====
-- Binding and looking up go together, and what a transparent listener has been given.
use local_proxy_rs.Base.{
  ℕ, Bool, true, false, List, [], ◌∷◌, ◌++◌, Option, none, some, Result, ok, err, >>=-eq-ok, ◌>>◌,
  guard, io, ◌≡◌, ◌≢◌, refl, ap, ◌∙◌,
}
use mathlib.Core.Path.{subst}
use local_proxy_rs.Addr.{StdSocketAddr}
use local_proxy_rs.Net.{IpAddr, v4, v6}
use local_proxy_rs.Redir.{
  Platform, linux, freebsd, openbsd, macos, RedirType, redirect, tproxy, packet_filter, ip_firewall,
}
use local_proxy_rs.Redir.Pf.{unreachable}
use local_proxy_rs.Redir.Pf.Natlook.{PfCalls, natlook}
use local_proxy_rs.Redir.Pf.Device.{LazyFilter, untouched, ready, poisoned, force}
use local_proxy_rs.Redir.Pf.Ends.{HasEnded-unreachable, tcp_natlook-HasEnded}
use local_proxy_rs.Redir.Listen.{
  PfStatic, natlook_on, Level, ip_level, ipv6_level, SockOpt, ip_transparent, ipv6_transparent,
  TcpSocket, System, Binder, bind_redir, TcpStream, look_up, destination_addr,
  create_tproxy_listener, set_ip_transparent, or_ipv6, get_original_destination_addr, open_socket,
  family_socket, bind_socket, listen,
}

or_ipv6-returns : (a b : Option (Option StdSocketAddr)) → or_ipv6 a b ≢ unreachable
or_ipv6-returns (some (some a)) b = λ e. cc
or_ipv6-returns (some none) b = λ e. cc
or_ipv6-returns none (some (some a)) = λ e. cc
or_ipv6-returns none (some none) = λ e. cc
or_ipv6-returns none none = λ e. cc

natlook_on-reaches :
    (p : Platform) (calls : ℕ → PfCalls) (cell : LazyFilter) (local peer : StdSocketAddr)
    → natlook_on p calls cell local peer ≢ unreachable
unfolding natlook
natlook_on-reaches p calls (ready pf) local peer =
    HasEnded-unreachable _ (tcp_natlook-HasEnded (calls pf.fd).ioc_natlook local peer)
natlook_on-reaches p calls untouched local peer = λ e. cc
natlook_on-reaches p calls poisoned local peer = λ e. cc

look_up-reaches :
    (p : Platform) (pf : PfStatic) (peer bound : Result StdSocketAddr)
    → look_up p pf peer bound ≢ unreachable
unfolding natlook
look_up-reaches p pf (ok peer) (ok bound) =
    natlook_on-reaches p pf.calls (force pf.libc pf.files pf.cell).1 bound peer
look_up-reaches p pf (ok peer) (err e) = λ x. cc
look_up-reaches p pf (err e) bound = λ x. cc

-- A program that holds a listener never meets `unreachable!` when it asks for the destination of
-- a connection with the same type.
pub bind_redir-destination_addr :
    (p : Platform) (k : System) (bind_tcp : Binder) (pf : PfStatic) (t : RedirType)
    (addr : StdSocketAddr) (l : TcpSocket) (s : TcpStream)
    → bind_redir p k bind_tcp t addr ≡ ok l
    → destination_addr p pf s t ≢ unreachable
unfolding bind_redir destination_addr get_original_destination_addr
bind_redir-destination_addr linux k bind_tcp pf redirect addr l s h =
    or_ipv6-returns (s.original ip_level) (s.original ipv6_level)
bind_redir-destination_addr linux k bind_tcp pf tproxy addr l s h = λ e. cc
bind_redir-destination_addr freebsd k bind_tcp pf packet_filter addr l s h =
    look_up-reaches freebsd pf s.peer_addr s.local_addr
bind_redir-destination_addr freebsd k bind_tcp pf ip_firewall addr l s h = λ e. cc
bind_redir-destination_addr openbsd k bind_tcp pf packet_filter addr l s h = λ e. cc
bind_redir-destination_addr macos k bind_tcp pf packet_filter addr l s h =
    look_up-reaches macos pf s.peer_addr s.local_addr
bind_redir-destination_addr macos k bind_tcp pf ip_firewall addr l s h = λ e. cc
bind_redir-destination_addr _ k bind_tcp pf _ addr l s h = cc

-- The options that make a listener for an address transparent, at their levels.
abbrev pub levels : IpAddr → List (Level × SockOpt)
levels (v4 _) = (ip_level, ip_transparent) ∷ []
levels (v6 _) = (ipv6_level, ipv6_transparent) ∷ (ip_level, ip_transparent) ∷ []

abbrev pub family_of : IpAddr → Level
family_of (v4 _) = ip_level
family_of (v6 _) = ipv6_level

-- A system call that succeeded leaves the socket it says.
called {ℓ} : {A : Type ℓ} (b : Bool) {x y : A} → (guard b io >> ok x) ≡ ok y → x ≡ y
called true h = cc
called false h = cc

family_socket-levels :
    (k : System) (a : IpAddr) (s : TcpSocket)
    → family_socket k a ≡ ok s
    → (s.family ≡ family_of a) × (s.options ++ ((ip_level, ip_transparent) ∷ []) ≡ levels a)
unfolding set_ip_transparent
family_socket-levels k (v4 x) s h =
    subst
      (λ z.
        (z.family ≡ ip_level)
        × (z.options ++ ((ip_level, ip_transparent) ∷ []) ≡ (ip_level, ip_transparent) ∷ []))
      (called _ h) (refl, refl)
family_socket-levels k (v6 x) s h =
    let (s0, opened, set) =
      >>=-eq-ok (open_socket k ipv6_level) (set_ip_transparent k ipv6_level) h in
    subst
      (λ z.
        (z.family ≡ ipv6_level)
        × (z.options ++ ((ip_level, ip_transparent) ∷ [])
            ≡ (ipv6_level, ipv6_transparent) ∷ (ip_level, ip_transparent) ∷ []))
      (ap {A = TcpSocket} {B = TcpSocket}
          (λ z. record z { options = z.options ++ ((ipv6_level, ipv6_transparent) ∷ []) })
          (called _ opened)
        ∙ called _ set)
      (refl, refl)

-- A transparent listener was made transparent by the option of its family at the family's level,
-- and for IPv6 by that of IPv4 at its level too, is bound to the address asked for, and listens with a backlog of 1024.
pub create_tproxy_listener-levels :
    (k : System) (addr : StdSocketAddr) (l : TcpSocket)
    → create_tproxy_listener k addr ≡ ok l
    → (l.family ≡ family_of addr.ip)
      × (l.options ≡ levels addr.ip)
      × (l.bound ≡ some addr)
      × (l.backlog ≡ some 1024)
unfolding create_tproxy_listener set_ip_transparent
create_tproxy_listener-levels k addr l h =
    let (s, h0, h1) = >>=-eq-ok (family_socket k addr.ip) _ h in
    let (t, h2, h3) = >>=-eq-ok (set_ip_transparent k ip_level s) _ h1 in
    let (b, h4, h5) = >>=-eq-ok (bind_socket k addr t) (listen k 1024) h3 in
    let made = family_socket-levels k addr.ip s h0 in
    let e : record s {
      options = s.options ++ ((ip_level, ip_transparent) ∷ []);
      bound = some addr;
      backlog = some 1024;
    }
        ≡ l =
      ap {A = TcpSocket} {B = TcpSocket} (λ z. record z { bound = some addr; backlog = some 1024 })
        (called _ h2)
      ∙ ap {A = TcpSocket} {B = TcpSocket} (λ z. record z { backlog = some 1024 }) (called _ h4)
      ∙ called _ h5 in
    subst
      (λ z.
        (z.family ≡ family_of addr.ip)
        × (z.options ≡ levels addr.ip)
        × (z.bound ≡ some addr)
        × (z.backlog ≡ some 1024))
      e (made.0, made.1, refl, refl)
