-- ===== src/Redir/Pf/Ends.antt =====
-- The lookups of tproxy_tokio/src/tcp/bsd/pf.rs end, and not at the `unreachable!` of their caller.
use local_proxy_rs.Base.{
  ℕ, ◌≤◌, ◌≢◌, ◌≡◌, List, [], ◌∷◌, Option, none, some, Result, ok, err, leb, le→leb, take, ◌/◌,
  Bool-cases, inl, inr, sym, refl,
}
use mathlib.Core.Path.{subst}
use local_proxy_rs.Net.{IpAddr}
use local_proxy_rs.Addr.{StdSocketAddr}
use local_proxy_rs.Redir.{Platform, macos}
use local_proxy_rs.Redir.Pf.{
  Outcome, returns, no_socket_addr, unreachable, wrong_family, unending, cannot_open, Family,
  af_inet, af_inet6, af_other, PfiocNatlook, zeroed, write_bind, write_peer, outward, expect_at,
  read_answer, after_natlook, after_peer, Ioctl, tcp_natlook,
}
use local_proxy_rs.Redir.Pf.Udp.{
  PfState, States, get_states, is_state_of, actual_dst_addr, find_state, after_states, udp_natlook,
}
use local_proxy_rs.Redir.Pf.Natlook.{PfCalls, Protocol, tcp, udp, natlook}

-- A lookup that comes to an end of its own.
abbrev pub HasEnded : Outcome → Type 0
HasEnded (returns r) = Unit
HasEnded no_socket_addr = Unit
HasEnded wrong_family = Unit
HasEnded cannot_open = Unit
HasEnded unreachable = ⊥
HasEnded unending = ⊥

pub HasEnded-unreachable : (o : Outcome) → HasEnded o → o ≢ unreachable
HasEnded-unreachable o h e = subst HasEnded e h

HasEnded-unending : (o : Outcome) → HasEnded o → o ≢ unending
HasEnded-unending o h e = subst HasEnded e h

expect_at-HasEnded : (o : Option IpAddr) (port : ℕ) → HasEnded (expect_at o port)
expect_at-HasEnded none port = tt
expect_at-HasEnded (some ip) port = tt

read_answer-HasEnded : (f : Family) (pnl : PfiocNatlook) → HasEnded (read_answer f pnl)
read_answer-HasEnded af_inet pnl = expect_at-HasEnded _ pnl.rdport
read_answer-HasEnded af_inet6 pnl = expect_at-HasEnded _ pnl.rdport
read_answer-HasEnded (af_other n) pnl = tt

after_natlook-HasEnded : (r : Result PfiocNatlook) → HasEnded (after_natlook r)
after_natlook-HasEnded (ok pnl) = read_answer-HasEnded pnl.af pnl
after_natlook-HasEnded (err e) = tt

after_peer-HasEnded : (ioc : Ioctl) (r : Result PfiocNatlook) → HasEnded (after_peer ioc r)
after_peer-HasEnded ioc (ok pnl) = after_natlook-HasEnded (ioc (outward pnl))
after_peer-HasEnded ioc (err e) = tt

pub tcp_natlook-HasEnded :
    (ioc : Ioctl) (local peer : StdSocketAddr) → HasEnded (tcp_natlook ioc local peer)
unfolding tcp_natlook
tcp_natlook-HasEnded ioc local peer =
    let pnl = write_bind local.ip local.port zeroed in
    after_peer-HasEnded ioc (write_peer peer.ip peer.port pnl.af pnl)

actual_dst_addr-HasEnded : (f : Family) (s : PfState) → HasEnded (actual_dst_addr f s)
actual_dst_addr-HasEnded af_inet s = expect_at-HasEnded _ s.gwy_port
actual_dst_addr-HasEnded af_inet6 s = expect_at-HasEnded _ s.gwy_port
actual_dst_addr-HasEnded (af_other n) s = tt

find_state-HasEnded :
    (local peer : StdSocketAddr) (states : List PfState) → HasEnded (find_state local peer states)
unfolding find_state
find_state-HasEnded local peer [] = tt
find_state-HasEnded local peer (s ∷ states) = elim (Bool-cases (is_state_of local peer s)) [
  | inl t ↦ rw t (actual_dst_addr-HasEnded s.af_gwy s)
  | inr f ↦ rw f (find_state-HasEnded local peer states)
]

after_states-HasEnded :
    (size : ℕ) (local peer : StdSocketAddr) (r : Result States)
    → HasEnded (after_states size local peer r)
after_states-HasEnded size local peer (ok (len, states)) =
    find_state-HasEnded local peer (take (len / size) states)
after_states-HasEnded size local peer (err e) = tt

-- The second answer fits into the buffer that the first one asked for.
abbrev pub Fits : Result States → Result States → Type 0
Fits (ok (first, _)) (ok (second, _)) = second ≤ first
Fits _ _ = Unit

get_states-Fits :
    (first second : Result States) (more : List (Result States)) (size : ℕ)
    → Fits first second
    → (r : Result States) × (get_states (first ∷ second ∷ more) size ≡ some r)
unfolding get_states
get_states-Fits (err e) second more size h = (err e, refl)
get_states-Fits (ok (len, states)) (err e) more size h = elim (Bool-cases (leb len size)) [
  | inl t ↦ (ok (len, states), rw t refl)
  | inr f ↦ (err e, rw f refl)
]
get_states-Fits (ok (len, states)) (ok (len', states')) more size h =
    elim (Bool-cases (leb len size)) [
      | inl t ↦ (ok (len, states), rw t refl)
      | inr f ↦ (ok (len', states'), rw f (rw (le→leb len' len h) refl))
    ]

udp_natlook-HasEnded :
    (size : ℕ) (first second : Result States) (more : List (Result States))
    (local peer : StdSocketAddr)
    → Fits first second
    → HasEnded (udp_natlook size (first ∷ second ∷ more) local peer)
unfolding udp_natlook
udp_natlook-HasEnded size first second more local peer h =
    let (r, e) = get_states-Fits first second more 8192 h in
    rw e (after_states-HasEnded size local peer r)

natlook-HasEnded :
    (p : Platform) (size : ℕ) (ioc : Ioctl) (local peer : StdSocketAddr) (proto : Protocol)
    (first second : Result States) (more : List (Result States))
    → Fits first second
    → HasEnded (
        natlook p
          (record { ioc_natlook = ioc; ioc_getstates = first ∷ second ∷ more; state_size = size })
          local
          peer
          proto)
unfolding natlook
natlook-HasEnded p size ioc local peer tcp first second more h = tcp_natlook-HasEnded ioc local peer
natlook-HasEnded macos size ioc local peer udp first second more h =
    udp_natlook-HasEnded size first second more local peer h
natlook-HasEnded _ size ioc local peer _ first second more h = tt

-- With a device whose second answer about the table of states, if both answer, takes no more than
-- the first one said, the lookup comes to an end for every protocol and platform: at most two calls
-- are made for the table.
pub natlook_ends :
    (p : Platform) (pf : PfCalls) (local peer : StdSocketAddr) (proto : Protocol)
    (first second : Result States) (more : List (Result States))
    → pf.ioc_getstates ≡ first ∷ second ∷ more
    → Fits first second
    → natlook p pf local peer proto ≢ unending
natlook_ends p pf local peer proto first second more e h = HasEnded-unending _ (
    subst
      (λ l. HasEnded (
        natlook p
          (record { ioc_natlook = pf.ioc_natlook; ioc_getstates = l; state_size = pf.state_size })
          local peer proto))
      (sym e)
      (natlook-HasEnded p pf.state_size pf.ioc_natlook local peer proto first second more h))
