-- ===== src/Redir/Pf/Udp.antt =====
-- `udp_natlook` of tproxy_tokio/src/tcp/bsd/pf.rs: the lookup in the table of states.
use local_proxy_rs.Base.{
  ℕ, zero, suc, ◌/◌, ◌≤◌, le→leb, ==_iff, Bool, true, false, ◌&&◌, List, [], ◌∷◌, Option, none,
  some, Bytes, bytes_eq, take, leb, ◌==◌, if◌then◌else◌, Result, ok, err, io, All, Bool-cases, inl,
  inr, ◌≡◌, ◌≢◌, refl, sym, ◌∙◌,
}
use local_proxy_rs.Net.{IpAddr, v4, v6, octets, v6_octets}
use local_proxy_rs.Addr.{StdSocketAddr}
use local_proxy_rs.Redir.Pf.{
  Outcome, returns, unending, Family, af_inet, af_inet6, af_other, to_be, zero_bytes,
  write_unaligned, read_v4, read_segments, v6_of_segments, expect_at,
}

-- `pfsync_state`, as far as it is read: addresses as the bytes of `pfa`, ports in network order.
pub record PfState : Type 0 where
  pub proto : ℕ
  pub lan_addr : Bytes
  pub lan_port : ℕ
  pub ext_addr : Bytes
  pub ext_port : ℕ
  pub gwy_addr : Bytes
  pub gwy_port : ℕ
  pub af_gwy : Family

-- An answer of `ioc_getstates`: the bytes that the whole table takes, and the states.
abbrev pub States : Type 0
States = ℕ × List PfState

-- The loop that asks again with a larger buffer; `none` where the answers given do not end it.
unfoldable pub get_states : List (Result States) → ℕ → Option (Result States)
get_states [] size = none
get_states (err e ∷ answers) size = some (err e)
get_states (ok (len, states) ∷ answers) size =
    let again = get_states answers len in if leb len size then some (ok (len, states)) else again

abbrev pub pf_addr : IpAddr → Bytes
pf_addr (v4 a) = write_unaligned (zero_bytes 16) (octets a)
pf_addr (v6 a) = write_unaligned (zero_bytes 16) (v6_octets a)

-- A UDP state with both addresses and both ports; the ports are compared as they are.
abbrev pub is_state_of : StdSocketAddr → StdSocketAddr → PfState → Bool
is_state_of bind_addr peer_addr s =
    s.proto == 17
    && (bytes_eq (pf_addr peer_addr.ip) s.ext_addr
        && (s.ext_port == peer_addr.port
            && (bytes_eq (pf_addr bind_addr.ip) s.lan_addr && s.lan_port == bind_addr.port)))

abbrev pub actual_dst_addr : Family → PfState → Outcome
actual_dst_addr af_inet s = expect_at (read_v4 s.gwy_addr) s.gwy_port
actual_dst_addr af_inet6 s = expect_at (v6_of_segments (read_segments s.gwy_addr)) s.gwy_port
actual_dst_addr (af_other n) s = returns (err io)

unfoldable pub find_state : StdSocketAddr → StdSocketAddr → List PfState → Outcome
find_state bind_addr peer_addr [] = returns (err io)
find_state bind_addr peer_addr (s ∷ states) =
    let rest = find_state bind_addr peer_addr states in
    if is_state_of bind_addr peer_addr s then actual_dst_addr s.af_gwy s else rest

abbrev pub after_states : ℕ → StdSocketAddr → StdSocketAddr → Result States → Outcome
after_states state_size bind_addr peer_addr (ok (len, states)) =
    find_state bind_addr peer_addr (take (len / state_size) states)
after_states state_size bind_addr peer_addr (err e) = returns (err e)

abbrev pub after_loop : ℕ → StdSocketAddr → StdSocketAddr → Option (Result States) → Outcome
after_loop state_size bind_addr peer_addr (some states) =
    after_states state_size bind_addr peer_addr states
after_loop state_size bind_addr peer_addr none = unending

-- `udp_natlook`, on the answers of the device; `state_size` is `size_of::<pfsync_state>()`.
unfoldable pub udp_natlook : ℕ → List (Result States) → StdSocketAddr → StdSocketAddr → Outcome
udp_natlook state_size answers bind_addr peer_addr =
    after_loop state_size bind_addr peer_addr (get_states answers 8192)

-- A state as the filter keeps it for the peer: its port is in network order.
abbrev pub KeptFor : StdSocketAddr → PfState → Type 0
KeptFor peer s = s.ext_port ≡ to_be peer.port

and-eq-true : (b c : Bool) → (b && c) ≡ true → (b ≡ true) × (c ≡ true)
and-eq-true true c h = (refl, h)
and-eq-true false c h = cc

is_state_of-port :
    (local peer : StdSocketAddr) (s : PfState)
    → is_state_of local peer s ≡ true
    → s.ext_port ≡ peer.port
is_state_of-port local peer s h =
    let (proto, h1) = and-eq-true (s.proto == 17) _ h in
    let (from, h2) = and-eq-true (bytes_eq (pf_addr peer.ip) s.ext_addr) _ h1 in
    let (port, h3) = and-eq-true (s.ext_port == peer.port) _ h2 in
    (==_iff s.ext_port peer.port).0 port

find_state-misses :
    (local peer : StdSocketAddr) (states : List PfState)
    → to_be peer.port ≢ peer.port
    → All (KeptFor peer) states
    → find_state local peer states ≡ returns (err io)
unfolding find_state
find_state-misses local peer [] differ h = refl
find_state-misses local peer (s ∷ states) differ (h, k) =
    elim (Bool-cases (is_state_of local peer s)) [
      | inl t ↦ absurd (differ (sym h ∙ is_state_of-port local peer s t))
      | inr f ↦ rw f (find_state-misses local peer states differ k)
    ]

All-take :
    (P : PfState → Type 0) (n : ℕ) (states : List PfState) → All P states → All P (take n states)
All-take P zero states h = tt
All-take P (suc n) [] h = tt
All-take P (suc n) (s ∷ states) (h, k) = (h, All-take P n states k)

-- Of a peer whose port reads differently in network order, no state is found, even if the table
-- holds states that the filter keeps for that port and nothing else: the ports of the states, which
-- are in network order, are compared with the port as a number.
pub udp_natlook-misses :
    (state_size len : ℕ) (states : List PfState) (local peer : StdSocketAddr)
    → len ≤ 8192
    → to_be peer.port ≢ peer.port
    → All (KeptFor peer) states
    → udp_natlook state_size (ok (len, states) ∷ []) local peer ≡ returns (err io)
unfolding udp_natlook get_states
udp_natlook-misses state_size len states local peer fits differ h = rw (le→leb len 8192 fits) (
    find_state-misses local peer (take (len / state_size) states) differ
      (All-take (KeptFor peer) (len / state_size) states h))
