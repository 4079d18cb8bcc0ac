-- ===== src/Outbound/Exchange/Eyeballs.antt =====
-- Happy eyeballs: a connection if there can be one.
use local_proxy_rs.Base.{
  ℕ, Bool, true, false, not, ◌&&◌, List, Option, some, Result, ok, err, rejected, ok_or, bind-eq-ok,
  ok_or-eq-ok, Bool-cases, inl, inr, ◌⊎◌, ◌≡◌, refl, ap, ◌∙◌,
}
use local_proxy_rs.Addr.{HostName, is_ipaddr, SocketAddr}
use local_proxy_rs.Outbound.Conn.{Conn}
use local_proxy_rs.Outbound.Stack.{Outbound, Network, connect}
use local_proxy_rs.Doh.Resolve.{QueryType, aaaa, a}
use local_proxy_rs.Outbound.Exchange.{select, connect_resolved, happy_eyeballs}

-- The addresses that a connection may be made to: those found for the name, and the name itself.
abbrev pub IsCandidate : (QueryType → Result (Option HostName)) → SocketAddr → SocketAddr → Type 0
IsCandidate answers addr to =
    (to ≡ addr) ⊎ ((t : QueryType) × (answers t ≡ ok (some to.hostname)) × (to.port ≡ addr.port))

select_sound :
    (first : QueryType) (r6 r4 rest : Result Conn) {c : Conn}
    → select first r6 r4 rest ≡ ok c
    → (r6 ≡ ok c) ⊎ ((r4 ≡ ok c) ⊎ (rest ≡ ok c))
unfolding select
select_sound aaaa (ok d) r4 rest h = inl h
select_sound aaaa (err e) (ok d) rest h = inr (inl h)
select_sound aaaa (err e) (err f) rest h = inr (inr h)
select_sound a r6 (ok d) rest h = inr (inl h)
select_sound a (ok d) (err f) rest h = inl h
select_sound a (err e) (err f) rest h = inr (inr h)

select_complete :
    (first : QueryType) (r6 r4 rest : Result Conn) {c : Conn}
    → (r6 ≡ ok c) ⊎ ((r4 ≡ ok c) ⊎ (rest ≡ ok c))
    → (d : Conn) × (select first r6 r4 rest ≡ ok d)
unfolding select
select_complete aaaa (ok d) r4 rest h = (d, refl)
select_complete aaaa (err e) (ok d) rest h = (d, refl)
select_complete aaaa (err e) (err f) rest {c} (inr (inr h)) = (c, h)
select_complete aaaa (err e) (err f) rest (inr (inl h)) = cc
select_complete aaaa (err e) (err f) rest (inl h) = cc
select_complete a r6 (ok d) rest h = (d, refl)
select_complete a (ok d) (err f) rest h = (d, refl)
select_complete a (err e) (err f) rest {c} (inr (inr h)) = (c, h)
select_complete a (err e) (err f) rest (inr (inl h)) = cc
select_complete a (err e) (err f) rest (inl h) = cc

resolved-IsCandidate :
    (k : Network) (stack : List Outbound) (answers : QueryType → Result (Option HostName))
    (addr : SocketAddr) (t : QueryType) {c : Conn}
    → connect_resolved k stack addr.port (answers t) ≡ ok c
    → (to : SocketAddr) × IsCandidate answers addr to × (connect k stack to ≡ ok c)
resolved-IsCandidate k stack answers addr t h =
    let (found, e, h1) = bind-eq-ok (answers t) _ h in
    let (ip, e1, h2) = bind-eq-ok (ok_or found rejected) _ h1 in
    (
      record { hostname = ip; port = addr.port },
      inr (t, e ∙ ap ok (ok_or-eq-ok found e1), refl),
      h2,
    )

-- A connection that comes of it is one through the stack, to the address itself or to an address
-- that was found for its name, with its port.
pub happy_eyeballs-IsCandidate :
    (k : Network) (doh : Bool) (answers : QueryType → Result (Option HostName)) (first : QueryType)
    (stack : List Outbound) (addr : SocketAddr) (c : Conn)
    → happy_eyeballs k doh answers first stack addr ≡ ok c
    → (to : SocketAddr) × IsCandidate answers addr to × (connect k stack to ≡ ok c)
unfolding happy_eyeballs
happy_eyeballs-IsCandidate k doh answers first stack addr c h =
    elim (Bool-cases (doh && not (is_ipaddr addr.hostname))) [
      | inr f ↦ (addr, inl refl, rw f at h)
      | inl t ↦ elim (select_sound first _ _ _ (rw t at h)) [
        | inl r6 ↦ resolved-IsCandidate k stack answers addr aaaa r6
        | inr (inl r4) ↦ resolved-IsCandidate k stack answers addr a r4
        | inr (inr rest) ↦ (addr, inl refl, rest)
      ]
    ]

resolved-ok :
    (k : Network) (stack : List Outbound) (port : ℕ) (answer : Result (Option HostName))
    (ip : HostName) {c : Conn}
    → answer ≡ ok (some ip)
    → connect k stack (record { hostname = ip; port = port }) ≡ ok c
    → connect_resolved k stack port answer ≡ ok c
resolved-ok k stack port answer ip e h = rw e h

-- Where names are looked up: if an address found for the name can be reached, or the name by
-- itself, there is a connection, whichever branch is done first.
pub happy_eyeballs-connects :
    (k : Network) (answers : QueryType → Result (Option HostName)) (first : QueryType)
    (stack : List Outbound) (addr to : SocketAddr) (c : Conn)
    → is_ipaddr addr.hostname ≡ false
    → IsCandidate answers addr to
    → connect k stack to ≡ ok c
    → (d : Conn) × (happy_eyeballs k true answers first stack addr ≡ ok d)
unfolding happy_eyeballs
happy_eyeballs-connects k answers first stack addr to c name (inl same) h =
    rw name (select_complete first _ _ _ (inr (inr (rw same at h))))
happy_eyeballs-connects k answers first stack addr to c name (inr (aaaa, e, p)) h = rw name (
    select_complete first _ _ _
      (inl (resolved-ok k stack addr.port (answers aaaa) to.hostname e (rw p at h))))
happy_eyeballs-connects k answers first stack addr to c name (inr (a, e, p)) h = rw name (
    select_complete first _ _ _
      (inr (inl (resolved-ok k stack addr.port (answers a) to.hostname e (rw p at h)))))
