-- ===== src/Inbound/Dns/Sound.antt =====
-- What a client gets is an answer to a query of its own.
use local_proxy_rs.Base.{
  ℕ, ◌+◌, ◌≤◌, List, [], ◌∷◌, Option, none, some, Bytes, length, Result, ok, err, All, ◌≡◌, ◌⊎◌,
  inl, inr, refl, sym, ap, ◌∙◌, arith,
}
use mathlib.Core.Path.{subst}
use local_proxy_rs.Addr.{StdSocketAddr}
use local_proxy_rs.Config.{Config}
use local_proxy_rs.Doh.{Cache, Client, set_id, ask, after_ask}
use local_proxy_rs.Inbound.Dns.{
  Task, started, asking, sending, finished, after_lookup, after_reply, advance, Server, capacity,
  Serves,
}

abbrev pub Datagrams : Type 0
Datagrams = List (Bytes × StdSocketAddr)

abbrev pub Has : Bytes × StdSocketAddr → Datagrams → Type 0
Has x [] = ⊥
Has x (y ∷ ys) = (x ≡ y) ⊎ Has x ys

-- The sum of a weight of addresses over datagrams, and over the senders of tasks. With the weight
-- that is one at an address and else zero, it counts the address.
abbrev pub total : (StdSocketAddr → ℕ) → Datagrams → ℕ
total w [] = 0
total w ((d, a) ∷ ds) = w a + total w ds

abbrev pub sender : Task → StdSocketAddr
sender (started q from) = from
sender (asking a b q from) = from
sender (sending r from) = from

abbrev pub total_tasks : (StdSocketAddr → ℕ) → List Task → ℕ
total_tasks w [] = 0
total_tasks w (t ∷ ts) = w (sender t) + total_tasks w ts

-- An entry that is found after an insertion is the one inserted or was there before.
abbrev pub IsHonest : {C : Type 0} → Cache C → Type 0
IsHonest {C} cache =
    (c : C) (q b query body : Bytes)
    → cache.get (cache.insert q b c) query ≡ some body
    → ((query ≡ q) × (body ≡ b)) ⊎ (cache.get c query ≡ some body)

module _ {C : Type 0} (U : Type 0) (cache : Cache C) (config : Config)
    (Served : Bytes → Bytes → Type 0) where
  -- A datagram for `to` that answers a query which `to` has sent: under the id of that query, and
  -- behind it with the bytes of an answer that the server gives to the query.
  abbrev pub IsAnswer : Datagrams → Bytes × StdSocketAddr → Type 0
  IsAnswer received (r, to) =
      (a b x y : ℕ) × (q rest : Bytes) × Has (a ∷ b ∷ q, to) received
      × (r ≡ a ∷ b ∷ rest)
      × Served (0xab ∷ 0xcd ∷ q) (x ∷ y ∷ rest)

  abbrev pub Holds : Datagrams → Task → Type 0
  Holds received (started q from) = Has (q, from) received
  Holds received (asking a b q from) = Has (a ∷ b ∷ q, from) received
  Holds received (sending r from) = IsAnswer received (r, from)

  abbrev pub IsCached : C → Type 0
  IsCached c = (query body : Bytes) → cache.get c query ≡ some body → Served query body

  pub record IsSound (s : Server C) : Type 0 where
    pub cached : IsCached s.cache
    pub tasks : All (Holds s.received) s.tasks
    pub channel : All (IsAnswer s.received) s.channel
    pub sent : All (IsAnswer s.received) s.sent
    -- the channel never holds more than it has room for
    pub room : length s.channel ≤ capacity
    -- of the datagrams of each client at most one is answered, waits or is worked on
    pub fair :
        (w : StdSocketAddr → ℕ)
        → total w s.sent + total w s.channel + total_tasks w s.tasks ≤ total w s.received

  set_id_parts :
      (a b : ℕ) (body : Bytes) {r : Bytes}
      → set_id a b body ≡ ok r
      → (x y : ℕ) × (rest : Bytes) × (body ≡ x ∷ y ∷ rest) × (r ≡ a ∷ b ∷ rest)
  set_id_parts a b [] h = cc
  set_id_parts a b (x ∷ []) h = cc
  set_id_parts a b (x ∷ y ∷ rest) h = (x, y, rest, refl, cc)

  -- What `finished` leaves is an answer, and one task at most.
  finished-Holds :
      (received : Datagrams) (a b : ℕ) (q body : Bytes) (from : StdSocketAddr) (r : Result Bytes)
      → Has (a ∷ b ∷ q, from) received
      → Served (0xab ∷ 0xcd ∷ q) body
      → set_id a b body ≡ r
      → All (Holds received) (finished r from)
  finished-Holds received a b q body from (err e) has fetched h = tt
  finished-Holds received a b q body from (ok r) has fetched h =
      let (x, y, rest, e, same) = set_id_parts a b body h in
      ((a, b, x, y, q, rest, has, same, subst (Served (0xab ∷ 0xcd ∷ q)) e fetched), tt)

  finished-le :
      (w : StdSocketAddr → ℕ) (from : StdSocketAddr) (r : Result Bytes)
      → total_tasks w (finished r from) ≤ w from
  finished-le w from (ok r) = omega arith
  finished-le w from (err e) = omega arith

  -- What a task leaves behind it.
  abbrev pub LeavesSound : Datagrams → Task → C × List Task → Type 0
  LeavesSound received task (c, ts) =
      IsCached c
      × All (Holds received) ts
      × ((w : StdSocketAddr → ℕ) → total_tasks w ts ≤ w (sender task))

  looked_up-LeavesSound :
      (received : Datagrams) (c : C) (a b : ℕ) (q : Bytes) (from : StdSocketAddr)
      (found : Option Bytes)
      → IsCached c
      → Has (a ∷ b ∷ q, from) received
      → cache.get c (0xab ∷ 0xcd ∷ q) ≡ found
      → LeavesSound received (started (a ∷ b ∷ q) from) (c, after_lookup a b q from found)
  looked_up-LeavesSound received c a b q from none cached has h =
      (cached, (has, tt), λ w. omega arith)
  looked_up-LeavesSound received c a b q from (some body) cached has h = (
    cached,
    finished-Holds received a b q body from (set_id a b body) has (cached (0xab ∷ 0xcd ∷ q) body h)
        refl,
    λ w. finished-le w from (set_id a b body),
  )

  replied-LeavesSound :
      IsHonest cache
      → (received : Datagrams) (k : Client U) (c : C) (a b : ℕ) (q : Bytes) (from : StdSocketAddr)
        (answer : Result Bytes)
      → Serves U cache config Served k
      → IsCached c
      → Has (a ∷ b ∷ q, from) received
      → ask k config (0xab ∷ 0xcd ∷ q) ≡ answer
      → LeavesSound received
          (asking a b q from)
          (after_reply from (after_ask cache c (0xab ∷ 0xcd ∷ q) a b answer))
  replied-LeavesSound honest received k c a b q from (err e) serves cached has h =
      (cached, tt, λ w. omega arith)
  replied-LeavesSound honest received k c a b q from (ok body) serves cached has h = (
    stored,
    finished-Holds received a b q body from (set_id a b body) has (serves (0xab ∷ 0xcd ∷ q) body h)
        refl,
    λ w. finished-le w from (set_id a b body),
  )
    where
      stored : IsCached (cache.insert (0xab ∷ 0xcd ∷ q) body c)
      stored query found g = elim (honest c (0xab ∷ 0xcd ∷ q) body query found g) [
        | inl (e, f) ↦ serves query found (ap (ask k config) e ∙ h ∙ ap ok (sym f))
        | inr old ↦ cached query found old
      ]

  pub advance-LeavesSound :
      IsHonest cache
      → (received : Datagrams) (k : Client U) (c : C) (task : Task) → Serves U cache config Served k
      → IsCached c
      → Holds received task
      → LeavesSound received task (advance cache config k c task)
  unfolding advance
  advance-LeavesSound honest received k c (started [] from) serves cached has =
      (cached, tt, λ w. omega arith)
  advance-LeavesSound honest received k c (started (a ∷ []) from) serves cached has =
      (cached, tt, λ w. omega arith)
  advance-LeavesSound honest received k c (started (a ∷ b ∷ q) from) serves cached has =
      looked_up-LeavesSound received c a b q from (cache.get c (0xab ∷ 0xcd ∷ q)) cached has refl
  advance-LeavesSound honest received k c (asking a b q from) serves cached has =
      replied-LeavesSound honest received k c a b q from (ask k config (0xab ∷ 0xcd ∷ q)) serves
        cached has refl
  advance-LeavesSound honest received k c (sending r from) serves cached answer =
      (cached, (answer, tt), λ w. omega arith)
