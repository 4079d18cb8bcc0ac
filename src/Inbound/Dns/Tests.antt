-- ===== src/Inbound/Dns/Tests.antt =====
-- A query that comes in, is asked for and answered.
use local_proxy_rs.Base.{
  ℕ, ◌+◌, ◌≤◌, true, List, [], ◌∷◌, Option, none, some, Bytes, codes, bytes_eq, bytes_eq_iff,
  if◌then◌else◌, ◌++◌, ok, ok-eq, Bool-cases, inl, inr, ◌≡◌, refl, sym, arith,
}
use local_proxy_rs.Net.{v4_octets, v4}
use local_proxy_rs.Addr.{StdSocketAddr}
use local_proxy_rs.Config.{Config}
use local_proxy_rs.Doh.{Cache, Client, data_frame, ask, read_body, read_chunks}
use local_proxy_rs.Inbound.Dns.{
  started, asking, sending, Server, advance, Work, run_task, push, forward, work, receive, Reach,
  here, later, Serves,
}
use local_proxy_rs.Inbound.Dns.Sound.{IsHonest, IsCached, IsSound, total}
use local_proxy_rs.Inbound.Dns.Reached.{fresh_server, Reach-IsSound}
use local_proxy_rs.Inbound.Dns.Drain.{load, answers, Run, idle, next}
use local_proxy_rs.Inbound.Dns.Idle.{IsIdle, Run_ends}

abbrev list_get : List (Bytes × Bytes) → Bytes → Option Bytes
list_get [] q = none
list_get ((k, v) ∷ c) q = if bytes_eq k q then some v else list_get c q

abbrev list_cache : Cache (List (Bytes × Bytes))
list_cache = record { get = list_get; insert = λ q r c. (q, r) ∷ c }

list_cache-IsHonest : IsHonest list_cache
list_cache-IsHonest c q b query body h = elim (Bool-cases (bytes_eq q query)) [
  | inl t ↦ inl (sym ((bytes_eq_iff q query).0 t), stored (rw t at h))
  | inr f ↦ inr (rw f at h)
]
  where
    stored : some b ≡ some body → body ≡ b
    stored x = cc

-- A server that sends the query back with one byte more.
abbrev echo_server : Client Bytes
echo_server = record {
  parse_uri = λ s. ok s;
  send_request = λ u q conf.
      ok (record { is_success = true; frames = ok (data_frame (q ∷ (9 ∷ []) ∷ [])) ∷ [] });
}

abbrev settings : Config
settings = record {
  proxies = none;
  doh = some (record { endpoint = codes "https://a/"; fake_host = none });
  fragment = none;
  http_listen = none;
  tproxy_listen = none;
  dns_listen = none;
}

abbrev client_addr : StdSocketAddr
client_addr = record { ip = v4 (v4_octets 127 0 0 1); port = 5353 }

abbrev query : Bytes
query = 1 ∷ 2 ∷ 7 ∷ []

abbrev answer : Bytes
answer = 1 ∷ 2 ∷ 7 ∷ 9 ∷ []

abbrev Cached : Type 0
Cached = List (Bytes × Bytes)

abbrev fetched : Cached
fetched = (0xab ∷ 0xcd ∷ 7 ∷ [], 0xab ∷ 0xcd ∷ 7 ∷ 9 ∷ []) ∷ []

-- The states on the way: the query is there; the server is asked; it has answered; the answer is in
-- the channel; it is sent.
abbrev came : Server Cached
came = record (fresh_server []) {
  received = (query, client_addr) ∷ [];
  tasks = started query client_addr ∷ [];
}

abbrev asked : Server Cached
asked = record came { tasks = asking 1 2 (7 ∷ []) client_addr ∷ [] }

abbrev replied : Server Cached
replied = record came { cache = fetched; tasks = sending answer client_addr ∷ [] }

abbrev queued : Server Cached
queued = record replied { tasks = []; channel = (answer, client_addr) ∷ [] }

abbrev done : Server Cached
done = record queued { channel = []; sent = (answer, client_addr) ∷ [] }

came_asked : Work Bytes list_cache settings came asked
unfolding advance
came_asked = run_task echo_server [] [] (started query client_addr) refl tt refl

asked_replied : Work Bytes list_cache settings asked replied
unfolding advance ask read_body
asked_replied = run_task echo_server [] [] (asking 1 2 (7 ∷ []) client_addr) refl tt refl

replied_queued : Work Bytes list_cache settings replied queued
replied_queued = push [] [] answer client_addr refl (omega arith) refl

queued_done : Work Bytes list_cache settings queued done
queued_done = forward answer client_addr [] refl refl

-- The answer of that server to a query.
abbrev Echoes : Bytes → Bytes → Type 0
Echoes q body = body ≡ read_chunks (q ∷ (9 ∷ []) ∷ []) ++ []

echo_server-Serves : Serves Bytes list_cache settings Echoes echo_server
unfolding ask read_body
echo_server-Serves q body h = sym (ok-eq h)

reached : Reach Bytes list_cache settings Echoes (fresh_server []) done
unfolding came_asked asked_replied replied_queued queued_done
reached =
    later
      (later
        (later
          (later (later here (receive query client_addr refl)) (work came_asked echo_server-Serves))
          (work asked_replied echo_server-Serves))
        (work replied_queued tt))
      (work queued_done tt)

no_entries : IsCached Bytes list_cache settings Echoes []
no_entries q body h = cc

Reach-IsSound_example : IsSound Bytes list_cache settings Echoes done
Reach-IsSound_example =
    Reach-IsSound Bytes list_cache settings Echoes [] done list_cache-IsHonest no_entries reached

Run_ends_example :
    (m : ℕ) × (u : Server Cached) × Run Bytes list_cache settings m replied u
    × IsIdle u
    × (2 + m ≤ load came)
    × (answers (λ a. 1) replied ≤ total (λ a. 1) u.sent)
Run_ends_example =
    Run_ends list_cache settings echo_server (λ a. 1) 2 came replied
      (next came_asked (next asked_replied idle))
