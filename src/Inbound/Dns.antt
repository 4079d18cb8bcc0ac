-- ===== src/Inbound/Dns.antt =====
-- local_proxy/src/inbound/dns.rs: one socket for DNS queries, with its tasks and their channel. The
-- tasks interleave at their awaits: before the cache is asked, while the server is, and where the
-- answer is put into the channel.
pub mod Alone
pub mod Sound
pub mod Reached
pub mod Drain
pub mod Idle
mod Tests
use local_proxy_rs.Base.{
  ℕ, ◌<◌, List, [], ◌∷◌, ◌++◌, Option, none, some, Bytes, length, Error, Result, ok, err, ◌≡◌, ◌⊎◌,
}
use local_proxy_rs.Addr.{StdSocketAddr}
use local_proxy_rs.Config.{Config}
use local_proxy_rs.Doh.{Cache, Client, set_id, ask, after_ask}

-- `run` for a query: not yet begun; waiting for the server, with the query's id and the rest of it;
-- waiting for room in the channel.
pub data Task : Type 0 where
  started : Bytes → StdSocketAddr → Task
  asking : ℕ → ℕ → Bytes → StdSocketAddr → Task
  sending : Bytes → StdSocketAddr → Task

-- `doh_query(buf).await?`, and the answer for `sender.send`.
abbrev pub finished : Result Bytes → StdSocketAddr → List Task
finished (ok r) from = sending r from ∷ []
finished (err e) from = []

abbrev pub after_lookup : ℕ → ℕ → Bytes → StdSocketAddr → Option Bytes → List Task
after_lookup a b q from (some found) = finished (set_id a b found) from
after_lookup a b q from none = asking a b q from ∷ []

abbrev pub after_reply : {C : Type 0} → StdSocketAddr → C × Result Bytes → C × List Task
after_reply from (c, r) = (c, finished r from)

module _ {C U : Type 0} (cache : Cache C) (config : Config) where
  -- A task up to its next await, with the server's answer as `k` gives it: the cache behind it, and
  -- what is left of the task.
  unfoldable pub advance : Client U → C → Task → C × List Task
  advance k c (started (a ∷ b ∷ q) from) =
      (c, after_lookup a b q from (cache.get c (0xab ∷ 0xcd ∷ q)))
  advance k c (started _ from) = (c, [])
  advance k c (asking a b q from) =
      let query : Bytes = 0xab ∷ 0xcd ∷ q in
      after_reply from (after_ask cache c query a b (ask k config query))
  advance k c (sending r from) = (c, sending r from ∷ [])

-- The socket's loop: the datagrams received and sent, the latest first, and the channel between.
pub record Server (C : Type 0) : Type 0 where
  pub cache : C
  pub received : List (Bytes × StdSocketAddr)
  pub tasks : List Task
  pub channel : List (Bytes × StdSocketAddr)
  pub sent : List (Bytes × StdSocketAddr)

-- `mpsc::channel(1024)`
abbrev pub capacity : ℕ
capacity = 1024

abbrev pub Runs : Task → Type 0
Runs (sending r from) = ⊥
Runs _ = Unit

module _ {C : Type 0} (U : Type 0) (cache : Cache C) (config : Config) where
  -- A step of what is there: of a task; into the channel, where there is room; out of the channel,
  -- by `socket.send_to`, whose result is ignored.
  pub data Work (s t : Server C) : Type 0 where
    run_task :
        (k : Client U) (xs ys : List Task) (task : Task)
        → s.tasks ≡ xs ++ (task ∷ ys)
        → Runs task
        → t ≡ record s {
          cache = (advance cache config k s.cache task).0;
          tasks = xs ++ ((advance cache config k s.cache task).1 ++ ys);
        }
        → Work s t
    push :
        (xs ys : List Task) (r : Bytes) (from : StdSocketAddr)
        → s.tasks ≡ xs ++ (sending r from ∷ ys)
        → length s.channel < capacity
        → t ≡ record s { tasks = xs ++ ys; channel = s.channel ++ ((r, from) ∷ []) }
        → Work s t
    forward :
        (r : Bytes) (to : StdSocketAddr) (rest : List (Bytes × StdSocketAddr))
        → s.channel ≡ (r, to) ∷ rest
        → t ≡ record s { channel = rest; sent = (r, to) ∷ s.sent }
        → Work s t

-- `Served` says which answers the server gives to which queries.
module _ {C : Type 0} (U : Type 0) (cache : Cache C) (config : Config)
    (Served : Bytes → Bytes → Type 0) where
  -- An answer that the client brings is one that the server gives to the query asked.
  abbrev pub Serves : Client U → Type 0
  Serves k = (query body : Bytes) → ask k config query ≡ ok body → Served query body

  abbrev pub IsServed : {s t : Server C} → Work U cache config s t → Type 0
  IsServed (run_task k xs ys task e runs same) = Serves k
  IsServed (push xs ys r from e room same) = Unit
  IsServed (forward r to rest e same) = Unit

  -- A step of what is there, a datagram that comes in, or a change of the cache, in which entries
  -- expire and the tasks of other sockets store what the server gave them.
  pub data Step (s t : Server C) : Type 0 where
    work : (w : Work U cache config s t) → IsServed w → Step s t
    receive :
        (query : Bytes) (from : StdSocketAddr)
        → t
          ≡ record s { received = (query, from) ∷ s.received; tasks = started query from ∷ s.tasks }
        → Step s t
    change :
        (c : C)
        → ((query body : Bytes)
            → cache.get c query ≡ some body
            → (cache.get s.cache query ≡ some body) ⊎ Served query body)
        → t ≡ record s { cache = c }
        → Step s t

  pub data Reach (s : Server C) : Server C → Type 0 where
    here : Reach s s
    later : {t u : Server C} → Reach s t → Step t u → Reach s u
