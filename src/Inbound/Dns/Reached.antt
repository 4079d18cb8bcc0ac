-- ===== src/Inbound/Dns/Reached.antt =====
-- What holds in every state that the server of a socket comes to.
use local_proxy_rs.Base.{
  ℕ, ◌+◌, List, [], ◌∷◌, ◌++◌, Bytes, length, length-append, All, All-append, ◌≡◌, inl, inr, refl,
  sym, ap, arith,
}
use mathlib.Core.Path.{subst}
use local_proxy_rs.Addr.{StdSocketAddr}
use local_proxy_rs.Config.{Config}
use local_proxy_rs.Doh.{Cache, Client}
use local_proxy_rs.Inbound.Dns.{
  Task, started, asking, sending, advance, Server, Work, run_task, push, forward, Step, work,
  receive, change, Reach, here, later, Serves, IsServed,
}
use local_proxy_rs.Inbound.Dns.Sound.{
  Datagrams, total, total_tasks, IsHonest, IsAnswer, Holds, IsCached, IsSound, advance-LeavesSound,
}

All-parts {ℓ κ} :
    {A : Type ℓ} (P : A → Type κ) (xs ys : List A) → All P (xs ++ ys) → All P xs × All P ys
All-parts P [] ys h = (tt, h)
All-parts P (x ∷ xs) ys (h, k) = let (a, b) = All-parts P xs ys k in ((h, a), b)

All-map {ℓ κ ι} :
    {A : Type ℓ} (P : A → Type κ) (Q : A → Type ι) (f : (x : A) → P x → Q x) (xs : List A)
    → All P xs
    → All Q xs
All-map P Q f [] h = tt
All-map P Q f (x ∷ xs) (h, k) = (f x h, All-map P Q f xs k)

pub total-append :
    (w : StdSocketAddr → ℕ) (ds es : Datagrams) → total w (ds ++ es) ≡ total w ds + total w es
total-append w [] es = omega arith
total-append w ((d, a) ∷ ds) es = omega (arith, total-append w ds es)

total_tasks-append :
    (w : StdSocketAddr → ℕ) (xs ys : List Task)
    → total_tasks w (xs ++ ys) ≡ total_tasks w xs + total_tasks w ys
total_tasks-append w [] ys = omega arith
total_tasks-append w (t ∷ xs) ys = omega (arith, total_tasks-append w xs ys)

module _ {C : Type 0} (U : Type 0) (cache : Cache C) (config : Config)
    (Served : Bytes → Bytes → Type 0) where
  abbrev Sound : Server C → Type 0
  Sound = IsSound U cache config Served

  -- More datagrams take nothing from what is known.
  IsAnswer-cons :
      (d : Bytes × StdSocketAddr) (received : Datagrams) (x : Bytes × StdSocketAddr)
      → IsAnswer U cache config Served received x
      → IsAnswer U cache config Served (d ∷ received) x
  IsAnswer-cons d received x (a, b, y, z, q, rest, has, e, f) = (a, b, y, z, q, rest, inr has, e, f)

  Holds-cons :
      (d : Bytes × StdSocketAddr) (received : Datagrams) (t : Task)
      → Holds U cache config Served received t
      → Holds U cache config Served (d ∷ received) t
  Holds-cons d received (started q from) h = inr h
  Holds-cons d received (asking a b q from) h = inr h
  Holds-cons d received (sending r from) h = IsAnswer-cons d received (r, from) h

  run_task-Sound :
      IsHonest cache
      → (s : Server C) (k : Client U) (xs ys : List Task) (task : Task)
      → Serves U cache config Served k
      → s.tasks ≡ xs ++ (task ∷ ys)
      → Sound s
      → Sound (record s {
        cache = (advance cache config k s.cache task).0;
        tasks = xs ++ ((advance cache config k s.cache task).1 ++ ys);
      })
  run_task-Sound honest s k xs ys task serves e v =
      let P = Holds U cache config Served s.received in
      let (before, (held, behind)) = All-parts P xs (task ∷ ys) (subst (All P) e v.tasks) in
      let (cached, new, fewer) =
        advance-LeavesSound U cache config Served honest s.received k s.cache task serves v.cached
          held in
      let ts = (advance cache config k s.cache task).1 in
      record {
        cached = cached;
        tasks = All-append P xs (ts ++ ys) before (All-append P ts ys new behind);
        channel = v.channel;
        sent = v.sent;
        room = v.room;
        fair = λ w. omega (
          arith,
          v.fair w,
          fewer w,
          ap (total_tasks w) e,
          total_tasks-append w xs (task ∷ ys),
          total_tasks-append w xs (ts ++ ys),
          total_tasks-append w ts ys,
        );
      }

  Work-Sound :
      IsHonest cache
      → {s t : Server C} (w : Work U cache config s t) → IsServed U cache config Served w
      → Sound s
      → Sound t
  Work-Sound honest {s} (run_task k xs ys task e runs same) serves v =
      subst Sound (sym same) (run_task-Sound honest s k xs ys task serves e v)
  Work-Sound honest {s} (push xs ys r from e room same) served v =
      let P = Holds U cache config Served s.received in
      let (before, (held, behind)) =
        All-parts P xs (sending r from ∷ ys) (subst (All P) e v.tasks) in
      subst Sound (sym same) (record {
        cached = v.cached;
        tasks = All-append P xs ys before behind;
        channel =
            All-append (IsAnswer U cache config Served s.received) s.channel ((r, from) ∷ [])
              v.channel (held, tt);
        sent = v.sent;
        room = omega (arith, length-append s.channel ((r, from) ∷ []));
        fair = λ w. omega (
          arith,
          v.fair w,
          ap (total_tasks w) e,
          total_tasks-append w xs (sending r from ∷ ys),
          total_tasks-append w xs ys,
          total-append w s.channel ((r, from) ∷ []),
        );
      })
  Work-Sound honest {s} (forward r to rest e same) served v =
      let (held, behind) = subst (All (IsAnswer U cache config Served s.received)) e v.channel in
      subst Sound (sym same) (record {
        cached = v.cached;
        tasks = v.tasks;
        channel = behind;
        sent = (held, v.sent);
        room = omega (arith, v.room, ap length e);
        fair = λ w. omega (arith, v.fair w, ap (total w) e);
      })

  Step-Sound :
      IsHonest cache → {s t : Server C} → Step U cache config Served s t → Sound s → Sound t
  Step-Sound honest (work m served) v = Work-Sound honest m served v
  Step-Sound honest {s} (receive query from same) v =
      let d : Bytes × StdSocketAddr = (query, from) in
      let more = IsAnswer-cons d s.received in
      subst Sound (sym same) (record {
        cached = v.cached;
        tasks = (inl refl, All-map _ _ (Holds-cons d s.received) s.tasks v.tasks);
        channel = All-map _ _ more s.channel v.channel;
        sent = All-map _ _ more s.sent v.sent;
        room = v.room;
        fair = λ w. omega (arith, v.fair w);
      })
  Step-Sound honest {s} (change c known same) v = subst Sound (sym same) (record {
    cached = λ query body g. elim (known query body g) [
      | inl old ↦ v.cached query body old
      | inr new ↦ new
    ];
    tasks = v.tasks;
    channel = v.channel;
    sent = v.sent;
    room = v.room;
    fair = v.fair;
  })

-- A server that starts with nothing but a cache.
abbrev pub fresh_server : {C : Type 0} → C → Server C
fresh_server c = record { cache = c; received = []; tasks = []; channel = []; sent = [] }

-- Whatever answers the server gives to which queries, and in whatever order the tasks run, where the
-- clients bring only answers that the server gives to the query asked, with a cache that gives back
-- only what was stored, in which at first are only such answers: every datagram sent answers a query
-- that its receiver has sent, under that query's id and else with the bytes of an answer that the
-- server gives to the same query, sent under the id 0xabcd;
-- no client is sent more datagrams than came from it; and the channel never holds more than 1024.
pub Reach-IsSound :
    {C : Type 0} (U : Type 0) (cache : Cache C) (config : Config) (Served : Bytes → Bytes → Type 0)
    (c : C) (s : Server C)
    → IsHonest cache
    → IsCached U cache config Served c
    → Reach U cache config Served (fresh_server c) s
    → IsSound U cache config Served s
Reach-IsSound U cache config Served c s honest cached here = record {
  cached = cached;
  tasks = tt;
  channel = tt;
  sent = tt;
  room = omega arith;
  fair = λ w. omega arith;
}
Reach-IsSound U cache config Served c s honest cached (later {t} r st) =
    Step-Sound U cache config Served honest st
      (Reach-IsSound U cache config Served c t honest cached r)
