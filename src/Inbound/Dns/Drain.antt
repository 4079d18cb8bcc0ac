-- ===== src/Inbound/Dns/Drain.antt =====
-- The work on what a socket has received ends, and loses no answer.
use local_proxy_rs.Base.{
  ℕ, suc, ◌+◌, ◌≤◌, ◌<◌, List, [], ◌∷◌, ◌++◌, Option, none, some, Bytes, length, length-append,
  Result, ok, err, ◌≡◌, refl, sym, ap, arith,
}
use mathlib.Core.Path.{subst}
use local_proxy_rs.Addr.{StdSocketAddr}
use local_proxy_rs.Config.{Config}
use local_proxy_rs.Doh.{Cache, Client, set_id, ask, after_ask}
use local_proxy_rs.Inbound.Dns.{
  Task, started, asking, sending, finished, after_lookup, after_reply, advance, Server, Runs, Work,
  run_task, push, forward,
}
use local_proxy_rs.Inbound.Dns.Sound.{total}
use local_proxy_rs.Inbound.Dns.Reached.{total-append}

-- The awaits that a task has before it, until its answer is sent.
abbrev pub stages : Task → ℕ
stages (started q from) = 4
stages (asking a b q from) = 3
stages (sending r from) = 2

abbrev pub total_stages : List Task → ℕ
total_stages [] = 0
total_stages (t ∷ ts) = stages t + total_stages ts

abbrev pub load : {C : Type 0} → Server C → ℕ
load s = total_stages s.tasks + length s.channel

-- The answers there are for an address, by a weight as in `total`: sent, in the channel or waiting
-- for room there.
abbrev pub waiting : (StdSocketAddr → ℕ) → List Task → ℕ
waiting w [] = 0
waiting w (sending r from ∷ ts) = w from + waiting w ts
waiting w (started q from ∷ ts) = waiting w ts
waiting w (asking a b q from ∷ ts) = waiting w ts

abbrev pub answers : {C : Type 0} → (StdSocketAddr → ℕ) → Server C → ℕ
answers w s = total w s.sent + total w s.channel + waiting w s.tasks

total_stages-append :
    (xs ys : List Task) → total_stages (xs ++ ys) ≡ total_stages xs + total_stages ys
total_stages-append [] ys = omega arith
total_stages-append (t ∷ xs) ys = omega (arith, total_stages-append xs ys)

waiting-append :
    (w : StdSocketAddr → ℕ) (xs ys : List Task) → waiting w (xs ++ ys) ≡ waiting w xs + waiting w ys
waiting-append w [] ys = omega arith
waiting-append w (sending r from ∷ xs) ys = omega (arith, waiting-append w xs ys)
waiting-append w (started q from ∷ xs) ys = waiting-append w xs ys
waiting-append w (asking a b q from ∷ xs) ys = waiting-append w xs ys

finished-le : (r : Result Bytes) (from : StdSocketAddr) → total_stages (finished r from) ≤ 2
finished-le (ok r) from = omega arith
finished-le (err e) from = omega arith

looked_up-le :
    (a b : ℕ) (q : Bytes) (from : StdSocketAddr) (found : Option Bytes)
    → total_stages (after_lookup a b q from found) ≤ 3
looked_up-le a b q from none = omega arith
looked_up-le a b q from (some body) = omega (arith, finished-le (set_id a b body) from)

replied-le :
    {C : Type 0} (cache : Cache C) (c : C) (query : Bytes) (a b : ℕ) (from : StdSocketAddr)
    (answer : Result Bytes)
    → total_stages (after_reply from (after_ask cache c query a b answer)).1 ≤ 2
replied-le cache c query a b from (ok body) = finished-le (set_id a b body) from
replied-le cache c query a b from (err e) = omega arith

module _ {C : Type 0} (U : Type 0) (cache : Cache C) (config : Config) where
  advance-lt :
      (k : Client U) (c : C) (task : Task)
      → Runs task
      → total_stages (advance cache config k c task).1 < stages task
  unfolding advance
  advance-lt k c (started [] from) runs = omega arith
  advance-lt k c (started (a ∷ []) from) runs = omega arith
  advance-lt k c (started (a ∷ b ∷ q) from) runs =
      omega (arith, looked_up-le a b q from (cache.get c (0xab ∷ 0xcd ∷ q)))
  advance-lt k c (asking a b q from) runs =
      omega (arith, replied-le cache c (0xab ∷ 0xcd ∷ q) a b from (ask k config (0xab ∷ 0xcd ∷ q)))
  advance-lt k c (sending r from) runs = absurd runs

  Runs-waiting :
      (w : StdSocketAddr → ℕ) (task : Task) (ys : List Task)
      → Runs task
      → waiting w (task ∷ ys) ≡ waiting w ys
  Runs-waiting w (started q from) ys runs = refl
  Runs-waiting w (asking a b q from) ys runs = refl
  Runs-waiting w (sending r from) ys runs = absurd runs

  -- Each step of work takes one from the load, and keeps the answers that there are.
  pub Work-load :
      (w : StdSocketAddr → ℕ) {s t : Server C}
      → Work U cache config s t
      → (load t < load s) × (answers w s ≤ answers w t)
  Work-load w {s} (run_task k xs ys task e runs same) =
      let ts = (advance cache config k s.cache task).1 in
      subst (λ x. (load x < load s) × (answers w s ≤ answers w x)) (sym same)
        (
          omega (
            arith,
            ap total_stages e,
            total_stages-append xs (task ∷ ys),
            total_stages-append xs (ts ++ ys),
            total_stages-append ts ys,
            advance-lt k s.cache task runs,
          ),
          omega (
            arith,
            ap (waiting w) e,
            waiting-append w xs (task ∷ ys),
            waiting-append w xs (ts ++ ys),
            waiting-append w ts ys,
            Runs-waiting w task ys runs,
          ),
        )
  Work-load w {s} (push xs ys r from e room same) =
      subst (λ x. (load x < load s) × (answers w s ≤ answers w x)) (sym same)
        (
          omega (
            arith,
            ap total_stages e,
            total_stages-append xs (sending r from ∷ ys),
            total_stages-append xs ys,
            length-append s.channel ((r, from) ∷ []),
          ),
          omega (
            arith,
            ap (waiting w) e,
            waiting-append w xs (sending r from ∷ ys),
            waiting-append w xs ys,
            total-append w s.channel ((r, from) ∷ []),
          ),
        )
  Work-load w {s} (forward r to rest e same) =
      subst (λ x. (load x < load s) × (answers w s ≤ answers w x)) (sym same)
        (omega (arith, ap length e), omega (arith, ap (total w) e))

  -- A run of so many steps of work.
  pub data Run : ℕ → Server C → Server C → Type 0 where
    idle : {s : Server C} → Run 0 s s
    next : {n : ℕ} {s t u : Server C} → Work U cache config s t → Run n t u → Run (suc n) s u

  pub Run-load :
      (w : StdSocketAddr → ℕ) {n : ℕ} {s t : Server C}
      → Run n s t
      → (n + load t ≤ load s) × (answers w s ≤ answers w t)
  Run-load w idle = (omega arith, omega arith)
  Run-load w (next m r) = omega (arith, Work-load w m, Run-load w r)
