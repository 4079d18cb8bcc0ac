-- ===== src/Inbound/Dns/Idle.antt =====
-- The server of a socket always comes to rest.
use local_proxy_rs.Base.{
  ℕ, zero, suc, ◌+◌, ◌≤◌, List, [], ◌∷◌, length, ◌≡◌, ◌⊎◌, inl, inr, refl, ap, arith,
}
use local_proxy_rs.Addr.{StdSocketAddr}
use local_proxy_rs.Config.{Config}
use local_proxy_rs.Doh.{Cache, Client}
use local_proxy_rs.Inbound.Dns.{
  Task, started, asking, sending, Server, Work, run_task, push, forward,
}
use local_proxy_rs.Inbound.Dns.Sound.{total}
use local_proxy_rs.Inbound.Dns.Drain.{load, waiting, answers, Work-load, Run, idle, next, Run-load}

List-cases : {A : Type 0} (xs : List A) → (xs ≡ []) ⊎ ((x : A) × (ys : List A) × (xs ≡ x ∷ ys))
List-cases [] = inl refl
List-cases (x ∷ xs) = inr (x, xs, refl)

abbrev pub IsIdle : {C : Type 0} → Server C → Type 0
IsIdle s = (s.tasks ≡ []) × (s.channel ≡ [])

module _ {C U : Type 0} (cache : Cache C) (config : Config) (k : Client U) where
  -- The first task, where the channel is empty.
  first_task :
      (s : Server C) (task : Task) (ts : List Task)
      → s.tasks ≡ task ∷ ts
      → s.channel ≡ []
      → (t : Server C) × Work U cache config s t
  first_task s (started q from) ts e empty = (_, run_task k [] ts (started q from) e tt refl)
  first_task s (asking a b q from) ts e empty = (_, run_task k [] ts (asking a b q from) e tt refl)
  first_task s (sending r from) ts e empty =
      (_, push [] ts r from e (omega (arith, ap length empty)) refl)

  -- A server that is not idle can go on.
  Work-exists : (s : Server C) → IsIdle s ⊎ ((t : Server C) × Work U cache config s t)
  Work-exists s = elim (List-cases s.channel) [
    | inr ((r, to), rest, e) ↦ inr (_, forward r to rest e refl)
    | inl empty ↦ elim (List-cases s.tasks) [
      | inr (task, ts, e) ↦ inr (first_task s task ts e empty)
      | inl none_left ↦ inl (none_left, empty)
    ]
  ]

  drained :
      (fuel : ℕ) (s : Server C)
      → load s ≤ fuel
      → (n : ℕ) × (t : Server C) × Run U cache config n s t × IsIdle t
  drained zero s h = elim (Work-exists s) [
    | inl rest ↦ (0, s, idle, rest)
    | inr (t, m) ↦ absurd (omega (arith, Work-load U cache config (λ a. 0) m))
  ]
  drained (suc fuel) s h = elim (Work-exists s) [
    | inl rest ↦ (0, s, idle, rest)
    | inr (t, m) ↦
        let (n, u, r, rest) = drained fuel t (omega (arith, Work-load U cache config (λ a. 0) m)) in
        (suc n, u, next m r, rest)
  ]

-- Work on what has been received never goes on for ever and never gets stuck: after any `n` steps of
-- it, in any order, there are steps to a state with no task and an empty channel, together no more
-- than the load at the start, which is at most four for each task and one for each datagram in the
-- channel; and for any weight of addresses, what is sent by then weighs at least as much as the
-- answers that there were.
pub Run_ends :
    {C U : Type 0} (cache : Cache C) (config : Config) (k : Client U) (w : StdSocketAddr → ℕ)
    (n : ℕ) (s t : Server C)
    → Run U cache config n s t
    → (m : ℕ) × (u : Server C) × Run U cache config m t u
      × IsIdle u
      × (n + m ≤ load s)
      × (answers w t ≤ total w u.sent)
Run_ends {U = U} cache config k w n s t r =
    let (m, u, more, (no_task, empty)) = drained cache config k (load t) t (omega arith) in
    (
      m,
      u,
      more,
      (no_task, empty),
      omega (arith, Run-load U cache config w r, Run-load U cache config w more),
      omega (arith, Run-load U cache config w more, ap (waiting w) no_task, ap (total w) empty),
    )
