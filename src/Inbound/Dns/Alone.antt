-- ===== src/Inbound/Dns/Alone.antt =====
-- A task that nothing interrupts is one call of `doh_query`.
use local_proxy_rs.Base.{ℕ, List, [], ◌∷◌, Option, none, some, Bytes, ◌≡◌, refl}
use local_proxy_rs.Addr.{StdSocketAddr}
use local_proxy_rs.Config.{Config}
use local_proxy_rs.Doh.{Cache, Client, after_get, doh_query}
use local_proxy_rs.Inbound.Dns.{Task, started, after_lookup, after_reply, advance}

module _ {C U : Type 0} (cache : Cache C) (config : Config) (k : Client U) where
  -- Each of the tasks once.
  abbrev pub advance_each : C × List Task → C × List Task
  advance_each (c, []) = (c, [])
  advance_each (c, t ∷ ts) = advance cache config k c t

  looked_up :
      (c : C) (a b : ℕ) (q : Bytes) (from : StdSocketAddr) (found : Option Bytes)
      → advance_each (c, after_lookup a b q from found)
        ≡ after_reply from (after_get cache k config c (0xab ∷ 0xcd ∷ q) a b found)
  unfolding advance
  looked_up c (a) b q from none = refl
  looked_up c a b q from (some (x ∷ y ∷ body)) = refl
  looked_up c a b q from (some []) = refl
  looked_up c a b q from (some (x ∷ [])) = refl

  -- From the datagram to the answer for the channel a task does what `doh_query` does, if the cache
  -- does not change in between.
  pub advance-doh_query :
      (c : C) (query : Bytes) (from : StdSocketAddr)
      → advance_each (advance cache config k c (started query from))
        ≡ after_reply from (doh_query cache k config c query)
  unfolding doh_query advance
  advance-doh_query c [] from = refl
  advance-doh_query c (a ∷ []) from = refl
  advance-doh_query c (a ∷ b ∷ q) from = looked_up c a b q from (cache.get c (0xab ∷ 0xcd ∷ q))
