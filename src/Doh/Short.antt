-- ===== src/Doh/Short.antt =====
-- An answer that is too short for an id is put into the cache all the same.
use local_proxy_rs.Base.{
  ℕ, ◌<◌, [], ◌∷◌, none, Bytes, length, ok, err, rejected, ◌≡◌, refl, ap, arith,
}
use local_proxy_rs.Config.{Config}
use local_proxy_rs.Doh.{Cache, Client, set_id, ask, doh_query}
use local_proxy_rs.Doh.Answers.{Keeps}

set_id_short : (a b : ℕ) (body : Bytes) → length body < 2 → set_id a b body ≡ err rejected
set_id_short a b [] h = refl
set_id_short a b (x ∷ []) h = refl
set_id_short a b (x ∷ y ∷ body) h = absurd (omega arith)

-- With a cache that has an entry that it has just been given: where the server answers a query that
-- is not in the cache with success and a body of less than two bytes, the query fails, and from then
-- on the same query under any id fails by the cache, whatever the server would say.
pub doh_query_short :
    {C U : Type 0} (cache : Cache C) (k : Client U) (config : Config) (c : C) (a b : ℕ)
    (q body : Bytes)
    → Keeps cache
    → cache.get c (0xab ∷ 0xcd ∷ q) ≡ none
    → ask k config (0xab ∷ 0xcd ∷ q) ≡ ok body
    → length body < 2
    → (c' : C) × (doh_query cache k config c (a ∷ b ∷ q) ≡ (c', err rejected))
      × ((k' : Client U) (a' b' : ℕ)
          → doh_query cache k' config c' (a' ∷ b' ∷ q) ≡ (c', err rejected))
unfolding doh_query
doh_query_short cache k config c a b q body keeps fresh answered short =
    let query : Bytes = 0xab ∷ 0xcd ∷ q in
    let stored = cache.insert query body c in
    (
      stored,
      rw (fresh, answered) (ap (λ r. (stored, r)) (set_id_short a b body short)),
      λ k' a' b'. rw (keeps query body c) (ap (λ r. (stored, r)) (set_id_short a' b' body short)),
    )
