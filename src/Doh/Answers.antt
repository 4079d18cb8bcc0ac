-- ===== src/Doh/Answers.antt =====
-- The answers of `doh_query`: their ids, and what the cache saves.
use local_proxy_rs.Base.{
  ℕ, true, false, not, [], ◌∷◌, Option, none, some, Bytes, ◌==◌, Result, ok, err, ◌≡◌, refl, ap,
  arith,
}
use mathlib.Core.Path.{subst}
use local_proxy_rs.Config.{Config}
use local_proxy_rs.Outbound.Stack.Policy.{fragmented}
use local_proxy_rs.Doh.{Cache, Client, set_id, after_ask, after_get, ask, doh_query, doh_fragment}

set_id-eq-ok :
    (a b : ℕ) (body : Bytes) {r : Bytes}
    → set_id a b body ≡ ok r
    → (rest : Bytes) × (r ≡ a ∷ b ∷ rest) × ((a' b' : ℕ) → set_id a' b' body ≡ ok (a' ∷ b' ∷ rest))
set_id-eq-ok a b [] h = cc
set_id-eq-ok a b (x ∷ []) h = cc
set_id-eq-ok a b (x ∷ y ∷ rest) h = (rest, cc, λ a' b'. refl)

-- What the cache does with an entry that it has just been given: it has it until it expires.
abbrev pub Keeps : {C : Type 0} → Cache C → Type 0
Keeps {C} cache = (q r : Bytes) (c : C) → cache.get (cache.insert q r c) q ≡ some r

-- The query behind its id, and what is known once it has been answered with `r`.
abbrev pub Answered :
    (U : Type 0) {C : Type 0} → Cache C → Config → Bytes → ℕ → ℕ → Bytes → C → Type 0
Answered U cache config q a b r c =
    (rest : Bytes) × (r ≡ a ∷ b ∷ rest)
    × ((k : Client U) (a' b' : ℕ)
        → doh_query cache k config c (a' ∷ b' ∷ q) ≡ (c, ok (a' ∷ b' ∷ rest)))

stored-Answered :
    (U : Type 0) {C : Type 0} (cache : Cache C) (config : Config) (q : Bytes) (a b : ℕ)
    (body r : Bytes) (c : C)
    → cache.get c (0xab ∷ 0xcd ∷ q) ≡ some body
    → set_id a b body ≡ ok r
    → Answered U cache config q a b r c
unfolding doh_query
stored-Answered U cache config q a b body r c g h =
    let (rest, e, f) = set_id-eq-ok a b body h in
    (rest, e, λ k a' b'. rw g (ap (λ x. (c, x)) (f a' b')))

after_ask-Answered :
    (U : Type 0) {C : Type 0} (cache : Cache C) (config : Config) (c c' : C) (q : Bytes) (a b : ℕ)
    (r : Bytes) (answer : Result Bytes)
    → Keeps cache
    → after_ask cache c (0xab ∷ 0xcd ∷ q) a b answer ≡ (c', ok r)
    → Answered U cache config q a b r c'
after_ask-Answered U cache config c c' q a b r (ok body) keeps h =
    subst (Answered U cache config q a b r) (ap (λ x. x.0) h) (
      stored-Answered U cache config q a b body r (cache.insert (0xab ∷ 0xcd ∷ q) body c)
        (keeps (0xab ∷ 0xcd ∷ q) body c) (ap (λ x. x.1) h))
after_ask-Answered U cache config c c' q a b r (err e) keeps h = absurd (err_ok (ap (λ x. x.1) h))
  where
    err_ok : err e ≡ ok r → ⊥
    err_ok x = cc

after_get-Answered :
    {C U : Type 0} (cache : Cache C) (k : Client U) (config : Config) (c c' : C) (q : Bytes)
    (a b : ℕ) (r : Bytes) (found : Option Bytes)
    → Keeps cache
    → cache.get c (0xab ∷ 0xcd ∷ q) ≡ found
    → after_get cache k config c (0xab ∷ 0xcd ∷ q) a b found ≡ (c', ok r)
    → Answered U cache config q a b r c'
after_get-Answered {U = U} cache k config c c' q a b r (some body) keeps g h =
    subst (Answered U cache config q a b r) (ap (λ x. x.0) h)
      (stored-Answered U cache config q a b body r c g (ap (λ x. x.1) h))
after_get-Answered {U = U} cache k config c c' q a b r none keeps g h =
    after_ask-Answered U cache config c c' q a b r (ask k config (0xab ∷ 0xcd ∷ q)) keeps h

-- With a cache that has an entry that it has just been given: a query that is answered gets an
-- answer with its own id, and from then on the same query under any id is answered at once, with
-- that id and else the same bytes, whatever the server would say, and leaves the cache as it is.
pub doh_query-again :
    {C U : Type 0} (cache : Cache C) (k : Client U) (config : Config) (c c' : C) (a b : ℕ)
    (q r : Bytes)
    → Keeps cache
    → doh_query cache k config c (a ∷ b ∷ q) ≡ (c', ok r)
    → Answered U cache config q a b r c'
unfolding doh_query
doh_query-again cache k config c c' a b q r keeps h =
    after_get-Answered cache k config c c' q a b r (cache.get c (0xab ∷ 0xcd ∷ q)) keeps refl h

ask_id :
    {C : Type 0} (cache : Cache C) (c : C) (query : Bytes) (a b a' b' : ℕ) (answer : Result Bytes)
    → (after_ask cache c query a b answer).0 ≡ (after_ask cache c query a' b' answer).0
ask_id cache c query a b a' b' (ok body) = refl
ask_id cache c query a b a' b' (err e) = refl

get_id :
    {C U : Type 0} (cache : Cache C) (k : Client U) (config : Config) (c : C) (query : Bytes)
    (a b a' b' : ℕ) (found : Option Bytes)
    → (after_get cache k config c query a b found).0
      ≡ (after_get cache k config c query a' b' found).0
get_id cache k config c query a b a' b' (some body) = refl
get_id cache k config c query a b a' b' none = ask_id cache c query a b a' b' (ask k config query)

-- What the cache holds after a query does not depend on the id of the query.
pub doh_query-id :
    {C U : Type 0} (cache : Cache C) (k : Client U) (config : Config) (c : C) (a b a' b' : ℕ)
    (q : Bytes)
    → (doh_query cache k config c (a ∷ b ∷ q)).0 ≡ (doh_query cache k config c (a' ∷ b' ∷ q)).0
unfolding doh_query
doh_query-id cache k config c a b a' b' q =
    get_id cache k config c (0xab ∷ 0xcd ∷ q) a b a' b' (cache.get c (0xab ∷ 0xcd ∷ q))

-- A query for names goes through the fragmenting layer unless the setting is the number 0: also where
-- it is absent, and where it is 1, with which other requests do not.
pub fragmented-doh_fragment :
    (n : ℕ)
    → (fragmented (some n) (doh_fragment (some n)) ≡ not (n == 0))
      × (fragmented none (doh_fragment none) ≡ true)
      × (fragmented (some 1) none ≡ false)
fragmented-doh_fragment n = ground arith
