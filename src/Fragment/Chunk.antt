-- ===== src/Fragment/Chunk.antt =====
-- Sending one chunk: whatever the inner stream answers, no byte is lost or sent twice.
use local_proxy_rs.Base.{
  ℕ, zero, suc, ◌+◌, ◌-◌, ◌≤◌, ◌<◌, min, ◌≡◌, refl, sym, ap, ◌∙◌, List, [], ◌∷◌, ◌++◌, append_assoc,
  append-nil, some, Bytes, length, take, drop, slice?, drop-cons, ltb, le→ltb, le→leb, Bool-cases,
  inl, inr, arith, tests,
}
use local_proxy_rs.Fragment.Inner.{
  Poll, pending, ready, failed, panicked, out_of_fuel, Reply, takes, would_block, breaks, Stream,
  inner_write,
}
use local_proxy_rs.Fragment.{Buffer}
use local_proxy_rs.Fragment.Send.{send_byte, after_byte, nonzero, send_chunk}
use native.Mathlib.Nat.{add-zero}

-- A poll that neither panicked nor ran out of fuel, and that has `P` if it is ready.
abbrev pub Settled : {A : Type 0} → Poll A → Type 0 → Type 0
Settled (ready a) P = P
Settled pending P = Unit
Settled failed P = Unit
Settled panicked P = ⊥
Settled out_of_fuel P = ⊥

pub Settled_map : {A : Type 0} {P Q : Type 0} (p : Poll A) → (P → Q) → Settled p P → Settled p Q
Settled_map (ready a) f h = f h
Settled_map pending f h = tt
Settled_map failed f h = tt
Settled_map panicked f h = h
Settled_map out_of_fuel f h = h

take-nil : {A : Type 0} (n : ℕ) → take {A = A} n [] ≡ []
take-nil zero = refl
take-nil (suc n) = refl

pub slice?_one :
    (s : Bytes) (i : ℕ)
    → i < length s
    → (x : ℕ) × (slice? s i (i + 1) ≡ some (x ∷ [])) × (drop i s ≡ x ∷ drop (i + 1) s)
slice?_one s i h =
    let (x, e) = drop-cons i s h in
    let f : i + 1 ≡ suc i = omega arith in
    let g : i + 1 - i ≡ 1 = omega arith in
    (
      x,
      rw (le→leb i (i + 1) (omega arith), le→leb (i + 1) (length s) (omega arith), g, e) refl,
      rw (f, e) refl,
    )

-- How far a write moves on.
abbrev pub moved : Poll ℕ → ℕ
moved (ready n) = n
moved _ = 0

-- What a round keeps: the bytes sent and the bytes left of the chunk spell the same text.
abbrev pub SendsByte : Bytes → Buffer → Stream × Poll ℕ → Type 0
SendsByte sent chunk (s, p) =
    (s.sent ++ drop (chunk.ptr + moved p) chunk.inner ≡ sent ++ drop chunk.ptr chunk.inner)
    × (moved p ≤ 1)
    × Settled p (moved p ≡ 1)

send_byte-SendsByte :
    (script : List Reply) (sent : Bytes) (chunk : Buffer)
    → chunk.ptr < length chunk.inner
    → SendsByte sent chunk (send_byte (record { script = script; sent = sent }) chunk)
unfolding send_byte
send_byte-SendsByte [] sent chunk h = (rw add-zero, omega arith, tt)
send_byte-SendsByte (would_block ∷ r) sent chunk h = (rw add-zero, omega arith, tt)
send_byte-SendsByte (breaks ∷ r) sent chunk h = (rw add-zero, omega arith, tt)
send_byte-SendsByte (takes a ∷ r) sent chunk h =
    let (x, e, f) = slice?_one chunk.inner chunk.ptr h in rw (e, send_byte) (go x f r)
  where
    go :
        (x : ℕ)
        → drop chunk.ptr chunk.inner ≡ x ∷ drop (chunk.ptr + 1) chunk.inner
        → (r : List Reply)
        → SendsByte sent chunk (
            let (s2, written) = inner_write (record { script = r; sent = sent }) (x ∷ []) in
            (s2, nonzero written))
    go x f [] = (rw add-zero, omega arith, tt)
    go x f (would_block ∷ r) = (rw add-zero, omega arith, tt)
    go x f (breaks ∷ r) = (rw add-zero, omega arith, tt)
    go x f (takes zero ∷ r) = (rw (add-zero, append-nil) refl, omega arith, tt)
    go x f (takes (suc n) ∷ r) =
        let m : min (suc n) 1 ≡ 1 = omega arith in
        rw (m, take-nil n)
          (rw (append_assoc sent (x ∷ [])) (ap (λ t. sent ++ t) (sym f)), omega arith, omega arith)

-- What a run of `send_chunk` keeps.
pub record Sends (sent : Bytes) (chunk : Buffer) (r : Stream × Buffer × Poll (Unit {0}))
    : Type 0 where
  pub same : r.1.inner ≡ chunk.inner
  pub within : r.1.ptr ≤ length chunk.inner
  pub kept : r.0.sent ++ drop r.1.ptr chunk.inner ≡ sent ++ drop chunk.ptr chunk.inner
  pub settled : Settled r.2 (r.1.ptr ≡ length chunk.inner)

after_byte-Sends :
    (again : Stream → Buffer → Stream × Buffer × Poll (Unit {0})) (sent : Bytes) (chunk : Buffer)
    (x : Stream × Poll ℕ)
    → chunk.ptr < length chunk.inner
    → ((n : ℕ)
        → n ≡ 1
        → Sends x.0.sent
            (record { inner = chunk.inner; ptr = chunk.ptr + n })
            (again x.0 (record { inner = chunk.inner; ptr = chunk.ptr + n })))
    → SendsByte sent chunk x
    → Sends sent chunk (after_byte again chunk x)
after_byte-Sends again sent chunk (s, ready n) h k (b, c, d) =
    let o = k n d in
    record { same = o.same; within = o.within; kept = o.kept ∙ b; settled = o.settled }
after_byte-Sends again sent chunk (s, pending) h k (b, c, d) = record {
  same = refl;
  within = omega arith;
  kept = rw add-zero at b;
  settled = tt;
}
after_byte-Sends again sent chunk (s, failed) h k (b, c, d) = record {
  same = refl;
  within = omega arith;
  kept = rw add-zero at b;
  settled = tt;
}
after_byte-Sends again sent chunk (s, panicked) h k (b, c, d) = absurd d
after_byte-Sends again sent chunk (s, out_of_fuel) h k (b, c, d) = absurd d

pub send_chunk-Sends :
    (fuel : ℕ) (s : Stream) (chunk : Buffer)
    → chunk.ptr ≤ length chunk.inner
    → length chunk.inner ≤ chunk.ptr + fuel
    → Sends s.sent chunk (send_chunk fuel s chunk)
unfolding send_chunk
send_chunk-Sends zero s chunk h k =
    rw (le→ltb chunk.ptr (length chunk.inner) (omega arith))
      (record { same = refl; within = h; kept = refl; settled = omega arith })
send_chunk-Sends (suc fuel) s chunk h k = elim (Bool-cases (ltb chunk.ptr (length chunk.inner))) [
  | inr ge ↦
      rw (ge, send_chunk) (record { same = refl; within = h; kept = refl; settled = ground arith })
  | inl lt ↦
      rw (lt, send_chunk)
        (after_byte-Sends (send_chunk fuel) s.sent chunk (send_byte s chunk) (omega tests)
          (λ n e.
            send_chunk-Sends fuel (send_byte s chunk).0
              (record { inner = chunk.inner; ptr = chunk.ptr + n }) (omega tests) (omega arith))
          (send_byte-SendsByte s.script s.sent chunk (omega tests)))
]
