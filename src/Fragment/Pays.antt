-- ===== src/Fragment/Pays.antt =====
-- What the loops of `poll_flush` use of the replies of the stream below.
use local_proxy_rs.Base.{
  ℕ, zero, suc, ◌+◌, ◌-◌, ◌*◌, ◌≤◌, ◌<◌, min, ◌≡◌, List, [], ◌∷◌, ◌++◌, Option, none, some, Bytes,
  length, length-append, length-take, take, ltb, Bool-cases, inl, inr, arith, tests,
}
use local_proxy_rs.Fragment.Inner.{
  Poll, pending, ready, failed, panicked, out_of_fuel, Reply, takes, would_block, breaks, Stream,
  inner_write,
}
use local_proxy_rs.Fragment.{Buffer, Header}
use local_proxy_rs.Fragment.Send.{
  next_chunk, send_byte, after_byte, nonzero, send_chunk, after_chunk, finish_chunk, after_finish,
  put_chunk, send_message, send_raw,
}
use local_proxy_rs.Fragment.Chunk.{slice?_one}

-- The replies before the first that holds the layer up.
abbrev pub credit : List Reply → ℕ
credit (takes (suc n) ∷ r) = suc (credit r)
credit _ = 0

-- Two replies pay for a byte: the flush and the write. What a run leaves of `m`, the replies paid
-- for together with those to come: all of it when it is ready, and else at most one reply.
abbrev pub Pays : {A : Type 0} → ℕ → Stream → Poll A → Type 0
Pays m s (ready a) = m ≤ 2 * length s.sent + credit s.script
Pays m s pending = m ≤ 2 * length s.sent + 1
Pays m s failed = m ≤ 2 * length s.sent + 1
Pays m s panicked = Unit
Pays m s out_of_fuel = Unit

credit_takes : (a : ℕ) (r : List Reply) → credit (takes a ∷ r) ≤ suc (credit r)
credit_takes zero r = omega arith
credit_takes (suc a) r = omega arith

send_byte-Pays :
    (script : List Reply) (sent : Bytes) (chunk : Buffer)
    → chunk.ptr < length chunk.inner
    → Pays
        (2 * length sent + credit script)
        (send_byte (record { script = script; sent = sent }) chunk).0
        (send_byte (record { script = script; sent = sent }) chunk).1
unfolding send_byte
send_byte-Pays [] sent chunk h = omega arith
send_byte-Pays (would_block ∷ r) sent chunk h = omega arith
send_byte-Pays (breaks ∷ r) sent chunk h = omega arith
send_byte-Pays (takes a ∷ r) sent chunk h =
    let (x, e, f) = slice?_one chunk.inner chunk.ptr h in rw (e, send_byte) (go a x r)
  where
    go :
        (a x : ℕ) (r : List Reply)
        → let (s2, written) = inner_write (record { script = r; sent = sent }) (x ∷ []) in
          Pays (2 * length sent + credit (takes a ∷ r)) s2 (nonzero written)
    go a x [] = omega (arith, credit_takes a [])
    go a x (would_block ∷ r) = omega (arith, credit_takes a (would_block ∷ r))
    go a x (breaks ∷ r) = omega (arith, credit_takes a (breaks ∷ r))
    go a x (takes zero ∷ r) = omega (arith, credit_takes a (takes zero ∷ r), length-append sent [])
    go a x (takes (suc n) ∷ r) =
        let m : min (suc n) 1 ≡ 1 = omega arith in
        rw m (omega (arith, length-append sent (x ∷ take n []), credit_takes a (takes (suc n) ∷ r)))

after_byte-Pays :
    (again : Stream → Buffer → Stream × Buffer × Poll (Unit {0})) (m : ℕ) (chunk : Buffer)
    (r : Stream × Poll ℕ)
    → ((s : Stream) (c : Buffer)
        → m ≤ 2 * length s.sent + credit s.script
        → Pays m (again s c).0 (again s c).2)
    → Pays m r.0 r.1
    → Pays m (after_byte again chunk r).0 (after_byte again chunk r).2
after_byte-Pays again m chunk (s, ready n) go h = go _ _ h
after_byte-Pays again m chunk (s, pending) go h = h
after_byte-Pays again m chunk (s, failed) go h = h
after_byte-Pays again m chunk (s, panicked) go h = h
after_byte-Pays again m chunk (s, out_of_fuel) go h = h

Pays-le : {A : Type 0} (m n : ℕ) (s : Stream) (p : Poll A) → m ≤ n → Pays n s p → Pays m s p
Pays-le m n s (ready a) h k = omega arith
Pays-le m n s pending h k = omega arith
Pays-le m n s failed h k = omega arith
Pays-le m n s panicked h k = tt
Pays-le m n s out_of_fuel h k = tt

send_chunk-Pays :
    (fuel m : ℕ) (s : Stream) (chunk : Buffer)
    → m ≤ 2 * length s.sent + credit s.script
    → Pays m (send_chunk fuel s chunk).0 (send_chunk fuel s chunk).2
unfolding send_chunk
send_chunk-Pays zero m s chunk h = elim (Bool-cases (ltb chunk.ptr (length chunk.inner))) [
  | inl t ↦ rw (t, send_chunk) tt
  | inr t ↦ rw (t, send_chunk) h
]
send_chunk-Pays (suc fuel) m s chunk h = elim (Bool-cases (ltb chunk.ptr (length chunk.inner))) [
  | inl t ↦
      rw (t, send_chunk)
        (after_byte-Pays (send_chunk fuel) m chunk (send_byte s chunk) (send_chunk-Pays fuel m)
          (Pays-le m _ _ _ h (send_byte-Pays s.script s.sent chunk (omega tests))))
  | inr t ↦ rw (t, send_chunk) h
]

after_chunk-Pays :
    (m : ℕ) (buf : Buffer) (header : Header) (r : Stream × Buffer × Poll (Unit {0}))
    → Pays m r.0 r.2
    → Pays m (after_chunk buf header r).0 (after_chunk buf header r).3
after_chunk-Pays m buf header (s, c, ready _) h = h
after_chunk-Pays m buf header (s, c, pending) h = h
after_chunk-Pays m buf header (s, c, failed) h = h
after_chunk-Pays m buf header (s, c, panicked) h = h
after_chunk-Pays m buf header (s, c, out_of_fuel) h = h

finish_chunk-Pays :
    (m : ℕ) (s : Stream) (buf : Buffer) (header : Header) (c : Option Buffer)
    → m ≤ 2 * length s.sent + credit s.script
    → Pays m (finish_chunk s buf header c).0 (finish_chunk s buf header c).3
finish_chunk-Pays m s buf header none h = h
finish_chunk-Pays m s buf header (some c) h =
    after_chunk-Pays m buf header _ (send_chunk-Pays (length c.inner - c.ptr) m s c h)

-- The next round of the loop.
abbrev pub Again :
    ℕ
    → (Stream → Buffer → Option Buffer → Stream × Buffer × Option Buffer × Poll (Unit {0}))
    → Type 0
Again m again =
    (s : Stream) (buf : Buffer) (c : Option Buffer)
    → m ≤ 2 * length s.sent + credit s.script
    → Pays m (again s buf c).0 (again s buf c).3

put_chunk-Pays :
    (again : Stream → Buffer → Option Buffer → Stream × Buffer × Option Buffer × Poll (Unit {0}))
    (m : ℕ) (s : Stream) (buf : Buffer) (c next : Option Buffer)
    → Again m again
    → m ≤ 2 * length s.sent + credit s.script
    → Pays m (put_chunk again s buf c next).0 (put_chunk again s buf c next).3
put_chunk-Pays again m s buf c none go h = tt
put_chunk-Pays again m s buf c (some n) go h = go s buf (some n) h

after_finish-Pays :
    (again : Stream → Buffer → Option Buffer → Stream × Buffer × Option Buffer × Poll (Unit {0}))
    (m : ℕ) (header : Header) (r : Stream × Buffer × Option Buffer × Poll (Unit {0}))
    → Again m again
    → Pays m r.0 r.3
    → Pays m (after_finish again header r).0 (after_finish again header r).3
after_finish-Pays again m header (s, buf, c, ready _) go h =
    put_chunk-Pays again m s buf c (next_chunk buf header) go h
after_finish-Pays again m header (s, buf, c, pending) go h = h
after_finish-Pays again m header (s, buf, c, failed) go h = h
after_finish-Pays again m header (s, buf, c, panicked) go h = h
after_finish-Pays again m header (s, buf, c, out_of_fuel) go h = h

pub send_message-Pays : (header : Header) (fuel m : ℕ) → Again m (send_message header fuel)
unfolding send_message
send_message-Pays header zero m s buf c h = elim (Bool-cases (ltb buf.ptr header.len)) [
  | inl t ↦ rw (t, send_message) tt
  | inr t ↦ rw (t, send_message) h
]
send_message-Pays header (suc fuel) m s buf c h = elim (Bool-cases (ltb buf.ptr header.len)) [
  | inl t ↦
      rw (t, send_message)
        (after_finish-Pays (send_message header fuel) m header (finish_chunk s buf header c)
          (send_message-Pays header fuel m) (finish_chunk-Pays m s buf header c h))
  | inr t ↦ rw (t, send_message) h
]

pub send_raw-Pays :
    (m : ℕ) (script : List Reply) (sent : Bytes) (buf : Buffer)
    → m ≤ 2 * length sent + credit script
    → Pays m (send_raw script sent buf).0 (send_raw script sent buf).2
unfolding send_raw
send_raw-Pays m [] sent buf h = elim (Bool-cases (ltb buf.ptr (length buf.inner))) [
  | inl t ↦ rw t (omega arith)
  | inr t ↦ rw t h
]
send_raw-Pays m (takes n ∷ r) sent buf h = elim (Bool-cases (ltb buf.ptr (length buf.inner))) [
  | inl t ↦ rw t (
      send_raw-Pays m r (sent ++ take n buf.inner)
        (record buf { ptr = buf.ptr + min n (length buf.inner) }) (paid n h (omega tests)))
  | inr t ↦ rw t h
]
  where
    paid :
        (n : ℕ)
        → m ≤ 2 * length sent + credit (takes n ∷ r)
        → buf.ptr < length buf.inner
        → m ≤ 2 * length (sent ++ take n buf.inner) + credit r
    paid zero h lt = omega (arith, length-append sent (take 0 buf.inner))
    paid (suc n) h lt =
        omega (arith, length-append sent (take (suc n) buf.inner), length-take (suc n) buf.inner)
send_raw-Pays m (would_block ∷ r) sent buf h = elim (Bool-cases (ltb buf.ptr (length buf.inner))) [
  | inl t ↦ rw t (omega arith)
  | inr t ↦ rw t h
]
send_raw-Pays m (breaks ∷ r) sent buf h = elim (Bool-cases (ltb buf.ptr (length buf.inner))) [
  | inl t ↦ rw t (omega arith)
  | inr t ↦ rw t h
]
