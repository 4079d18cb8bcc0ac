-- ===== src/Fragment/Loop.antt =====
-- The loop of `poll_flush` over the message.
use local_proxy_rs.Base.{
  ℕ, zero, suc, ◌+◌, ◌≤◌, ◌<◌, ◌≡◌, refl, sym, ap, ◌∙◌, false, [], ◌∷◌, ◌++◌, append-nil, Option,
  none, some, Bytes, length, ltb, le→ltb, Bool-cases, inl, inr, arith, tests,
}
use local_proxy_rs.Fragment.Inner.{Poll, pending, ready, failed, panicked, out_of_fuel, Stream}
use local_proxy_rs.Fragment.{Buffer, Header}
use local_proxy_rs.Fragment.Send.{
  chunk_of, next_chunk, finish_chunk, after_finish, put_chunk, send_message,
}
use mathlib.Core.Path.{subst}
use local_proxy_rs.Fragment.Message.{
  left_over, IsSending, Progress, rounds, next_chunk_within, next_chunk_end, left_over_within,
  left_over_end,
}
use local_proxy_rs.Fragment.Round.{Finished, finish_chunk-Finished}

-- What the next round is given.
abbrev Again :
    Header
    → ℕ
    → Bytes
    → Bytes
    → (Stream → Buffer → Option Buffer → Stream × Buffer × Option Buffer × Poll (Unit {0}))
    → Type 0
Again header k inner total again =
    (s : Stream) (buf : Buffer) (c : Buffer)
    → buf.inner ≡ inner
    → header.len < buf.ptr + k
    → IsSending header buf (some c)
    → s.sent ++ left_over header buf (some c) ≡ total
    → Progress header inner total (again s buf (some c))

put_chunk-Progress :
    (again : Stream → Buffer → Option Buffer → Stream × Buffer × Option Buffer × Poll (Unit {0}))
    (header : Header) (k : ℕ) (s : Stream) (buf : Buffer) (c : Option Buffer) (total : Bytes)
    → IsSending header buf none
    → header.len < buf.ptr + k
    → s.sent ++ left_over header buf none ≡ total
    → Again header k buf.inner total again
    → Progress header buf.inner total (put_chunk again s buf c (next_chunk buf header))
put_chunk-Progress again header k s buf c total h lt f go =
    elim (Bool-cases (ltb buf.ptr header.len)) [
      | inl l ↦
          (let (x, n, m) = next_chunk_within header buf h.complete (omega tests) in
            subst (λ o. Progress header buf.inner total (put_chunk again s buf c o)) (sym n)
              (go s buf (chunk_of header (x ∷ [])) refl lt
                (record {
                  base = h.base;
                  complete = h.complete;
                  within = h.within;
                  chunk = λ _. (x, refl, m, omega arith);
                })
                (ap (λ t. s.sent ++ t) (left_over_within header buf x (omega tests) m) ∙ f)))
      | inr g ↦
          (let (x, n) = next_chunk_end header buf h.complete (ground (arith, h.within)) in
            subst (λ o. Progress header buf.inner total (put_chunk again s buf c o)) (sym n)
              (go s buf x refl lt
                (record {
                  base = h.base;
                  complete = h.complete;
                  within = h.within;
                  chunk = λ l. absurd (ground arith);
                })
                (ap (λ t. s.sent ++ t)
                    (left_over_end header buf (some x) (ground (arith, h.within))
                      ∙ sym (left_over_end header buf none (ground (arith, h.within))))
                  ∙ f)))
    ]

after_finish-Progress :
    (again : Stream → Buffer → Option Buffer → Stream × Buffer × Option Buffer × Poll (Unit {0}))
    (header : Header) (k : ℕ) (buf : Buffer) (total : Bytes)
    (r : Stream × Buffer × Option Buffer × Poll (Unit {0}))
    → length header.base ≡ 3
    → header.len ≤ length buf.inner
    → Again header k buf.inner total again
    → Finished header k buf total r
    → Progress header buf.inner total (after_finish again header r)
after_finish-Progress again header k buf total (s, buf', c, ready _) b h go (e, le, lt, f) =
    let h' : header.len ≤ length buf'.inner = rw e h in
    let sending : IsSending header buf' none = record {
      base = b;
      complete = h';
      within = le;
      chunk = tt;
    } in
    subst (λ t. Progress header t total (put_chunk again s buf' c (next_chunk buf' header))) e
      (put_chunk-Progress again header k s buf' c total sending lt (rw e f) (rw e go))
after_finish-Progress again header k buf total (s, buf', c, pending) b h go d = d
after_finish-Progress again header k buf total (s, buf', c, failed) b h go d = d
after_finish-Progress again header k buf total (s, buf', c, panicked) b h go d = absurd d
after_finish-Progress again header k buf total (s, buf', c, out_of_fuel) b h go d = absurd d

all_sent :
    (header : Header) (sent : Bytes) (buf : Buffer) (c : Option Buffer)
    → buf.ptr ≡ header.len
    → sent ≡ sent ++ left_over header buf c
all_sent header sent buf c e = rw (left_over_end header buf c e, append-nil) refl

-- The loop always stops with `Progress`: it neither panics nor runs out of fuel.
pub send_message-Progress :
    (header : Header) (fuel : ℕ) (s : Stream) (buf : Buffer) (c : Option Buffer)
    → IsSending header buf c
    → rounds header buf c ≤ fuel
    → Progress header buf.inner
        (s.sent ++ left_over header buf c)
        (send_message header fuel s buf c)
unfolding send_message
send_message-Progress header zero s buf none h f = absurd (omega arith)
send_message-Progress header zero s buf (some c) h f =
    let e : buf.ptr ≡ header.len = omega (arith, h.within) in
    let t : ltb buf.ptr header.len ≡ false = le→ltb buf.ptr header.len (omega arith) in
    rw (t, send_message) (refl, e, sym (append-nil s.sent))
send_message-Progress header (suc fuel) s buf c h f = elim (Bool-cases (ltb buf.ptr header.len)) [
  | inl l ↦
      rw (l, send_message)
        (after_finish-Progress (send_message header fuel) header (rounds header buf c) buf
          (s.sent ++ left_over header buf c) (finish_chunk s buf header c) h.base h.complete
          (λ s' buf' c' e lt h' g.
            subst (λ t. Progress header buf.inner t (send_message header fuel s' buf' (some c'))) g
              (subst
                (λ t.
                  Progress header t (s'.sent ++ left_over header buf' (some c'))
                    (send_message header fuel s' buf' (some c')))
                e (send_message-Progress header fuel s' buf' (some c') h' (omega arith))))
          (finish_chunk-Finished header s buf c h (omega tests)))
  | inr g ↦
      (let e : buf.ptr ≡ header.len = ground (arith, h.within) in
        rw (g, send_message) (refl, e, all_sent header s.sent buf c e))
]
