-- ===== src/Fragment/Round.antt =====
-- One round of the loop over the message in `poll_flush`.
use local_proxy_rs.Base.{
  ℕ, ◌+◌, ◌-◌, ◌≤◌, ◌<◌, ◌≡◌, refl, sym, ap, ◌∙◌, [], ◌∷◌, ◌++◌, append_assoc, append-nil, Option,
  none, some, Bytes, length, drop, drop-nil_of_le, length-append, lt→ltb, arith,
}
use local_proxy_rs.Fragment.Inner.{Poll, pending, ready, failed, panicked, out_of_fuel, Stream}
use local_proxy_rs.Fragment.{Buffer, Header}
use local_proxy_rs.Fragment.Send.{after_chunk, finish_chunk}
use local_proxy_rs.Fragment.Chunk.{Sends, send_chunk-Sends}
use local_proxy_rs.Fragment.Message.{
  fragments, message_from, left_over, IsSending, rounds, Progress,
}

-- A round after its chunk: the chunk is gone, and the pointer stands behind its byte.
abbrev pub Finished :
    Header → ℕ → Buffer → Bytes → Stream × Buffer × Option Buffer × Poll (Unit {0}) → Type 0
Finished header k buf total (s, buf', c, ready _) =
    (buf'.inner ≡ buf.inner)
    × (buf'.ptr ≤ header.len)
    × (header.len < buf'.ptr + k)
    × (s.sent ++ fragments header.base (message_from header buf.inner buf'.ptr) ≡ total)
Finished header k buf total (s, buf', c, pending) =
    Progress header buf.inner total (s, buf', c, pending)
Finished header k buf total (s, buf', c, failed) =
    Progress header buf.inner total (s, buf', c, failed)
Finished header k buf total (s, buf', c, panicked) = ⊥
Finished header k buf total (s, buf', c, out_of_fuel) = ⊥

-- The poll returned inside the chunk: what is left of the chunk and of the message stays.
chunk-interrupted :
    (header : Header) (buf c c' : Buffer) (sent sent' : Bytes)
    → IsSending header buf (some c)
    → buf.ptr < header.len
    → c'.inner ≡ c.inner
    → c'.ptr ≤ length c.inner
    → sent' ++ drop c'.ptr c.inner ≡ sent ++ drop c.ptr c.inner
    → (buf.inner ≡ buf.inner)
      × IsSending header buf (some c')
      × (sent' ++ left_over header buf (some c') ≡ sent ++ left_over header buf (some c))
chunk-interrupted header buf c c' sent sent' h lt same within kept =
    let (x, e, f, g) = h.chunk lt in
    let fits : c'.ptr ≤ length c'.inner = rw same within in
    let kept' : sent' ++ drop c'.ptr c'.inner ≡ sent ++ drop c.ptr c.inner = rw same kept in
    (
      refl,
      record {
        base = h.base;
        complete = h.complete;
        within = h.within;
        chunk = λ _. (x, same ∙ e, f, fits);
      },
      rw (lt→ltb buf.ptr header.len lt) (rw (← append_assoc, kept', append_assoc) refl),
    )

-- The chunk is sent: its six bytes are a header of five and one byte of payload.
chunk-finished :
    (header : Header) (buf c c' : Buffer) (sent sent' : Bytes)
    → IsSending header buf (some c)
    → buf.ptr < header.len
    → c'.inner ≡ c.inner
    → c'.ptr ≡ length c.inner
    → sent' ++ drop c'.ptr c.inner ≡ sent ++ drop c.ptr c.inner
    → let i = buf.ptr + (length c'.inner - (length header.base + 2)) in
      (buf.inner ≡ buf.inner)
      × (i ≤ header.len)
      × (header.len < i + rounds header buf (some c))
      × (sent' ++ fragments header.base (message_from header buf.inner i)
          ≡ sent ++ left_over header buf (some c))
chunk-finished header buf c c' sent sent' h lt same done kept =
    let (x, e, f, g) = h.chunk lt in
    let b : length header.base ≡ 3 = h.base in
    let six : length c'.inner ≡ 6 =
      omega (arith, ap length same, ap length e, length-append header.base (0 ∷ 1 ∷ x ∷ [])) in
    let one : buf.ptr + (length c'.inner - (length header.base + 2)) ≡ buf.ptr + 1 = omega arith in
    let gone : drop c'.ptr c.inner ≡ [] = drop-nil_of_le c'.ptr c.inner (omega arith) in
    let all : sent' ≡ sent ++ drop c.ptr c.inner = sym (append-nil sent') ∙ (rw gone at kept) in
    (
      refl,
      rw one (omega arith),
      rw one (omega arith),
      rw (one, lt→ltb buf.ptr header.len lt) (rw (all, append_assoc) refl),
    )

after_chunk-Finished :
    (header : Header) (buf c : Buffer) (sent : Bytes) (r : Stream × Buffer × Poll (Unit {0}))
    → IsSending header buf (some c)
    → buf.ptr < header.len
    → Sends sent c r
    → Finished header
        (rounds header buf (some c))
        buf
        (sent ++ left_over header buf (some c))
        (after_chunk buf header r)
after_chunk-Finished header buf c sent (s, c', ready _) h lt k =
    chunk-finished header buf c c' sent s.sent h lt k.same k.settled k.kept
after_chunk-Finished header buf c sent (s, c', pending) h lt k =
    chunk-interrupted header buf c c' sent s.sent h lt k.same k.within k.kept
after_chunk-Finished header buf c sent (s, c', failed) h lt k =
    chunk-interrupted header buf c c' sent s.sent h lt k.same k.within k.kept
after_chunk-Finished header buf c sent (s, c', panicked) h lt k = absurd k.settled
after_chunk-Finished header buf c sent (s, c', out_of_fuel) h lt k = absurd k.settled

pub finish_chunk-Finished :
    (header : Header) (s : Stream) (buf : Buffer) (c : Option Buffer)
    → IsSending header buf c
    → buf.ptr < header.len
    → Finished header
        (rounds header buf c)
        buf
        (s.sent ++ left_over header buf c)
        (finish_chunk s buf header c)
finish_chunk-Finished header s buf none h lt = (refl, h.within, omega arith, refl)
finish_chunk-Finished header s buf (some c) h lt =
    let (x, e, f, g) = h.chunk lt in
    after_chunk-Finished header buf c s.sent _ h lt
      (send_chunk-Sends (length c.inner - c.ptr) s c g (omega arith))
