-- ===== src/Fragment/Message.antt =====
-- `poll_flush` in the fragmenting state, against the list of the fragments it has to send.
use local_proxy_rs.Base.{
  ℕ, zero, suc, ◌+◌, ◌-◌, ◌≤◌, ◌<◌, ◌≡◌, refl, true, false, [], ◌∷◌, ◌++◌, Option, none, some,
  Bytes, length, take, drop, slice?, drop-nil_of_le, length-take, ltb, lt→ltb, le→ltb, le→leb,
  if◌then◌else◌, arith,
}
use local_proxy_rs.Fragment.Inner.{Poll, pending, ready, failed, panicked, out_of_fuel, Stream}
use local_proxy_rs.Fragment.{Buffer, Header}
use local_proxy_rs.Fragment.Send.{chunk_of, next_chunk}

-- The records that carry `payload`, one byte to a record.
abbrev pub fragments : Bytes → Bytes → Bytes
fragments base [] = []
fragments base (b ∷ payload) = base ++ (0 ∷ 1 ∷ b ∷ []) ++ fragments base payload

-- The message from byte `i` of the buffer on.
abbrev pub message_from : Header → Bytes → ℕ → Bytes
message_from header inner i = drop i (take header.len inner)

-- What is still to be sent of the fragments.
abbrev pub left_over : Header → Buffer → Option Buffer → Bytes
left_over header buf none = fragments header.base (message_from header buf.inner buf.ptr)
left_over header buf (some c) =
    if ltb buf.ptr header.len
    then drop c.ptr c.inner ++ fragments header.base (message_from header buf.inner (buf.ptr + 1))
    else []

-- The chunk in hand carries the byte at the buffer's pointer.
abbrev pub IsChunk : Header → Buffer → Buffer → Type 0
IsChunk header buf c =
    (x : ℕ) × (c.inner ≡ header.base ++ 0 ∷ 1 ∷ x ∷ [])
    × (message_from header buf.inner buf.ptr ≡ x ∷ message_from header buf.inner (buf.ptr + 1))
    × (c.ptr ≤ length c.inner)

abbrev pub IsOptChunk : Header → Buffer → Option Buffer → Type 0
IsOptChunk header buf none = Unit
IsOptChunk header buf (some c) = buf.ptr < header.len → IsChunk header buf c

-- A message being sent.
pub record IsSending (header : Header) (buf : Buffer) (c : Option Buffer) : Type 0 where
  pub base : length header.base ≡ 3
  pub complete : header.len ≤ length buf.inner
  pub within : buf.ptr ≤ header.len
  pub chunk : IsOptChunk header buf c

drop-take_cons :
    (i n : ℕ) (xs : Bytes)
    → i < n
    → n ≤ length xs
    → (x : ℕ) × (take 1 (drop i xs) ≡ x ∷ []) × (drop i (take n xs) ≡ x ∷ drop (suc i) (take n xs))
drop-take_cons i zero xs h k = absurd (omega arith)
drop-take_cons i (suc n) [] h k = absurd (omega arith)
drop-take_cons zero (suc n) (x ∷ xs) h k = (x, refl, refl)
drop-take_cons (suc i) (suc n) (x ∷ xs) h k = drop-take_cons i n xs (omega arith) (omega arith)

-- Inside the message the next chunk carries the next byte, with its own record header.
pub next_chunk_within :
    (header : Header) (buf : Buffer)
    → header.len ≤ length buf.inner
    → buf.ptr < header.len
    → (x : ℕ) × (next_chunk buf header
        ≡ some (record { inner = header.base ++ 0 ∷ 1 ∷ x ∷ []; ptr = 0 }))
      × (message_from header buf.inner buf.ptr ≡ x ∷ message_from header buf.inner (buf.ptr + 1))
next_chunk_within header buf h lt =
    let (x, e, f) = drop-take_cons buf.ptr header.len buf.inner lt h in
    let g : buf.ptr + 1 ≡ suc buf.ptr = omega arith in
    let k : buf.ptr + 1 - buf.ptr ≡ 1 = omega arith in
    let t : ltb header.len (buf.ptr + 1) ≡ false = le→ltb header.len (buf.ptr + 1) (omega arith) in
    let u : slice? buf.inner buf.ptr (buf.ptr + 1) ≡ some (x ∷ []) =
      rw
        (
          le→leb buf.ptr (buf.ptr + 1) (omega arith),
          le→leb (buf.ptr + 1) (length buf.inner) (omega arith),
          k,
          e,
        )
        refl in
    (x, rw (t, u) refl, rw (g, f) refl)

-- At the end of the message an empty chunk is made, which is never sent.
pub next_chunk_end :
    (header : Header) (buf : Buffer)
    → header.len ≤ length buf.inner
    → buf.ptr ≡ header.len
    → (c : Buffer) × (next_chunk buf header ≡ some c)
next_chunk_end header buf h e =
    let t : ltb header.len (buf.ptr + 1) ≡ true = lt→ltb header.len (buf.ptr + 1) (omega arith) in
    let u : slice? buf.inner buf.ptr header.len
        ≡ some (take (header.len - buf.ptr) (drop buf.ptr buf.inner)) =
      rw (le→leb buf.ptr header.len (omega arith), le→leb header.len (length buf.inner) h) refl in
    (chunk_of header (take (header.len - buf.ptr) (drop buf.ptr buf.inner)), rw (t, u) refl)

-- Rounds that the loop may still make: one for each byte, and one more while no chunk is in hand.
abbrev pub rounds : Header → Buffer → Option Buffer → ℕ
rounds header buf none = header.len - buf.ptr + 1
rounds header buf (some c) = header.len - buf.ptr

-- A run of the loop that has `total` to bring to the stream: it stops inside the message, with
-- the rest in hand, or it has sent all.
abbrev pub Progress :
    Header → Bytes → Bytes → Stream × Buffer × Option Buffer × Poll (Unit {0}) → Type 0
Progress header inner total (s, buf, c, ready _) =
    (buf.inner ≡ inner) × (buf.ptr ≡ header.len) × (s.sent ≡ total)
Progress header inner total (s, buf, c, pending) =
    (buf.inner ≡ inner) × IsSending header buf c × (s.sent ++ left_over header buf c ≡ total)
Progress header inner total (s, buf, c, failed) =
    (buf.inner ≡ inner) × IsSending header buf c × (s.sent ++ left_over header buf c ≡ total)
Progress header inner total (s, buf, c, panicked) = ⊥
Progress header inner total (s, buf, c, out_of_fuel) = ⊥

-- The fragments left at the pointer are those left once the next chunk is in hand.
pub left_over_within :
    (header : Header) (buf : Buffer) (x : ℕ)
    → buf.ptr < header.len
    → message_from header buf.inner buf.ptr ≡ x ∷ message_from header buf.inner (buf.ptr + 1)
    → left_over header buf (some (chunk_of header (x ∷ []))) ≡ left_over header buf none
left_over_within header buf x lt m = rw (lt→ltb buf.ptr header.len lt, m) refl

pub left_over_end :
    (header : Header) (buf : Buffer) (c : Option Buffer)
    → buf.ptr ≡ header.len
    → left_over header buf c ≡ []
left_over_end header buf none e =
    rw
      (drop-nil_of_le buf.ptr (take header.len buf.inner)
        (omega (arith, length-take header.len buf.inner)))
      refl
left_over_end header buf (some c) e = rw (le→ltb buf.ptr header.len (omega arith)) refl
