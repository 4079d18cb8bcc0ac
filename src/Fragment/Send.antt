-- ===== src/Fragment/Send.antt =====
-- The loops of `poll_flush` in local_proxy/src/outbound/layer/fragment.rs.
use local_proxy_rs.Base.{
  ℕ, zero, suc, ◌+◌, ◌-◌, ◌%◌, min, true, false, List, [], ◌∷◌, ◌++◌, Option, none, some, Bytes,
  length, take, slice?, u16_to_be_bytes, ltb, ◌==◌, if◌then◌else◌,
}
use mathlib.Core.Option
use local_proxy_rs.Fragment.Inner.{
  Poll, pending, ready, failed, panicked, out_of_fuel, Reply, takes, would_block, breaks, Stream,
  inner_write, inner_flush,
}
use local_proxy_rs.Fragment.{Buffer, Header}

-- `if written == 0 { return … BrokenPipe }`.
abbrev pub nonzero : Poll ℕ → Poll ℕ
nonzero (ready n) = if n == 0 then failed else ready n
nonzero p = p

-- One round of `while chunk.inner.len() > chunk.ptr`: a flush, then a write of one byte.
unfoldable pub send_byte : Stream → Buffer → Stream × Poll ℕ
send_byte s chunk =
    let (s1, flushed) = inner_flush s in
    elim flushed [
      | ready _ ↦ elim (slice? chunk.inner chunk.ptr (chunk.ptr + 1)) [
        | none ↦ (s1, panicked)
        | some send ↦ (let (s2, written) = inner_write s1 send in (s2, nonzero written))
      ]
      | pending ↦ (s1, pending)
      | failed ↦ (s1, failed)
      | panicked ↦ (s1, panicked)
      | out_of_fuel ↦ (s1, out_of_fuel)
    ]

-- The rest of the round: the chunk moves on, or the poll returns.
abbrev pub after_byte :
    (Stream → Buffer → Stream × Buffer × Poll (Unit {0}))
    → Buffer
    → Stream × Poll ℕ
    → Stream × Buffer × Poll (Unit {0})
after_byte again chunk (s, ready n) = again s (record { inner = chunk.inner; ptr = chunk.ptr + n })
after_byte again chunk (s, pending) = (s, chunk, pending)
after_byte again chunk (s, failed) = (s, chunk, failed)
after_byte again chunk (s, panicked) = (s, chunk, panicked)
after_byte again chunk (s, out_of_fuel) = (s, chunk, out_of_fuel)

-- `while chunk.inner.len() > chunk.ptr { … }`; `fuel` bounds the bytes left.
unfoldable pub send_chunk : ℕ → Stream → Buffer → Stream × Buffer × Poll (Unit {0})
send_chunk zero s chunk =
    (s, chunk, if ltb chunk.ptr (length chunk.inner) then out_of_fuel else ready tt)
send_chunk (suc fuel) s chunk = elim (ltb chunk.ptr (length chunk.inner)) [
  | false ↦ (s, chunk, ready tt)
  | true ↦ after_byte (send_chunk fuel) chunk (send_byte s chunk)
]

-- A record with the header's type and version around `msg`; `msg.len() as u16` wraps.
abbrev pub chunk_of : Header → Bytes → Buffer
chunk_of header msg = record {
  inner = header.base ++ (u16_to_be_bytes (length msg % 65536) ++ msg);
  ptr = 0;
}

abbrev pub chunk_end : Buffer → Header → ℕ
chunk_end buf header = if ltb header.len (buf.ptr + 1) then header.len else buf.ptr + 1

-- The next chunk of the `while header.len > buf.ptr` loop; `none` is a slice out of range.
abbrev pub next_chunk : Buffer → Header → Option Buffer
next_chunk buf header =
    Option.map (chunk_of header) (slice? buf.inner buf.ptr (chunk_end buf header))

-- The end of `if let Some(chunk) = chunk { … }`: the payload of the chunk counts as sent.
abbrev pub after_chunk :
    Buffer
    → Header
    → Stream × Buffer × Poll (Unit {0})
    → Stream × Buffer × Option Buffer × Poll (Unit {0})
after_chunk buf header (s, chunk, ready _) = (
  s,
  record { inner = buf.inner; ptr = buf.ptr + (length chunk.inner - (length header.base + 2)) },
  some chunk,
  ready tt,
)
after_chunk buf header (s, chunk, p) = (s, buf, some chunk, p)

abbrev pub finish_chunk :
    Stream → Buffer → Header → Option Buffer → Stream × Buffer × Option Buffer × Poll (Unit {0})
finish_chunk s buf header none = (s, buf, none, ready tt)
finish_chunk s buf header (some chunk) =
    after_chunk buf header (send_chunk (length chunk.inner - chunk.ptr) s chunk)

-- The rest of a round of `while header.len > buf.ptr`: the next chunk is made.
abbrev pub put_chunk :
    (Stream → Buffer → Option Buffer → Stream × Buffer × Option Buffer × Poll (Unit {0}))
    → Stream
    → Buffer
    → Option Buffer
    → Option Buffer
    → Stream × Buffer × Option Buffer × Poll (Unit {0})
put_chunk again s buf chunk none = (s, buf, chunk, panicked)
put_chunk again s buf chunk (some c) = again s buf (some c)

abbrev pub after_finish :
    (Stream → Buffer → Option Buffer → Stream × Buffer × Option Buffer × Poll (Unit {0}))
    → Header
    → Stream × Buffer × Option Buffer × Poll (Unit {0})
    → Stream × Buffer × Option Buffer × Poll (Unit {0})
after_finish again header (s, buf, chunk, ready _) =
    put_chunk again s buf chunk (next_chunk buf header)
after_finish again header (s, buf, chunk, p) = (s, buf, chunk, p)

-- `while header.len > buf.ptr { … }`; `fuel` bounds the rounds.
unfoldable pub send_message :
    Header → ℕ → Stream → Buffer → Option Buffer → Stream × Buffer × Option Buffer × Poll (Unit {0})
send_message header zero s buf chunk =
    (s, buf, chunk, if ltb buf.ptr header.len then out_of_fuel else ready tt)
send_message header (suc fuel) s buf chunk = elim (ltb buf.ptr header.len) [
  | false ↦ (s, buf, chunk, ready tt)
  | true ↦ after_finish (send_message header fuel) header (finish_chunk s buf header chunk)
]

-- `while buf.inner.len() > buf.ptr { … }`: every round offers the inner stream the whole buffer.
-- The recursion is on the script, as each round takes a reply from it.
unfoldable pub send_raw : List Reply → Bytes → Buffer → Stream × Buffer × Poll (Unit {0})
send_raw [] sent buf = (
  record { script = []; sent = sent },
  buf,
  if ltb buf.ptr (length buf.inner) then pending else ready tt,
)
send_raw (takes n ∷ r) sent buf =
    let round =
      send_raw r (sent ++ take n buf.inner)
        (record buf { ptr = buf.ptr + min n (length buf.inner) }) in
    if ltb buf.ptr (length buf.inner)
    then round
    else (record { script = takes n ∷ r; sent = sent }, buf, ready tt)
send_raw (would_block ∷ r) sent buf =
    if ltb buf.ptr (length buf.inner)
    then (record { script = r; sent = sent }, buf, pending)
    else (record { script = would_block ∷ r; sent = sent }, buf, ready tt)
send_raw (breaks ∷ r) sent buf =
    if ltb buf.ptr (length buf.inner)
    then (record { script = r; sent = sent }, buf, failed)
    else (record { script = breaks ∷ r; sent = sent }, buf, ready tt)
