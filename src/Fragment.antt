-- ===== src/Fragment.antt =====
-- local_proxy/src/outbound/layer/fragment.rs: the layer that sends a TLS ClientHello one payload byte
-- to a TLS record. Here its states and what a write does to them; Send has the loops of a
-- flush, Layer the polls, and the other children the proofs.
pub mod Inner
mod Send
pub mod Layer
mod Accumulate
mod Chunk
mod Message
mod Round
mod Loop
mod Flush
mod Records
mod Hello
mod Raw
mod Close
mod Through
mod Pays
mod Ready
mod Tests
use local_proxy_rs.Base.{
  ℕ, zero, suc, ◌+◌, ◌-◌, ◌%◌, min, Bool, true, false, not, ◌&&◌, ◌||◌, List, [], ◌∷◌, ◌++◌, Option,
  none, some, Bytes, length, take, slice?, get_elem?, u16_to_be_bytes, u16_from_be_bytes, ltb, leb,
  ◌==◌, if◌then◌else◌,
}
use mathlib.Core.Option

pub record Buffer : Type 0 where
  pub inner : Bytes
  pub ptr : ℕ

abbrev pub new_buffer : Buffer
new_buffer = record { inner = []; ptr = 0 }

pub record Header : Type 0 where
  pub base : Bytes
  pub len : ℕ

-- `Header::new`: the type and version bytes, and where the record ends.
abbrev pub new_header : Bytes → Option Header
new_header (b0 ∷ b1 ∷ b2 ∷ b3 ∷ b4 ∷ rest) =
    some (record { base = b0 ∷ b1 ∷ b2 ∷ []; len = u16_from_be_bytes b3 b4 + 5 })
new_header _ = none

pub data State : Type 0 where
  waiting_header : Buffer → State
  waiting_message : Buffer → Header → State
  sending_message : Buffer → Header → Option Buffer → State
  sending_raw_buffer : Buffer → State
  sending_data : State

abbrev pub is_waiting : State → Bool
is_waiting (waiting_header buf) = true
is_waiting (waiting_message buf header) = true
is_waiting _ = false

abbrev pub is_sending_buffer : State → Bool
is_sending_buffer (sending_message buf header chunk) = true
is_sending_buffer (sending_raw_buffer buf) = true
is_sending_buffer _ = false

abbrev pub is_handshake_ended : State → Bool
is_handshake_ended sending_data = true
is_handshake_ended _ = false

abbrev pub try_into_raw_send : State → State × Bool
try_into_raw_send (waiting_header buf) =
    (sending_raw_buffer (record { inner = buf.inner; ptr = 0 }), true)
try_into_raw_send (waiting_message buf header) =
    (sending_raw_buffer (record { inner = buf.inner; ptr = 0 }), true)
try_into_raw_send s = (s, false)

-- The block `'label: { … }` of `poll_write`, on the buffer that the write has been added to.
-- `buf.inner[0]` is read only of a buffer that is not empty, `buf.inner[5]` of six bytes or more;
-- `none` is the panic of `Header::new(..).unwrap()`.
pub on_header : Bytes → Option State
on_header inner =
    let waiting = waiting_header (record { inner = inner; ptr = 0 }) in
    let raw = sending_raw_buffer (record { inner = inner; ptr = 0 }) in
    elim (get_elem? inner 0) [
      | none ↦ some waiting
      | some b0 ↦ if not (b0 == 0x16) then some raw else elim (get_elem? inner 5) [
        | none ↦ some waiting
        | some b5 ↦
            if not (b5 == 0x01)
            then some raw
            else Option.map (waiting_message (record { inner = inner; ptr = 5 })) (new_header inner)
      ]
    ]

-- The last block of `poll_write`: a complete record starts the sending.
abbrev pub on_message : Bytes → State → State
on_message more (waiting_message buf header) =
    let inner = buf.inner ++ more in
    if leb header.len (length inner)
    then sending_message (record { inner = inner; ptr = buf.ptr }) header none
    else waiting_message (record { inner = inner; ptr = buf.ptr }) header
on_message more s = s

-- What `poll_write` does to the state once nothing is being sent; a header takes in the whole write.
unfoldable pub accept : State → Bytes → Option State
unfolding on_header
accept (waiting_header buf) buf_write =
    Option.map (on_message []) (on_header (buf.inner ++ buf_write))
accept s buf_write = some (on_message buf_write s)
