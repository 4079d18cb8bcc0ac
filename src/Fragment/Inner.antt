-- ===== src/Fragment/Inner.antt =====
-- The stream below the layer, `AsyncWrite` of tokio: it answers each poll as the reply at the head
-- of a script says, and records the bytes that it took.
use local_proxy_rs.Base.{ℕ, List, [], ◌∷◌, ◌++◌, Bytes, length, take, min}

-- `Poll<Result<A>>`, with a panic of the caller and a loop that its fuel did not cover.
pub data Poll (A : Type 0) : Type 0 where
  pending : Poll A
  ready : A → Poll A
  failed : Poll A
  panicked : Poll A
  out_of_fuel : Poll A

pub data Reply : Type 0 where
  -- take at most this many bytes; a flush is done
  takes : ℕ → Reply
  would_block : Reply
  breaks : Reply

pub record Stream : Type 0 where
  pub script : List Reply
  pub sent : Bytes

-- A write accepts a first part of the bytes that it is offered, and says how long it is.
abbrev pub write_by : List Reply → Bytes → Bytes → Stream × Poll ℕ
write_by [] sent offered = (record { script = []; sent = sent }, pending)
write_by (takes n ∷ r) sent offered =
    (record { script = r; sent = sent ++ take n offered }, ready (min n (length offered)))
write_by (would_block ∷ r) sent offered = (record { script = r; sent = sent }, pending)
write_by (breaks ∷ r) sent offered = (record { script = r; sent = sent }, failed)

abbrev pub flush_by : List Reply → Bytes → Stream × Poll (Unit {0})
flush_by [] sent = (record { script = []; sent = sent }, pending)
flush_by (takes n ∷ r) sent = (record { script = r; sent = sent }, ready tt)
flush_by (would_block ∷ r) sent = (record { script = r; sent = sent }, pending)
flush_by (breaks ∷ r) sent = (record { script = r; sent = sent }, failed)

abbrev pub inner_write : Stream → Bytes → Stream × Poll ℕ
inner_write s offered = write_by s.script s.sent offered

abbrev pub inner_flush : Stream → Stream × Poll (Unit {0})
inner_flush s = flush_by s.script s.sent
