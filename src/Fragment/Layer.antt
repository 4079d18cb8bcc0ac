-- ===== src/Fragment/Layer.antt =====
-- `FragmentLayer`: its `AsyncWrite` and `AsyncRead` over the state machine.
use local_proxy_rs.Base.{ℕ, ◌+◌, ◌-◌, Bool, true, false, Option, none, some, Bytes, length}
use local_proxy_rs.Fragment.Inner.{
  Poll, pending, ready, failed, panicked, out_of_fuel, Stream, inner_write, inner_flush,
}
use local_proxy_rs.Fragment.{
  Buffer, new_buffer, Header, State, waiting_header, sending_message, sending_raw_buffer,
  sending_data, is_waiting, is_sending_buffer, is_handshake_ended, try_into_raw_send, accept,
}
use local_proxy_rs.Fragment.Send.{send_message, send_raw}

pub record FragmentLayer : Type 0 where
  pub inner : Stream
  pub state : State
  -- whether the timer of one second is armed
  pub timer : Bool

abbrev pub new_layer : Stream → FragmentLayer
new_layer s = record { inner = s; state = waiting_header new_buffer; timer = false }

-- The end of `poll_flush`: `*state = State::SendingData`, and the inner stream is flushed.
abbrev pub after_raw : Stream × Buffer × Poll (Unit {0}) → Stream × State × Poll (Unit {0})
after_raw (s, buf, ready _) = let (s', p) = inner_flush s in (s', sending_data, p)
after_raw (s, buf, p) = (s, sending_raw_buffer buf, p)

-- `poll_flush` from `State::SendingRawBuffer` on.
abbrev pub flush_raw : Stream → Buffer → Stream × State × Poll (Unit {0})
flush_raw s buf = after_raw (send_raw s.script s.sent buf)

-- The message is sent: `*state = State::SendingRawBuffer { buf: buf_ }`, its pointer as it stands.
abbrev pub after_message :
    Header → Stream × Buffer × Option Buffer × Poll (Unit {0}) → Stream × State × Poll (Unit {0})
after_message header (s, buf, chunk, ready _) = flush_raw s buf
after_message header (s, buf, chunk, p) = (s, sending_message buf header chunk, p)

unfoldable pub flush_state : Stream → State → Stream × State × Poll (Unit {0})
flush_state s (sending_message buf header chunk) =
    after_message header (send_message header (header.len - buf.ptr + 1) s buf chunk)
flush_state s (sending_raw_buffer buf) = flush_raw s buf
flush_state s state = let (s', p) = inner_flush s in (s', state, p)

unfoldable pub poll_flush : FragmentLayer → FragmentLayer × Poll (Unit {0})
poll_flush l =
    let (s, state, p) = flush_state l.inner l.state in (record l { inner = s; state = state }, p)

-- `poll_write` behind its flush.
unfoldable pub write_state : FragmentLayer → Bytes → FragmentLayer × Poll ℕ
write_state l buf_write = elim (is_handshake_ended l.state) [
  | true ↦ (let (s, p) = inner_write l.inner buf_write in (record l { inner = s }, p))
  | false ↦ elim (accept l.state buf_write) [
    | none ↦ (l, panicked)
    | some state ↦ (record l { state = state }, ready (length buf_write))
  ]
]

-- `ready!(self.as_mut().poll_flush(cx))?`, and the rest of `poll_write`.
abbrev pub write_after : Bytes → FragmentLayer × Poll (Unit {0}) → FragmentLayer × Poll ℕ
write_after buf_write (l, ready _) = write_state l buf_write
write_after buf_write (l, pending) = (l, pending)
write_after buf_write (l, failed) = (l, failed)
write_after buf_write (l, panicked) = (l, panicked)
write_after buf_write (l, out_of_fuel) = (l, out_of_fuel)

unfoldable pub poll_write : FragmentLayer → Bytes → FragmentLayer × Poll ℕ
poll_write l buf_write = elim (is_sending_buffer l.state) [
  | false ↦ write_state l buf_write
  | true ↦ write_after buf_write (poll_flush l)
]

-- The timer part of `poll_read`; `elapsed` is the answer of the timer when it is polled.
unfoldable pub tick : Bool → FragmentLayer → FragmentLayer
tick elapsed l = elim (is_waiting l.state) [
  | false ↦ record l { timer = false }
  | true ↦ elim elapsed [
    | true ↦ record l { timer = false; state = (try_into_raw_send l.state).0 }
    | false ↦ record l { timer = true }
  ]
]

-- `poll_read` of the inner stream, which `read` stands for.
abbrev pub inner_read : (Stream → Stream × Poll Bytes) → FragmentLayer → FragmentLayer × Poll Bytes
inner_read read l = let (s, p) = read l.inner in (record l { inner = s }, p)

-- `let _ = self.as_mut().poll_flush(cx)?`: a flush that is pending does not hold the read up.
abbrev pub read_after :
    (Stream → Stream × Poll Bytes) → FragmentLayer × Poll (Unit {0}) → FragmentLayer × Poll Bytes
read_after read (l, ready _) = inner_read read l
read_after read (l, pending) = inner_read read l
read_after read (l, failed) = (l, failed)
read_after read (l, panicked) = (l, panicked)
read_after read (l, out_of_fuel) = (l, out_of_fuel)

abbrev pub read_from : (Stream → Stream × Poll Bytes) → FragmentLayer → FragmentLayer × Poll Bytes
read_from read l = elim (is_sending_buffer l.state) [
  | false ↦ inner_read read l
  | true ↦ read_after read (poll_flush l)
]

-- `poll_shutdown`, which passes on to the stream, that `shutdown` stands for.
unfoldable pub poll_shutdown :
    (Stream → Stream × Poll (Unit {0})) → FragmentLayer → FragmentLayer × Poll (Unit {0})
poll_shutdown shutdown l = let (s, p) = shutdown l.inner in (record l { inner = s }, p)

unfoldable pub poll_read :
    (Stream → Stream × Poll Bytes) → Bool → FragmentLayer → FragmentLayer × Poll Bytes
unfolding tick
poll_read read elapsed l = read_from read (tick elapsed l)
