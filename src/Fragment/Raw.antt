-- ===== src/Fragment/Raw.antt =====
-- The bytes that are sent unfragmented: what is no ClientHello, what comes late, what follows a record.
use local_proxy_rs.Base.{
  ℕ, ◌+◌, ◌-◌, ◌≤◌, ◌<◌, min, ◌≡◌, ◌≢◌, refl, ap, true, false, List, ◌∷◌, ◌++◌, append_assoc,
  Option, Bytes, length, length-append, length-take, take, take-all_of_le, ltb, lt→ltb, arith,
}
use mathlib.Core.Path.{subst}
use local_proxy_rs.Fragment.Inner.{Poll, ready, Reply, takes, Stream}
use local_proxy_rs.Fragment.{
  Buffer, Header, State, waiting_header, waiting_message, sending_message, sending_raw_buffer,
  sending_data, is_waiting,
}
use local_proxy_rs.Fragment.Send.{send_message, send_raw}
use local_proxy_rs.Fragment.Accumulate.{held}
use local_proxy_rs.Fragment.Layer.{FragmentLayer, flush_state, poll_flush, read_after, poll_read}
use local_proxy_rs.Fragment.Message.{left_over, IsSending, Progress}
use local_proxy_rs.Fragment.Flush.{send_raw_nothing, rounds_le}
use local_proxy_rs.Fragment.Loop.{send_message-Progress}

-- A stream that takes the whole buffer at the first offer gets the buffer once, wherever the
-- pointer stands.
send_raw-whole :
    (inner sent : Bytes) (ptr m : ℕ) (r : List Reply)
    → ptr < length inner
    → length inner ≤ m
    → send_raw (takes m ∷ r) sent (record { inner = inner; ptr = ptr }) ≡ (
      record { script = r; sent = sent ++ inner },
      record { inner = inner; ptr = ptr + length inner },
      ready tt,
    )
unfolding send_raw
send_raw-whole inner sent ptr m r h k =
    let e : min m (length inner) ≡ length inner = omega arith in
    rw (lt→ltb ptr (length inner) h, e, take-all_of_le m inner k)
      (send_raw_nothing r (sent ++ inner) (record { inner = inner; ptr = ptr + length inner })
        (omega arith))

-- A stream that takes only the first `k` bytes of a raw buffer, and then all it is offered, gets
-- those `k` bytes and then the whole buffer again, which is not the text of the buffer: the second
-- write starts over at its first byte.
pub send_raw-resends :
    (inner sent : Bytes) (k m : ℕ) (r : List Reply)
    → 0 < k
    → k < length inner
    → length inner ≤ m
    → let (s, buf, p) = send_raw (takes k ∷ takes m ∷ r) sent (record { inner = inner; ptr = 0 }) in
      (s.sent ≡ sent ++ (take k inner ++ inner)) × (s.sent ≢ sent ++ inner) × (p ≡ ready tt)
unfolding send_raw
send_raw-resends inner sent k m r h lt le =
    let e : min k (length inner) ≡ k = omega arith in
    let t : ltb 0 (length inner) ≡ true = lt→ltb 0 (length inner) (omega arith) in
    let w = send_raw-whole inner (sent ++ take k inner) (0 + k) m r (omega arith) le in
    let run : send_raw (takes k ∷ takes m ∷ r) sent (record { inner = inner; ptr = 0 }) ≡ (
      record { script = r; sent = (sent ++ take k inner) ++ inner },
      record { inner = inner; ptr = 0 + k + length inner },
      ready tt,
    ) =
      rw (t, e) w in
    rw run (
      append_assoc sent (take k inner) inner,
      (λ same. omega (
        arith,
        ap length same,
        length-append (sent ++ take k inner) inner,
        length-append sent inner,
        length-append sent (take k inner),
        length-take k inner,
      )),
      refl,
    )

-- A message with `extra` bytes behind its record, once its fragments are out and the stream takes
-- what it is offered: the whole buffer follows, the record that the fragments carried included.
pub flush_state-trailing :
    (header : Header) (s : Stream) (buf : Buffer) (c : Option Buffer) (s' : Stream) (buf' : Buffer)
    (c' : Option Buffer) (m j : ℕ) (r : List Reply)
    → IsSending header buf c
    → header.len < length buf.inner
    → send_message header (header.len - buf.ptr + 1) s buf c ≡ (s', buf', c', ready tt)
    → s'.script ≡ takes m ∷ takes j ∷ r
    → length buf.inner ≤ m
    → flush_state s (sending_message buf header c) ≡ (
      record { script = r; sent = s.sent ++ left_over header buf c ++ buf.inner },
      sending_data,
      ready tt,
    )
unfolding flush_state
flush_state-trailing header s buf c s' buf' c' m j r h lt run script le =
    let (e, f, g) = subst (Progress header buf.inner (s.sent ++ left_over header buf c)) run (
      send_message-Progress header (header.len - buf.ptr + 1) s buf c h (rounds_le header buf c)) in
    let w =
      send_raw-whole buf'.inner s'.sent buf'.ptr m (takes j ∷ r) (omega (arith, ap length e))
        (omega (arith, ap length e)) in
    rw (run, flush_state) (rw script (rw w (rw (g, e) refl)))

-- A raw buffer that the stream takes is gone after one flush.
pub poll_flush-raw :
    (l : FragmentLayer) (b : Bytes) (m j : ℕ) (r : List Reply)
    → 0 < length b
    → length b ≤ m
    → l.inner.script ≡ takes m ∷ takes j ∷ r
    → poll_flush (record l { state = sending_raw_buffer (record { inner = b; ptr = 0 }) }) ≡ (
      record {
        inner = record { script = r; sent = l.inner.sent ++ b };
        state = sending_data;
        timer = l.timer;
      },
      ready tt,
    )
unfolding poll_flush flush_state
poll_flush-raw l b m j r pos le script =
    rw (script, poll_flush, flush_state)
      (rw (send_raw-whole b l.inner.sent 0 m (takes j ∷ r) pos le) refl)

-- A read that finds the timer run out while the layer waits for the rest of a ClientHello, of which
-- it holds some bytes, over a stream that takes all of these at the first offer and then answers a
-- flush: the bytes are sent unfragmented, once, and the read is that of the stream.
pub poll_read-elapsed :
    (read : Stream → Stream × Poll Bytes) (l : FragmentLayer) (m j : ℕ) (r : List Reply)
    → is_waiting l.state ≡ true
    → 0 < length (held l.state)
    → length (held l.state) ≤ m
    → l.inner.script ≡ takes m ∷ takes j ∷ r
    → let s : Stream = record { script = r; sent = l.inner.sent ++ held l.state } in
      poll_read read true l
      ≡ (record { inner = (read s).0; state = sending_data; timer = false }, (read s).1)
unfolding poll_read
poll_read-elapsed read l m j r wait pos le script = go l.state wait pos le
  where
    after :
        (b : Bytes)
        → 0 < length b
        → length b ≤ m
        → read_after read (
            poll_flush (record {
              inner = l.inner;
              state = sending_raw_buffer (record { inner = b; ptr = 0 });
              timer = false;
            }))
          ≡ (let s : Stream = record { script = r; sent = l.inner.sent ++ b } in
              (record { inner = (read s).0; state = sending_data; timer = false }, (read s).1))
    after b p q =
        ap (read_after read) (poll_flush-raw (record l { timer = false }) b m j r p q script)

    go :
        (st : State)
        → is_waiting st ≡ true
        → 0 < length (held st)
        → length (held st) ≤ m
        → let s : Stream = record { script = r; sent = l.inner.sent ++ held st } in
          poll_read read true (record l { state = st })
          ≡ (record { inner = (read s).0; state = sending_data; timer = false }, (read s).1)
    go (waiting_header buf) w p q = after buf.inner p q
    go (waiting_message buf header) w p q = after buf.inner p q
    go (sending_message buf header c) w p q = cc
    go (sending_raw_buffer buf) w p q = cc
    go sending_data w p q = cc
