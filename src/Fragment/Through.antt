-- ===== src/Fragment/Through.antt =====
-- A connection that starts with no TLS handshake, and every connection behind the first record: the
-- layer passes on.
use local_proxy_rs.Base.{
  ℕ, ◌≤◌, Bool, false, List, [], ◌∷◌, ◌++◌, some, Bytes, length, ◌≡◌, ◌≢◌, refl, sym, ap, arith,
}
use mathlib.Core.Path.{subst}
use local_proxy_rs.Fragment.Inner.{Poll, ready, Reply, takes, Stream, inner_write, inner_flush}
use local_proxy_rs.Fragment.{
  new_buffer, waiting_header, sending_raw_buffer, sending_data, on_header, accept,
}
use local_proxy_rs.Fragment.Layer.{
  FragmentLayer, new_layer, flush_state, poll_flush, write_state, poll_write, poll_shutdown, tick,
  poll_read,
}
use local_proxy_rs.Fragment.Raw.{poll_flush-raw}

-- A call on a stream; what is read and shut down is the stream's own.
pub data Call : Type 0 where
  write : Bytes → Call
  flush : Call
  shutdown : (Stream → Stream × Poll (Unit {0})) → Call
  -- with the answer of a timer, if one is armed
  read : (Stream → Stream × Poll Bytes) → Bool → Call

pub data Answer : Type 0 where
  wrote : Poll ℕ → Answer
  done : Poll (Unit {0}) → Answer
  got : Poll Bytes → Answer

abbrev pub on_stream : Call → Stream → Stream × Answer
on_stream (write b) s = let (s', p) = inner_write s b in (s', wrote p)
on_stream flush s = let (s', p) = inner_flush s in (s', done p)
on_stream (shutdown f) s = let (s', p) = f s in (s', done p)
on_stream (read f elapsed) s = let (s', p) = f s in (s', got p)

abbrev pub on_layer : Call → FragmentLayer → FragmentLayer × Answer
on_layer (write b) l = let (l', p) = poll_write l b in (l', wrote p)
on_layer flush l = let (l', p) = poll_flush l in (l', done p)
on_layer (shutdown f) l = let (l', p) = poll_shutdown f l in (l', done p)
on_layer (read f elapsed) l = let (l', p) = poll_read f elapsed l in (l', got p)

abbrev pub calls : {S : Type 0} → (Call → S → S × Answer) → List Call → S → S × List Answer
calls on [] s = (s, [])
calls on (c ∷ cs) s = let (s', a) = on c s in let (s'', rest) = calls on cs s' in (s'', a ∷ rest)

-- The layer that passes on, around a stream.
abbrev passing : Stream → Bool → FragmentLayer
passing s timer = record { inner = s; state = sending_data; timer = timer }

-- A timer that is armed is dropped at the next read.
abbrev timer_after : Call → Bool → Bool
timer_after (read f elapsed) timer = false
timer_after _ timer = timer

on_layer-passing :
    (c : Call) (s : Stream) (timer : Bool)
    → on_layer c (passing s timer)
      ≡ (passing (on_stream c s).0 (timer_after c timer), (on_stream c s).1)
unfolding poll_write write_state poll_flush flush_state poll_shutdown poll_read tick
on_layer-passing (write b) s timer = refl
on_layer-passing flush s timer = refl
on_layer-passing (shutdown f) s timer = refl
on_layer-passing (read f elapsed) s timer = refl

calls-passing :
    (cs : List Call) (s : Stream) (timer : Bool)
    → let (l, answers) = calls on_layer cs (passing s timer) in
      let (s', answers') = calls on_stream cs s in (l.inner ≡ s') × (answers ≡ answers')
calls-passing [] s timer = (refl, refl)
calls-passing (c ∷ cs) s timer =
    let (same, answered) = calls-passing cs (on_stream c s).0 (timer_after c timer) in
    rw (on_layer-passing c s timer) (same, ap (λ a. (on_stream c s).1 ∷ a) answered)

-- Calls on the layer leave the stream as the same calls on the stream do, with the same answers.
abbrev pub PassesOn : List Call → FragmentLayer → Type 0
PassesOn cs l =
    let (l', answers) = calls on_layer cs l in
    let (s', answers') = calls on_stream cs l.inner in (l'.inner ≡ s') × (answers ≡ answers')

-- Once the handshake has ended, calls on the layer are those on the stream.
pub calls-PassesOn : (cs : List Call) (l : FragmentLayer) → l.state ≡ sending_data → PassesOn cs l
calls-PassesOn cs l h =
    subst (λ st. PassesOn cs (record l { state = st })) (sym h) (calls-passing cs l.inner l.timer)

-- What starts with another byte than a TLS handshake is sent raw.
accept-raw :
    (b0 : ℕ) (b : Bytes)
    → b0 ≢ 0x16
    → accept (waiting_header new_buffer) (b0 ∷ b)
      ≡ some (sending_raw_buffer (record { inner = b0 ∷ b; ptr = 0 }))
unfolding accept on_header
accept-raw b0 b h = ground arith

-- A connection whose first write starts with another byte than a TLS handshake, over a stream that
-- takes the write at its first offer: the write and a flush report success, the stream has the bytes
-- as they are, and any calls that follow, in any order, leave the stream and are answered as if they
-- were made on the stream itself.
pub calls-through :
    (b0 : ℕ) (b : Bytes) (s : Stream) (m j : ℕ) (r : List Reply) (cs : List Call)
    → b0 ≢ 0x16
    → length (b0 ∷ b) ≤ m
    → s.script ≡ takes m ∷ takes j ∷ r
    → let (l1, written) = poll_write (new_layer s) (b0 ∷ b) in
      let (l2, flushed) = poll_flush l1 in
      let (l3, answers) = calls on_layer cs l2 in
      let direct = calls on_stream cs (record { script = r; sent = s.sent ++ (b0 ∷ b) }) in
      (written ≡ ready (length (b0 ∷ b)))
      × (flushed ≡ ready tt)
      × (l3.inner ≡ direct.0)
      × (answers ≡ direct.1)
unfolding poll_write write_state
calls-through b0 b s m j r cs h le script =
    let flushes = poll_flush-raw (new_layer s) (b0 ∷ b) m j r (omega arith) le script in
    let (same, answered) =
      calls-passing cs (record { script = r; sent = s.sent ++ (b0 ∷ b) }) false in
    rw (accept-raw b0 b h, write_state) (rw flushes (refl, refl, same, answered))
