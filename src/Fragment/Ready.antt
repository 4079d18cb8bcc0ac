-- ===== src/Fragment/Ready.antt =====
-- A stream that answers often enough gets the whole message in one poll.
use local_proxy_rs.Base.{
  ℕ, suc, ◌+◌, ◌-◌, ◌*◌, ◌≤◌, ◌<◌, ◌≡◌, refl, sym, ap, ◌∙◌, List, [], ◌∷◌, ◌++◌, Option, Bytes,
  length, length-append, arith,
}
use mathlib.Core.Path.{subst}
use local_proxy_rs.Fragment.Inner.{
  Poll, pending, ready, failed, panicked, out_of_fuel, Reply, takes, would_block, breaks, Stream,
  inner_flush,
}
use local_proxy_rs.Fragment.{
  Buffer, Header, State, waiting_header, waiting_message, sending_message, sending_raw_buffer,
  sending_data,
}
use local_proxy_rs.Fragment.Send.{send_raw}
use local_proxy_rs.Fragment.Chunk.{Settled}
use local_proxy_rs.Fragment.Pays.{credit, Pays, send_message-Pays, send_raw-Pays}
use local_proxy_rs.Fragment.Flush.{IsClean, unsent, poll_flushes, poll_flushes-IsFlushed}
use local_proxy_rs.Fragment.Layer.{
  FragmentLayer, new_layer, after_raw, after_message, flush_state, poll_flush,
}
use local_proxy_rs.Fragment.Message.{fragments}
use local_proxy_rs.Fragment.Accumulate.{client_hello}
use local_proxy_rs.Fragment.Hello.{
  poll_writes, concat, NonEmpty, sending_hello, poll_writes-sending_hello, sending_hello-IsClean,
  unsent-sending_hello,
}

-- A poll of the whole layer that is held up has used the replies up.
abbrev HeldUp : ℕ → Stream × State × Poll (Unit {0}) → Type 0
HeldUp m (s, state, ready _) = Unit
HeldUp m (s, state, pending) = m ≤ 2 * length s.sent + 1
HeldUp m (s, state, failed) = m ≤ 2 * length s.sent + 1
HeldUp m (s, state, panicked) = Unit
HeldUp m (s, state, out_of_fuel) = Unit

inner_flush-HeldUp :
    (m : ℕ) (script : List Reply) (sent : Bytes) (state : State)
    → m ≤ 2 * length sent + credit script
    → HeldUp m (let (s, p) = inner_flush (record { script = script; sent = sent }) in (s, state, p))
inner_flush-HeldUp m [] sent state h = omega arith
inner_flush-HeldUp m (takes n ∷ r) sent state h = tt
inner_flush-HeldUp m (would_block ∷ r) sent state h = omega arith
inner_flush-HeldUp m (breaks ∷ r) sent state h = omega arith

after_raw-HeldUp :
    (m : ℕ) (r : Stream × Buffer × Poll (Unit {0})) → Pays m r.0 r.2 → HeldUp m (after_raw r)
after_raw-HeldUp m (s, buf, ready _) h = inner_flush-HeldUp m s.script s.sent sending_data h
after_raw-HeldUp m (s, buf, pending) h = h
after_raw-HeldUp m (s, buf, failed) h = h
after_raw-HeldUp m (s, buf, panicked) h = h
after_raw-HeldUp m (s, buf, out_of_fuel) h = h

after_message-HeldUp :
    (m : ℕ) (header : Header) (r : Stream × Buffer × Option Buffer × Poll (Unit {0}))
    → Pays m r.0 r.3
    → HeldUp m (after_message header r)
after_message-HeldUp m header (s, buf, c, ready _) h =
    after_raw-HeldUp m (send_raw s.script s.sent buf) (send_raw-Pays m s.script s.sent buf h)
after_message-HeldUp m header (s, buf, c, pending) h = h
after_message-HeldUp m header (s, buf, c, failed) h = h
after_message-HeldUp m header (s, buf, c, panicked) h = h
after_message-HeldUp m header (s, buf, c, out_of_fuel) h = h

flush_state-HeldUp :
    (m : ℕ) (s : Stream) (state : State)
    → m ≤ 2 * length s.sent + credit s.script
    → HeldUp m (flush_state s state)
unfolding flush_state
flush_state-HeldUp m s (waiting_header buf) h =
    inner_flush-HeldUp m s.script s.sent (waiting_header buf) h
flush_state-HeldUp m s (waiting_message buf header) h =
    inner_flush-HeldUp m s.script s.sent (waiting_message buf header) h
flush_state-HeldUp m s (sending_message buf header c) h =
    after_message-HeldUp m header _
      (send_message-Pays header (header.len - buf.ptr + 1) m s buf c h)
flush_state-HeldUp m s (sending_raw_buffer buf) h =
    after_raw-HeldUp m _ (send_raw-Pays m s.script s.sent buf h)
flush_state-HeldUp m s sending_data h = inner_flush-HeldUp m s.script s.sent sending_data h

-- Replies enough for what is unsent rule out that the poll was held up.
ready_of :
    (m : ℕ) (total : Bytes) (r : Stream × State × Poll (Unit {0}))
    → HeldUp m r
    → r.0.sent ++ unsent r.1 ≡ total
    → Settled r.2 ((r.0.sent ≡ total) × (r.1 ≡ sending_data))
    → 2 * length total + 1 < m
    → (r.2 ≡ ready tt) × (r.0.sent ≡ total)
ready_of m total (s, state, ready _) h e k lt = (refl, k.0)
ready_of m total (s, state, pending) h e k lt =
    absurd (omega (arith, length-append s.sent (unsent state), ap length e))
ready_of m total (s, state, failed) h e k lt =
    absurd (omega (arith, length-append s.sent (unsent state), ap length e))
ready_of m total (s, state, panicked) h e k lt = absurd k
ready_of m total (s, state, out_of_fuel) h e k lt = absurd k

-- With two replies for each byte that is unsent, and two more, before the stream below first holds
-- the layer up, a single poll of the flush is ready and has sent everything.
pub poll_flush-ready :
    (l : FragmentLayer)
    → IsClean l.state
    → 2 * length (unsent l.state) + 1 < credit l.inner.script
    → ((poll_flush l).1 ≡ ready tt) × ((poll_flush l).0.inner.sent ≡ l.inner.sent ++ unsent l.state)
unfolding poll_flush poll_flushes
poll_flush-ready l h lt =
    let f = poll_flushes-IsFlushed 0 l h in
    ready_of (2 * length l.inner.sent + credit l.inner.script) _ (flush_state l.inner l.state)
      (flush_state-HeldUp _ l.inner l.state (omega arith)) f.conserved f.settled
      (omega (arith, length-append l.inner.sent (unsent l.state)))

length-fragments :
    (t v1 v2 : ℕ) (m : Bytes) → length (fragments (t ∷ v1 ∷ v2 ∷ []) m) ≡ 6 * length m
length-fragments t v1 v2 [] = refl
length-fragments t v1 v2 (b ∷ m) = omega (arith, length-fragments t v1 v2 m)

-- A ClientHello in whatever writes that are not empty, over a stream that answers two polls for each
-- byte of its fragments, and two more, before it first holds the layer up: the first poll of the
-- flush is ready, and every fragment is on the stream.
pub poll_flush-hello_ready :
    (v1 v2 hi lo : ℕ) (t : Bytes) (ws : List Bytes) (s : Stream)
    → hi * 256 + lo ≡ suc (length t)
    → NonEmpty ws
    → concat ws ≡ client_hello v1 v2 hi lo t
    → 12 * suc (length t) + 1 < credit s.script
    → ((poll_flush (poll_writes (new_layer s) ws)).1 ≡ ready tt)
      × ((poll_flush (poll_writes (new_layer s) ws)).0.inner.sent
          ≡ s.sent ++ fragments (0x16 ∷ v1 ∷ v2 ∷ []) (1 ∷ t))
poll_flush-hello_ready v1 v2 hi lo t ws s n ne e lt =
    let u = unsent-sending_hello v1 v2 hi lo t n s in
    let (a, b) =
      poll_flush-ready (sending_hello s v1 v2 hi lo t) (sending_hello-IsClean v1 v2 hi lo t n s)
        (omega (arith, ap length u, length-fragments 0x16 v1 v2 (1 ∷ t))) in
    subst
      (λ l.
        ((poll_flush l).1 ≡ ready tt)
        × ((poll_flush l).0.inner.sent ≡ s.sent ++ fragments (0x16 ∷ v1 ∷ v2 ∷ []) (1 ∷ t)))
      (sym (poll_writes-sending_hello v1 v2 hi lo t ws s n ne e)) (a, b ∙ ap (λ x. s.sent ++ x) u)
