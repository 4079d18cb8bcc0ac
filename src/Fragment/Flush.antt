-- ===== src/Fragment/Flush.antt =====
-- `poll_flush` of the layer, polled as often as it takes.
use local_proxy_rs.Base.{
  ℕ, zero, suc, ◌+◌, ◌-◌, ◌≤◌, ◌≡◌, refl, sym, ap, ◌∙◌, List, [], ◌∷◌, ◌++◌, append-nil, Option,
  none, some, Bytes, length, le→ltb, arith,
}
use mathlib.Core.Path.{subst}
use local_proxy_rs.Fragment.Inner.{
  Poll, pending, ready, failed, panicked, out_of_fuel, Reply, takes, would_block, breaks, Stream,
  inner_flush,
}
use local_proxy_rs.Fragment.{
  Buffer, Header, State, waiting_header, waiting_message, sending_message, sending_raw_buffer,
  sending_data,
}
use local_proxy_rs.Fragment.Send.{send_raw}
use local_proxy_rs.Fragment.Chunk.{Settled}
use local_proxy_rs.Fragment.Message.{left_over, IsSending, Progress, rounds}
use local_proxy_rs.Fragment.Loop.{send_message-Progress}
use local_proxy_rs.Fragment.Layer.{
  FragmentLayer, after_raw, flush_raw, after_message, flush_state, poll_flush,
}

-- What a layer that has begun to send its message has yet to bring to the stream.
abbrev pub unsent : State → Bytes
unsent (sending_message buf header c) = left_over header buf c
unsent _ = []

-- A layer that is sending a buffer which holds one record and nothing more, or has sent it.
abbrev pub IsClean : State → Type 0
IsClean (sending_message buf header c) = IsSending header buf c × (header.len ≡ length buf.inner)
IsClean sending_data = Unit
IsClean _ = ⊥

-- What a poll of such a layer keeps.
abbrev pub Conserves : Bytes → Stream × State × Poll (Unit {0}) → Type 0
Conserves total (s, state, p) =
    IsClean state × (s.sent ++ unsent state ≡ total) × Settled p (state ≡ sending_data)

inner_flush-Conserves :
    (script : List Reply) (sent : Bytes)
    → Conserves sent (
        let (s2, q) = inner_flush (record { script = script; sent = sent }) in
        (s2, sending_data, q))
inner_flush-Conserves [] sent = (tt, append-nil sent, tt)
inner_flush-Conserves (takes n ∷ r) sent = (tt, append-nil sent, refl)
inner_flush-Conserves (would_block ∷ r) sent = (tt, append-nil sent, tt)
inner_flush-Conserves (breaks ∷ r) sent = (tt, append-nil sent, tt)

-- Behind the whole message there is nothing raw to send.
pub send_raw_nothing :
    (script : List Reply) (sent : Bytes) (buf : Buffer)
    → length buf.inner ≤ buf.ptr
    → send_raw script sent buf ≡ (record { script = script; sent = sent }, buf, ready tt)
unfolding send_raw
send_raw_nothing [] sent buf h = rw (le→ltb buf.ptr (length buf.inner) h) refl
send_raw_nothing (takes n ∷ r) sent buf h = rw (le→ltb buf.ptr (length buf.inner) h) refl
send_raw_nothing (would_block ∷ r) sent buf h = rw (le→ltb buf.ptr (length buf.inner) h) refl
send_raw_nothing (breaks ∷ r) sent buf h = rw (le→ltb buf.ptr (length buf.inner) h) refl

flush_raw-Conserves :
    (s : Stream) (buf : Buffer) → length buf.inner ≤ buf.ptr → Conserves s.sent (flush_raw s buf)
flush_raw-Conserves s buf h =
    subst (λ r. Conserves s.sent (after_raw r)) (sym (send_raw_nothing s.script s.sent buf h))
      (inner_flush-Conserves s.script s.sent)

after_message-Conserves :
    (header : Header) (inner total : Bytes) (r : Stream × Buffer × Option Buffer × Poll (Unit {0}))
    → header.len ≡ length inner
    → Progress header inner total r
    → Conserves total (after_message header r)
after_message-Conserves header inner total (s, buf, c, ready _) h (e, f, g) =
    subst (λ t. Conserves t (flush_raw s buf)) g
      (flush_raw-Conserves s buf (omega (arith, ap length e)))
after_message-Conserves header inner total (s, buf, c, pending) h (e, f, g) =
    ((f, h ∙ ap length (sym e)), g, tt)
after_message-Conserves header inner total (s, buf, c, failed) h (e, f, g) =
    ((f, h ∙ ap length (sym e)), g, tt)
after_message-Conserves header inner total (s, buf, c, panicked) h d = absurd d
after_message-Conserves header inner total (s, buf, c, out_of_fuel) h d = absurd d

pub rounds_le :
    (header : Header) (buf : Buffer) (c : Option Buffer)
    → rounds header buf c ≤ header.len - buf.ptr + 1
rounds_le header buf none = omega arith
rounds_le header buf (some c) = omega arith

flush_state-Conserves :
    (s : Stream) (state : State)
    → IsClean state
    → Conserves (s.sent ++ unsent state) (flush_state s state)
unfolding flush_state
flush_state-Conserves s (waiting_header buf) h = absurd h
flush_state-Conserves s (waiting_message buf header) h = absurd h
flush_state-Conserves s (sending_message buf header c) (h, e) =
    after_message-Conserves header buf.inner (s.sent ++ left_over header buf c) _ e
      (send_message-Progress header (header.len - buf.ptr + 1) s buf c h (rounds_le header buf c))
flush_state-Conserves s (sending_raw_buffer buf) h = absurd h
flush_state-Conserves s sending_data h =
    subst (λ t. Conserves t (let (s2, q) = inner_flush s in (s2, sending_data, q)))
      (sym (append-nil s.sent)) (inner_flush-Conserves s.script s.sent)

-- `poll_flush` called again and again; the result is that of the last call.
unfoldable pub poll_flushes : ℕ → FragmentLayer → FragmentLayer × Poll (Unit {0})
poll_flushes zero l = poll_flush l
poll_flushes (suc n) l = poll_flushes n (poll_flush l).0

-- What any number of polls keeps, of a layer with `total` to bring to the stream.
pub record IsFlushed (total : Bytes) (r : FragmentLayer × Poll (Unit {0})) : Type 0 where
  pub clean : IsClean r.0.state
  pub conserved : r.0.inner.sent ++ unsent r.0.state ≡ total
  pub settled : Settled r.1 ((r.0.inner.sent ≡ total) × (r.0.state ≡ sending_data))

settle :
    (p : Poll (Unit {0})) (sent total : Bytes) (state : State)
    → sent ++ unsent state ≡ total
    → Settled p (state ≡ sending_data)
    → Settled p ((sent ≡ total) × (state ≡ sending_data))
settle (ready _) sent total state h e = (sym (append-nil sent) ∙ (rw e at h), e)
settle pending sent total state h e = tt
settle failed sent total state h e = tt
settle panicked sent total state h e = e
settle out_of_fuel sent total state h e = e

pub poll_flushes-IsFlushed :
    (n : ℕ) (l : FragmentLayer)
    → IsClean l.state
    → IsFlushed (l.inner.sent ++ unsent l.state) (poll_flushes n l)
unfolding poll_flushes poll_flush
poll_flushes-IsFlushed zero l h =
    let (c, e, d) = flush_state-Conserves l.inner l.state h in
    record { clean = c; conserved = e; settled = settle _ _ _ _ e d }
poll_flushes-IsFlushed (suc n) l h =
    let (c, e, d) = flush_state-Conserves l.inner l.state h in
    subst (λ t. IsFlushed t (poll_flushes n (poll_flush l).0)) e
      (poll_flushes-IsFlushed n (poll_flush l).0 c)
