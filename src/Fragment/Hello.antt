-- ===== src/Fragment/Hello.antt =====
-- A ClientHello through the layer, from the first write to the last poll.
use local_proxy_rs.Base.{
  ℕ, suc, ◌+◌, ◌*◌, ◌<◌, ◌≡◌, refl, sym, ap, ◌∙◌, true, false, List, [], ◌∷◌, ◌++◌, append_assoc,
  append-nil, none, some, Bytes, length, length-append, All, drop, take-all_of_le, arith,
}
use mathlib.Core.Path.{subst}
use local_proxy_rs.Fragment.Inner.{Stream}
use local_proxy_rs.Fragment.{new_buffer, State, waiting_header, sending_message, is_waiting, accept}
use local_proxy_rs.Fragment.Chunk.{Settled, Settled_map}
use local_proxy_rs.Fragment.Layer.{FragmentLayer, new_layer, write_state, poll_write}
use local_proxy_rs.Fragment.Accumulate.{accept-append, accept_prefix, accept_whole, client_hello}
use local_proxy_rs.Fragment.Message.{fragments}
use local_proxy_rs.Fragment.Through.{Call, PassesOn, calls-PassesOn}
use local_proxy_rs.Fragment.Flush.{IsClean, unsent, poll_flushes, poll_flushes-IsFlushed}
use local_proxy_rs.Fragment.Records.{
  TlsRecord, read_records, reassemble, one_each, read_records-fragments, reassemble-one_each,
  one_each-All,
}

-- Writes one after the other.
unfoldable pub poll_writes : FragmentLayer → List Bytes → FragmentLayer
poll_writes l [] = l
poll_writes l (w ∷ ws) = poll_writes (poll_write l w).0 ws

abbrev pub concat : List Bytes → Bytes
concat [] = []
concat (w ∷ ws) = w ++ concat ws

-- The layer that sends a whole ClientHello.
abbrev pub sending_hello : Stream → ℕ → ℕ → ℕ → ℕ → Bytes → FragmentLayer
sending_hello s v1 v2 hi lo t = record {
  inner = s;
  state =
      sending_message (record { inner = client_hello v1 v2 hi lo t; ptr = 5 })
        (record { base = 0x16 ∷ v1 ∷ v2 ∷ []; len = hi * 256 + lo + 5 }) none;
  timer = false;
}

poll_write_waiting :
    (l : FragmentLayer) (w : Bytes) {s : State}
    → is_waiting l.state ≡ true
    → accept l.state w ≡ some s
    → (poll_write l w).0 ≡ record l { state = s }
unfolding poll_write write_state
poll_write_waiting l w h e = ground arith

abbrev pub NonEmpty : List Bytes → Type 0
NonEmpty = All (λ w. 0 < length w)

concat_nonempty : (w : Bytes) (ws : List Bytes) → NonEmpty (w ∷ ws) → 0 < length (concat (w ∷ ws))
concat_nonempty w ws h = omega (arith, length-append w (concat ws), h.0)

module _ (v1 v2 hi lo : ℕ) (t : Bytes) (n : hi * 256 + lo ≡ suc (length t)) where
  -- The writes that are still to come complete the ClientHello whose first part `p` has come.
  poll_writes-hello :
      (ws : List Bytes) (p : Bytes) (l : FragmentLayer)
      → accept (waiting_header new_buffer) p ≡ some l.state
      → is_waiting l.state ≡ true
      → l.timer ≡ false
      → NonEmpty ws
      → 0 < length (concat ws)
      → p ++ concat ws ≡ client_hello v1 v2 hi lo t
      → poll_writes l ws ≡ sending_hello l.inner v1 v2 hi lo t
  unfolding poll_writes
  poll_writes-hello [] p l a w tm ne h e = absurd (omega arith)
  poll_writes-hello (w ∷ []) p l a wait tm ne h e =
      let b : accept l.state w ≡ some (sending_hello l.inner v1 v2 hi lo t).state =
        accept-append p w a wait
        ∙ ap (accept (waiting_header new_buffer)) (ap (λ x. p ++ x) (sym (append-nil w)) ∙ e)
        ∙ accept_whole v1 v2 hi lo t n in
      poll_write_waiting l w wait b ∙ ground arith
  poll_writes-hello (w ∷ w' ∷ ws) p l a wait tm ne h e =
      let e' : (p ++ w) ++ concat (w' ∷ ws) ≡ client_hello v1 v2 hi lo t =
        append_assoc p w (concat (w' ∷ ws)) ∙ e in
      let more : 0 < length (concat (w' ∷ ws)) = concat_nonempty w' ws ne.1 in
      let (s, b, c) = accept_prefix (p ++ w) (concat (w' ∷ ws)) v1 v2 hi lo t e' n more in
      rw (poll_write_waiting l w wait (accept-append p w a wait ∙ b))
        (poll_writes-hello (w' ∷ ws) (p ++ w) (record l { state = s }) b c tm ne.1 more e')

-- What a receiver gets of the bytes `w`: records of the ClientHello's type and version, with one byte
-- each, which carry the message `1 ∷ t`.
abbrev pub Receives : Bytes → Bytes → Bytes → Type 0
Receives base message w =
    (rs : List TlsRecord) × (read_records (length message) w ≡ some rs)
    × All (λ r. (r.base ≡ base) × (length r.payload ≡ 1)) rs
    × (reassemble rs ≡ message)

-- Sent in full, the message of a ClientHello is its fragments.
sent-Receives :
    (t v1 v2 : ℕ) (message : Bytes) (sent sent' : Bytes)
    → sent' ≡ sent ++ fragments (t ∷ v1 ∷ v2 ∷ []) message
    → (w : Bytes) × (sent' ≡ sent ++ w) × Receives (t ∷ v1 ∷ v2 ∷ []) message w
sent-Receives t v1 v2 message sent sent' e =
    let base : Bytes = t ∷ v1 ∷ v2 ∷ [] in
    (
      fragments base message,
      e,
      (
        one_each base message,
        read_records-fragments t v1 v2 message (length message) (omega arith),
        one_each-All base message,
        reassemble-one_each base message,
      ),
    )

module _ (v1 v2 hi lo : ℕ) (t : Bytes) (n : hi * 256 + lo ≡ suc (length t)) where
  pub sending_hello-IsClean : (s : Stream) → IsClean (sending_hello s v1 v2 hi lo t).state
  sending_hello-IsClean s = (
    record { base = refl; complete = omega arith; within = omega arith; chunk = tt },
    omega arith,
  )

  pub unsent-sending_hello :
      (s : Stream)
      → unsent (sending_hello s v1 v2 hi lo t).state ≡ fragments (0x16 ∷ v1 ∷ v2 ∷ []) (1 ∷ t)
  unsent-sending_hello s =
      ap (λ m. fragments (0x16 ∷ v1 ∷ v2 ∷ []) (drop 5 m))
        (take-all_of_le (hi * 256 + lo + 5) (client_hello v1 v2 hi lo t) (omega arith))

-- The writes leave the layer sending the ClientHello.
pub poll_writes-sending_hello :
    (v1 v2 hi lo : ℕ) (t : Bytes) (ws : List Bytes) (s : Stream)
    → hi * 256 + lo ≡ suc (length t)
    → NonEmpty ws
    → concat ws ≡ client_hello v1 v2 hi lo t
    → poll_writes (new_layer s) ws ≡ sending_hello s v1 v2 hi lo t
unfolding accept
poll_writes-sending_hello v1 v2 hi lo t ws s n ne e =
    poll_writes-hello v1 v2 hi lo t n ws [] (new_layer s) refl refl refl ne
      (omega (arith, ap length e)) e

-- However a ClientHello is cut into writes that are not empty, whatever the stream below answers to
-- however many polls of the flush after them: no poll panics or hangs, and once one is ready, the
-- bytes behind those sent before are TLS records of the same type and version with one byte of
-- payload each, a receiver puts the same handshake message together from them, and any calls that
-- follow are as calls on the stream itself.
pub poll_flush-hello :
    (v1 v2 hi lo : ℕ) (t : Bytes) (ws : List Bytes) (polls : ℕ) (s : Stream) (cs : List Call)
    → hi * 256 + lo ≡ suc (length t)
    → NonEmpty ws
    → concat ws ≡ client_hello v1 v2 hi lo t
    → let (l, p) = poll_flushes polls (poll_writes (new_layer s) ws) in
      Settled p (
        ((w : Bytes) × (l.inner.sent ≡ s.sent ++ w) × Receives (0x16 ∷ v1 ∷ v2 ∷ []) (1 ∷ t) w)
        × PassesOn cs l)
poll_flush-hello v1 v2 hi lo t ws polls s cs n ne e =
    let l = sending_hello s v1 v2 hi lo t in
    let r : poll_writes (new_layer s) ws ≡ l =
      poll_writes-sending_hello v1 v2 hi lo t ws s n ne e in
    let f = poll_flushes-IsFlushed polls l (sending_hello-IsClean v1 v2 hi lo t n s) in
    subst
      (λ m. Settled (poll_flushes polls m).1 (
        ((w : Bytes) × ((poll_flushes polls m).0.inner.sent ≡ s.sent ++ w)
          × Receives (0x16 ∷ v1 ∷ v2 ∷ []) (1 ∷ t) w)
        × PassesOn cs (poll_flushes polls m).0))
      (sym r)
      (Settled_map (poll_flushes polls l).1
        (λ (h, over). (
          sent-Receives 0x16 v1 v2 (1 ∷ t) s.sent (poll_flushes polls l).0.inner.sent
              (h ∙ ap (λ u. s.sent ++ u) (unsent-sending_hello v1 v2 hi lo t n s)),
          calls-PassesOn cs (poll_flushes polls l).0 over,
        ))
        f.settled)
