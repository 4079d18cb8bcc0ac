-- ===== src/Fragment/Accumulate.antt =====
-- `poll_write` while the layer collects the first record.
use local_proxy_rs.Base.{
  ℕ, suc, ◌+◌, ◌*◌, length-append, ◌<◌, ◌≡◌, refl, ap, ◌∙◌, true, [], ◌∷◌, ◌++◌, append-nil, none,
  some, Bytes, length, leb, arith, Bool-cases, inl, inr, u16_from_be_bytes, ◌==◌,
}
use mathlib.Core.Path.{subst}
use local_proxy_rs.Fragment.{
  Buffer, new_buffer, State, waiting_header, waiting_message, sending_message, sending_raw_buffer,
  sending_data, is_waiting, on_header, on_message, accept,
}

-- The bytes that a waiting layer holds.
abbrev pub held : State → Bytes
held (waiting_header buf) = buf.inner
held (waiting_message buf header) = buf.inner
held _ = []

-- `on_header` by the shape of what it reads.
on_header-Shape : Bytes → State → Type 0
on_header-Shape b (waiting_header buf) = buf ≡ record { inner = b; ptr = 0 }
on_header-Shape b (waiting_message buf h) =
    (buf ≡ record { inner = b; ptr = 5 })
    × ((w : Bytes)
        → on_header (b ++ w) ≡ some (waiting_message (record { inner = b ++ w; ptr = 5 }) h))
on_header-Shape b (sending_raw_buffer buf) = buf ≡ record { inner = b; ptr = 0 }
on_header-Shape b _ = ⊥

on_header_shape : (b : Bytes) → (s : State) × (on_header b ≡ some s) × on_header-Shape b s
unfolding on_header on_header-Shape
on_header_shape [] = (waiting_header new_buffer, refl, refl)
on_header_shape (b0 ∷ r) = elim (Bool-cases (b0 == 0x16)) [
  | inr ne ↦
      (sending_raw_buffer (record { inner = b0 ∷ r; ptr = 0 }), rw (ne, on_header) refl, refl)
  | inl eq ↦ go r eq
]
  where
    go :
        (r : Bytes)
        → (b0 == 0x16) ≡ true
        → (s : State) × (on_header (b0 ∷ r) ≡ some s) × on_header-Shape (b0 ∷ r) s
    go [] eq = (waiting_header (record { inner = b0 ∷ []; ptr = 0 }), rw (eq, on_header) refl, refl)
    go (b1 ∷ []) eq =
        (waiting_header (record { inner = b0 ∷ b1 ∷ []; ptr = 0 }), rw (eq, on_header) refl, refl)
    go (b1 ∷ b2 ∷ []) eq = (
      waiting_header (record { inner = b0 ∷ b1 ∷ b2 ∷ []; ptr = 0 }),
      rw (eq, on_header) refl,
      refl,
    )
    go (b1 ∷ b2 ∷ b3 ∷ []) eq = (
      waiting_header (record { inner = b0 ∷ b1 ∷ b2 ∷ b3 ∷ []; ptr = 0 }),
      rw (eq, on_header) refl,
      refl,
    )
    go (b1 ∷ b2 ∷ b3 ∷ b4 ∷ []) eq = (
      waiting_header (record { inner = b0 ∷ b1 ∷ b2 ∷ b3 ∷ b4 ∷ []; ptr = 0 }),
      rw (eq, on_header) refl,
      refl,
    )
    go (b1 ∷ b2 ∷ b3 ∷ b4 ∷ b5 ∷ t) eq = elim (Bool-cases (b5 == 1)) [
      | inr ne ↦ (
        sending_raw_buffer (record { inner = b0 ∷ b1 ∷ b2 ∷ b3 ∷ b4 ∷ b5 ∷ t; ptr = 0 }),
        rw (eq, on_header) (rw ne refl),
        refl,
      )
      | inl one ↦ (
        waiting_message (record { inner = b0 ∷ b1 ∷ b2 ∷ b3 ∷ b4 ∷ b5 ∷ t; ptr = 5 })
            (record { base = b0 ∷ b1 ∷ b2 ∷ []; len = u16_from_be_bytes b3 b4 + 5 }),
        rw (eq, on_header) (rw one refl),
        (refl, λ w. rw (eq, on_header) (rw one refl)),
      )
    ]

accept_more :
    (b w : Bytes) (s : State)
    → on_header b ≡ some s
    → on_header-Shape b s
    → is_waiting (on_message [] s) ≡ true
    → accept (on_message [] s) w ≡ accept (waiting_header new_buffer) (b ++ w)
unfolding accept on_header-Shape
accept_more b w (waiting_header buf) e h wait = rw h refl
accept_more b w (waiting_message buf header) e (h, f) wait =
    elim (Bool-cases (leb header.len (length b))) [
      | inl full ↦ absurd (impossible full)
      | inr part ↦ rw (f w, h, append-nil, part, append-nil) refl
    ]
  where
    impossible : leb header.len (length b) ≡ true → ⊥
    impossible full = ground (arith, append-nil b)
accept_more b w (sending_raw_buffer buf) e h wait = cc
accept_more b w (sending_message buf header c) e h wait = absurd h
accept_more b w sending_data e h wait = absurd h

-- Two writes make of a new layer what one write of the same bytes makes of it, if the layer is
-- still waiting after the first.
pub accept-append :
    (b w : Bytes) {s : State}
    → accept (waiting_header new_buffer) b ≡ some s
    → is_waiting s ≡ true
    → accept s w ≡ accept (waiting_header new_buffer) (b ++ w)
unfolding accept
accept-append b w {s} e wait =
    let (s', f, h) = on_header_shape b in
    let g : on_message [] s' ≡ s = ground (arith, f) in
    subst (λ t. accept t w ≡ accept (waiting_header new_buffer) (b ++ w)) g
      (accept_more b w s' f h (rw g wait))

-- A first write never meets the `unwrap` of a header that is too short.
pub accept_total : (b : Bytes) → (s : State) × (accept (waiting_header new_buffer) b ≡ some s)
unfolding accept
accept_total b = let (s, e, h) = on_header_shape b in (on_message [] s, rw e refl)

-- A layer that waits after a first write holds all the bytes of it.
pub held-accept :
    (b : Bytes) (s : State)
    → accept (waiting_header new_buffer) b ≡ some s
    → is_waiting s ≡ true
    → held s ≡ b
unfolding accept on_header-Shape
held-accept b s e wait =
    let (s', f, h) = on_header_shape b in
    let g : on_message [] s' ≡ s = ground (arith, f) in
    subst (λ t. held t ≡ b) g (go s' h (rw g wait))
  where
    go :
        (s' : State)
        → on_header-Shape b s'
        → is_waiting (on_message [] s') ≡ true
        → held (on_message [] s') ≡ b
    go (waiting_header buf) h w = ap (λ x. x.inner) h
    go (waiting_message buf header) (h, k) w =
        elim (Bool-cases (leb header.len (length (buf.inner ++ [])))) [
          | inl full ↦ absurd (ground arith)
          | inr part ↦ rw part (append-nil buf.inner ∙ ap {A = Buffer} (λ x. x.inner) h)
        ]
    go (sending_raw_buffer buf) h w = cc
    go (sending_message buf header c) h w = absurd h
    go sending_data h w = absurd h

-- A TLS record that holds a handshake message of type ClientHello.
abbrev pub client_hello : ℕ → ℕ → ℕ → ℕ → Bytes → Bytes
client_hello v1 v2 hi lo t = 0x16 ∷ v1 ∷ v2 ∷ hi ∷ lo ∷ 0x01 ∷ t

-- A proper first part of a ClientHello leaves the layer waiting.
pub accept_prefix :
    (p q : Bytes) (v1 v2 hi lo : ℕ) (t : Bytes)
    → p ++ q ≡ client_hello v1 v2 hi lo t
    → hi * 256 + lo ≡ suc (length t)
    → 0 < length q
    → (s : State) × (accept (waiting_header new_buffer) p ≡ some s) × (is_waiting s ≡ true)
unfolding accept on_header
accept_prefix [] q v1 v2 hi lo t e n h = (waiting_header new_buffer, refl, refl)
accept_prefix (b0 ∷ []) q v1 v2 hi lo t e n h =
    (waiting_header (record { inner = b0 ∷ []; ptr = 0 }), ground arith, refl)
accept_prefix (b0 ∷ b1 ∷ []) q v1 v2 hi lo t e n h =
    (waiting_header (record { inner = b0 ∷ b1 ∷ []; ptr = 0 }), ground arith, refl)
accept_prefix (b0 ∷ b1 ∷ b2 ∷ []) q v1 v2 hi lo t e n h =
    (waiting_header (record { inner = b0 ∷ b1 ∷ b2 ∷ []; ptr = 0 }), ground arith, refl)
accept_prefix (b0 ∷ b1 ∷ b2 ∷ b3 ∷ []) q v1 v2 hi lo t e n h =
    (waiting_header (record { inner = b0 ∷ b1 ∷ b2 ∷ b3 ∷ []; ptr = 0 }), ground arith, refl)
accept_prefix (b0 ∷ b1 ∷ b2 ∷ b3 ∷ b4 ∷ []) q v1 v2 hi lo t e n h =
    (waiting_header (record { inner = b0 ∷ b1 ∷ b2 ∷ b3 ∷ b4 ∷ []; ptr = 0 }), ground arith, refl)
accept_prefix (b0 ∷ b1 ∷ b2 ∷ b3 ∷ b4 ∷ b5 ∷ p) q v1 v2 hi lo t e n h =
    let k : hi * 256 + lo ≡ suc (length p + length q) = ground (arith, length-append p q) in
    (
      waiting_message (record { inner = b0 ∷ b1 ∷ b2 ∷ b3 ∷ b4 ∷ b5 ∷ p; ptr = 5 })
          (record { base = b0 ∷ b1 ∷ b2 ∷ []; len = b3 * 256 + b4 + 5 }),
      ground (arith, append-nil p),
      refl,
    )

-- The whole of it starts the sending.
pub accept_whole :
    (v1 v2 hi lo : ℕ) (t : Bytes)
    → hi * 256 + lo ≡ suc (length t)
    → accept (waiting_header new_buffer) (client_hello v1 v2 hi lo t)
      ≡ some (
          sending_message
            (record { inner = client_hello v1 v2 hi lo t; ptr = 5 })
            (record { base = 0x16 ∷ v1 ∷ v2 ∷ []; len = hi * 256 + lo + 5 })
            none)
unfolding accept on_header
accept_whole v1 v2 hi lo t n = ground (arith, append-nil t)
