-- ===== src/Body/Same.antt =====
-- A wrapped body shows what the body inside shows.
use local_proxy_rs.Base.{ℕ, zero, suc, List, [], ◌∷◌, Bytes, map, ◌≡◌, refl, ap}
use local_proxy_rs.Body.{
  Frame, data_frame, trailers, map_data, Polled, pending, ended, frame, failed, map_polled,
  BodyMethods, BufMethods, BoxBuf, box_buf, remaining, copy_to_bytes, BoxError, box_error, new_body,
  poll_frame, is_end_stream, size_hint, Message, convert,
}

-- A body after a number of polls, and their answers.
abbrev pub polls {ℓ m} : {B : Type ℓ} {P : Type m} → (B → B × P) → ℕ → B → B × List P
polls poll zero b = (b, [])
polls poll (suc n) b = let (b', p) = poll b in let (b'', ps) = polls poll n b' in (b'', p ∷ ps)

-- What a reader of a frame sees: all bytes of data, the trailers, the text of an error.
abbrev pub see :
    {H D E : Type 0}
    → BufMethods D
    → (E → Bytes)
    → Polled (Frame H D) E
    → Polled (Frame H Bytes) Bytes
see buf display p = map_polled (map_data (λ d. (buf.copy_to_bytes d (buf.remaining d)).1)) display p

abbrev pub see_boxed :
    {H : Type 0} → Polled (Frame H BoxBuf) BoxError → Polled (Frame H Bytes) Bytes
see_boxed p =
    map_polled (map_data (λ b. (copy_to_bytes b (remaining b)).1)) (λ e. e.display e.value) p

module _ {H B D E : Type 0} (buf : BufMethods D) (display : E → Bytes)
    (body : BodyMethods H B D E) where
  see_boxed-box :
      (p : Polled (Frame H D) E)
      → see_boxed (map_polled (map_data (box_buf buf)) (box_error display) p) ≡ see buf display p
  see_boxed-box pending = refl
  see_boxed-box ended = refl
  see_boxed-box (frame (data_frame d)) = refl
  see_boxed-box (frame (trailers h)) = refl
  see_boxed-box (failed e) = refl

  polls-new_body :
      (n : ℕ) (b : B)
      → let (b', ps) = polls body.poll_frame n b in
        let (c, qs) = polls poll_frame n (new_body buf display body b) in
        (c ≡ new_body buf display body b') × (map see_boxed qs ≡ map (see buf display) ps)
  unfolding new_body poll_frame
  polls-new_body zero b = (refl, refl)
  polls-new_body (suc n) b =
      let (b', p) = body.poll_frame b in
      let (same, seen) = polls-new_body n b' in (same, rw (see_boxed-box p, seen) refl)

  -- A request or a response keeps its parts when its body is wrapped, and however often the body is
  -- polled, a reader sees the same frames, errors and trailers as of the body inside, and so are
  -- then the answers whether the stream is at its end and how much is left.
  pub convert-polls :
      {P : Type 0} (n : ℕ) (m : Message P B)
      → let (b, ps) = polls body.poll_frame n m.body in
        let (c, qs) = polls poll_frame n (convert buf display body m).body in
        ((convert buf display body m).parts ≡ m.parts)
        × (map see_boxed qs ≡ map (see buf display) ps)
        × (is_end_stream c ≡ body.is_end_stream b)
        × (size_hint c ≡ body.size_hint b)
  unfolding convert is_end_stream size_hint
  convert-polls n m =
      let (same, seen) = polls-new_body n m.body in
      (refl, seen, ap is_end_stream same, ap size_hint same)
