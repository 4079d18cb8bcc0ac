-- ===== src/Body/Tests.antt =====
-- The theorem on wrapped bodies at concrete input.
use local_proxy_rs.Base.{
  ℕ, zero, ◌+◌, Bool, true, false, List, [], ◌∷◌, map, some, Bytes, codes, length, take, drop, ◌≡◌,
}
use local_proxy_rs.Body.{
  Frame, data_frame, Polled, pending, ended, frame, BodyMethods, BufMethods, poll_frame,
  is_end_stream, size_hint, Message, convert,
}
use local_proxy_rs.Body.Same.{polls, see, see_boxed, convert-polls}

-- A body of chunks, which is pending before each.
abbrev Chunks : Type 0
Chunks = Bool × List Bytes

abbrev left : List Bytes → ℕ
left [] = 0
left (c ∷ cs) = length c + left cs

abbrev poll_chunks : Chunks → Chunks × Polled (Frame Bytes Bytes) Bytes
poll_chunks (false, cs) = ((true, cs), pending)
poll_chunks (true, []) = ((true, []), ended)
poll_chunks (true, c ∷ cs) = ((false, cs), frame (data_frame c))

abbrev is_empty : List Bytes → Bool
is_empty [] = true
is_empty (c ∷ cs) = false

abbrev chunks : BodyMethods Bytes Chunks Bytes Bytes
chunks = record {
  poll_frame = poll_chunks;
  is_end_stream = λ b. is_empty b.1;
  size_hint = λ b. (left b.1, some (left b.1));
}

abbrev bytes_buf : BufMethods Bytes
bytes_buf = record { remaining = length; copy_to_bytes = λ d n. (drop n d, take n d) }

abbrev request : Message Bytes Chunks
request = record { parts = codes "POST /"; body = (false, codes "ab" ∷ codes "c" ∷ []) }

convert-polls_example :
    let (b, ps) = polls poll_chunks 5 request.body in
    let (c, qs) = polls poll_frame 5 (convert bytes_buf (λ e. e) chunks request).body in
    ((convert bytes_buf (λ e. e) chunks request).parts ≡ codes "POST /")
    × (map see_boxed qs ≡ map (see bytes_buf (λ e. e)) ps)
    × (is_end_stream c ≡ true)
    × (size_hint c ≡ (zero, some zero))
convert-polls_example = convert-polls bytes_buf (λ e. e) chunks 5 request
