-- ===== src/Body.antt =====
-- local_proxy/src/utils/http.rs: Body, which hides the type of a hyper body, of its data and of its
-- errors. A trait object is a record of a hidden type, its methods and a value.
mod Same
mod Tests
use local_proxy_rs.Base.{ℕ, Bool, List, Option, Bytes}

-- hyper's `Frame`.
pub data Frame {ℓ} (H : Type 0) (D : Type ℓ) : Type ℓ where
  data_frame : D → Frame H D
  trailers : H → Frame H D

abbrev pub map_data {ℓ m} :
    {H : Type 0} {D : Type ℓ} {D' : Type m} → (D → D') → Frame H D → Frame H D'
map_data f (data_frame d) = data_frame (f d)
map_data f (trailers h) = trailers h

-- `Poll<Option<Result<A, E>>>`.
pub data Polled {ℓ} (A E : Type ℓ) : Type ℓ where
  pending : Polled A E
  ended : Polled A E
  frame : A → Polled A E
  failed : E → Polled A E

-- `map_ok` and `map_err`.
abbrev pub map_polled {ℓ m} :
    {A E : Type ℓ} {A' E' : Type m} → (A → A') → (E → E') → Polled A E → Polled A' E'
map_polled f g pending = pending
map_polled f g ended = ended
map_polled f g (frame a) = frame (f a)
map_polled f g (failed e) = failed (g e)

-- The methods of hyper's `Body` for a type `B`, with headers of the type `H` as trailers.
pub record BodyMethods {ℓ} (H B : Type 0) (D E : Type ℓ) : Type ℓ where
  pub poll_frame : B → B × Polled (Frame H D) E
  pub is_end_stream : B → Bool
  pub size_hint : B → ℕ × Option ℕ

-- The methods of `bytes::Buf`, as far as a reader of a body uses them.
pub record BufMethods (D : Type 0) : Type 0 where
  pub remaining : D → ℕ
  pub copy_to_bytes : D → ℕ → D × Bytes

-- `Box<dyn bytes::Buf>` and its methods.
pub record BoxBuf : Type 1 where
  pub hidden : Type 0
  pub methods : BufMethods hidden
  pub value : hidden

abbrev pub box_buf : {D : Type 0} → BufMethods D → D → BoxBuf
box_buf {D} k d = record { hidden = D; methods = k; value = d }

abbrev pub remaining : BoxBuf → ℕ
remaining b = b.methods.remaining b.value

abbrev pub copy_to_bytes : BoxBuf → ℕ → BoxBuf × Bytes
copy_to_bytes b n = let (d, s) = b.methods.copy_to_bytes b.value n in (box_buf b.methods d, s)

-- `Box<dyn std::error::Error>`, which shows itself.
pub record BoxError : Type 1 where
  pub hidden : Type 0
  pub display : hidden → Bytes
  pub value : hidden

abbrev pub box_error : {E : Type 0} → (E → Bytes) → E → BoxError
box_error {E} k e = record { hidden = E; display = k; value = e }

-- `BodyWrapper`, the same body with its data and its errors boxed.
unfoldable pub body_wrapper :
    {H B D E : Type 0}
    → BufMethods D
    → (E → Bytes)
    → BodyMethods H B D E
    → BodyMethods H B BoxBuf BoxError
body_wrapper buf display body = record {
  poll_frame = λ b.
      (let (b', p) = body.poll_frame b in
        (b', map_polled (map_data (box_buf buf)) (box_error display) p));
  is_end_stream = body.is_end_stream;
  size_hint = body.size_hint;
}

-- `Body`.
pub record Body (H : Type 0) : Type 1 where
  pub hidden : Type 0
  pub methods : BodyMethods H hidden BoxBuf BoxError
  pub inner : hidden

-- `Body::new`.
unfoldable pub new_body :
    {H B D E : Type 0} → BufMethods D → (E → Bytes) → BodyMethods H B D E → B → Body H
unfolding body_wrapper
new_body {H} {B} {D} {E} buf display body b = record {
  hidden = B;
  methods = body_wrapper buf display body;
  inner = b;
}

-- `Body` is a body itself.
unfoldable pub poll_frame : {H : Type 0} → Body H → Body H × Polled (Frame H BoxBuf) BoxError
poll_frame b =
    let (inner, p) = b.methods.poll_frame b.inner in
    (record { hidden = b.hidden; methods = b.methods; inner = inner }, p)

unfoldable pub is_end_stream : {H : Type 0} → Body H → Bool
is_end_stream b = b.methods.is_end_stream b.inner

unfoldable pub size_hint : {H : Type 0} → Body H → ℕ × Option ℕ
size_hint b = b.methods.size_hint b.inner

-- hyper's `Request<B>` and `Response<B>`, as their parts and their body.
pub record Message {ℓ} (P : Type 0) (B : Type ℓ) : Type ℓ where
  pub parts : P
  pub body : B

-- `convert_request`, and `convert_response` with the parts of a response.
unfoldable pub convert :
    {P H B D E : Type 0}
    → BufMethods D
    → (E → Bytes)
    → BodyMethods H B D E
    → Message P B
    → Message P (Body H)
unfolding new_body
convert buf display body m = record { parts = m.parts; body = new_body buf display body m.body }
