-- ===== src/Request/UriParse/Percent.antt =====
-- Percent-encoding, as the library percent_encoding documents `NON_ALPHANUMERIC` and
-- `percent_decode_str(..).decode_utf8()`: the program's use of it is met by a codec that computes.
use local_proxy_rs.Base.{
  ℕ, ◌+◌, ◌-◌, ◌*◌, ◌/◌, ◌%◌, ◌<◌, Bool, ◌&&◌, ◌||◌, ◌==◌, leb, ltb, if◌then◌else◌, [], ◌∷◌, Option,
  none, some, Bytes, Lacks, All, Result, ok, err, rejected, ◌≡◌, ◌≢◌, refl, ap, ◌∙◌, arith,
  Bool-cases, inl, inr,
}
use local_proxy_rs.Base.Decimal.{is_digit}
use local_proxy_rs.Net.{hex_digit}
use local_proxy_rs.Request.UriParse.{Library}
use local_proxy_rs.Request.UriParse.Text.{is_utf8, IsText, IsPercentEncoding}

abbrev is_alphanumeric : ℕ → Bool
is_alphanumeric b = is_digit b || ((leb b'A' b && leb b b'Z') || (leb b'a' b && leb b b'z'))

abbrev upper_hex : ℕ → ℕ
upper_hex d = if ltb d 10 then b'0' + d else b'A' + (d - 10)

abbrev pub percent_encode : Bytes → Bytes
percent_encode [] = []
percent_encode (b ∷ s) =
    let rest = percent_encode s in
    if is_alphanumeric b
    then b ∷ rest
    else b'%' ∷ upper_hex (b / 16 % 16) ∷ upper_hex (b % 16) ∷ rest

-- `%` before two hexadecimal digits.
abbrev escaped : ℕ → ℕ → ℕ → Option ℕ
escaped c x y =
    if c == b'%'
    then (elim (hex_digit x) [
      | none ↦ none
      | some h ↦ elim (hex_digit y) [ none ↦ none | some l ↦ some (h * 16 + l) ]
    ])
    else none

abbrev or_plain : ℕ → Option ℕ → Bytes → Bytes → Bytes
or_plain c (some b) behind after = b ∷ behind
or_plain c none behind after = c ∷ after

abbrev pub percent_decode : Bytes → Bytes
percent_decode [] = []
percent_decode (c ∷ []) = c ∷ []
percent_decode (c ∷ x ∷ []) = c ∷ x ∷ []
percent_decode (c ∷ x ∷ y ∷ s) =
    or_plain c (escaped c x y) (percent_decode s) (percent_decode (x ∷ y ∷ s))

abbrev decode_utf8 : Bytes → Result Bytes
decode_utf8 s = if is_utf8 s then ok s else err rejected

-- The two functions, among others that are no part of it.
abbrev pub percent_library : Library
percent_library = record {
  build = λ u. err rejected;
  decode = λ s. decode_utf8 (percent_decode s);
  encode = percent_encode;
  base64 = λ s. s;
  to_str = λ s. ok s;
  parse_value = λ s. ok s;
}

percent_decode-plain :
    (c : ℕ) (s : Bytes) → c ≢ b'%' → percent_decode (c ∷ s) ≡ c ∷ percent_decode s
percent_decode-plain c [] h = refl
percent_decode-plain c (x ∷ []) h = refl
percent_decode-plain c (x ∷ y ∷ s) h = ground arith

hex_digit-upper_hex : (d : ℕ) → d < 16 → hex_digit (upper_hex d) ≡ some d
hex_digit-upper_hex d h = ground arith

percent_decode-escaped :
    (b : ℕ) (s : Bytes)
    → b < 256
    → percent_decode (b'%' ∷ upper_hex (b / 16 % 16) ∷ upper_hex (b % 16) ∷ s)
      ≡ b ∷ percent_decode s
percent_decode-escaped b s h =
    let same : b / 16 % 16 * 16 + b % 16 ≡ b = omega arith in
    let high = hex_digit-upper_hex (b / 16 % 16) (omega arith) in
    let low = hex_digit-upper_hex (b % 16) (omega arith) in
    rw high (rw low (ap (λ x. x ∷ percent_decode s) same))

percent_decode-percent_encode :
    (s : Bytes) → All (λ b. b < 256) s → percent_decode (percent_encode s) ≡ s
percent_decode-percent_encode [] h = refl
percent_decode-percent_encode (b ∷ s) (h, k) = elim (Bool-cases (is_alphanumeric b)) [
  | inl t ↦
      let plain : b ≢ b'%' = λ e. ground arith in
      rw t (
        percent_decode-plain b (percent_encode s) plain
        ∙ ap (λ r. b ∷ r) (percent_decode-percent_encode s k))
  | inr f ↦ rw f (
      percent_decode-escaped b (percent_encode s) h
      ∙ ap (λ r. b ∷ r) (percent_decode-percent_encode s k))
]

percent_library-decoded :
    (s : Bytes) → IsText s → percent_library.decode (percent_library.encode s) ≡ ok s
percent_library-decoded s (bytes, text) =
    ap decode_utf8 (percent_decode-percent_encode s bytes) ∙ rw text refl

upper_hex-Inner : (d : ℕ) → d < 16 → (upper_hex d ≢ b':') × (upper_hex d ≢ b'@')
upper_hex-Inner d h = ((λ e. ground arith), (λ e. ground arith))

percent_encode-Lacks_colon : (s : Bytes) → Lacks b':' (percent_encode s)
percent_encode-Lacks_colon [] = tt
percent_encode-Lacks_colon (b ∷ s) = elim (Bool-cases (is_alphanumeric b)) [
  | inl t ↦ rw t ((λ e. ground arith), percent_encode-Lacks_colon s)
  | inr f ↦ rw f (
    (λ e. omega arith),
    (
      (upper_hex-Inner (b / 16 % 16) (omega arith)).0,
      ((upper_hex-Inner (b % 16) (omega arith)).0, percent_encode-Lacks_colon s),
    ),
  )
]

percent_encode-Lacks_at : (s : Bytes) → Lacks b'@' (percent_encode s)
percent_encode-Lacks_at [] = tt
percent_encode-Lacks_at (b ∷ s) = elim (Bool-cases (is_alphanumeric b)) [
  | inl t ↦ rw t ((λ e. ground arith), percent_encode-Lacks_at s)
  | inr f ↦ rw f (
    (λ e. omega arith),
    (
      (upper_hex-Inner (b / 16 % 16) (omega arith)).1,
      ((upper_hex-Inner (b % 16) (omega arith)).1, percent_encode-Lacks_at s),
    ),
  )
]

pub percent_library-IsPercentEncoding : IsPercentEncoding percent_library
percent_library-IsPercentEncoding = record {
  decoded = percent_library-decoded;
  no_colon = percent_encode-Lacks_colon;
  no_at = percent_encode-Lacks_at;
}
