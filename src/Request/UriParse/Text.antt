-- ===== src/Request/UriParse/Text.antt =====
-- The texts of Rust's `String`, and what the program relies on of the library percent_encoding.
use local_proxy_rs.Base.{
  ℕ, zero, suc, ◌<◌, Bool, true, ◌&&◌, ◌==◌, leb, ltb, if◌then◌else◌, [], ◌∷◌, Bytes, Lacks, All,
  ok, ◌≡◌,
}
use local_proxy_rs.Request.UriParse.{Library}

-- What a byte asks of those behind it, by the table of well-formed UTF-8: how many bytes follow, and
-- between which two the first of these is. A byte that starts no character asks for what is not.
abbrev pub lead : ℕ → ℕ × ℕ × ℕ
lead b =
    if ltb b 0x80
    then (0, 0, 0)
    else if leb 0xc2 b && leb b 0xdf
    then (1, 0x80, 0xbf)
    else if b == 0xe0
    then (2, 0xa0, 0xbf)
    else if b == 0xed
    then (2, 0x80, 0x9f)
    else if leb 0xe1 b && leb b 0xef
    then (2, 0x80, 0xbf)
    else if b == 0xf0
    then (3, 0x90, 0xbf)
    else if leb 0xf1 b && leb b 0xf3
    then (3, 0x80, 0xbf)
    else if b == 0xf4
    then (3, 0x80, 0x8f)
    else (1, 1, 0)

-- Behind a byte that asks for `need` more, of which the first is from `low` to `high`.
abbrev pub is_utf8_from : ℕ → ℕ → ℕ → Bytes → Bool
is_utf8_from need low high [] = need == 0
is_utf8_from zero low high (b ∷ s) = let (n, l, h) = lead b in is_utf8_from n l h s
is_utf8_from (suc need) low high (b ∷ s) =
    leb low b && (leb b high && is_utf8_from need 0x80 0xbf s)

abbrev pub is_utf8 : Bytes → Bool
is_utf8 s = is_utf8_from 0 0 0 s

-- The bytes of a `String`.
abbrev pub IsText : Bytes → Type 0
IsText s = All (λ b. b < 256) s × (is_utf8 s ≡ true)

-- `utf8_percent_encode` of everything but letters and digits, and the decoding of what it gives.
pub record IsPercentEncoding (k : Library) : Type 0 where
  pub decoded : (s : Bytes) → IsText s → k.decode (k.encode s) ≡ ok s
  pub no_colon : (s : Bytes) → Lacks b':' (k.encode s)
  pub no_at : (s : Bytes) → Lacks b'@' (k.encode s)
