-- ===== src/Net/Zero.antt =====
-- The text of an IPv6 address has no zero byte.
use local_proxy_rs.Base.{
  ℕ, zero, suc, take, drop, codes, ltb, ◌+◌, ◌/◌, ◌%◌, false, List, [], ◌∷◌, ◌++◌, Option, none,
  some, Bytes, contains, ◌==◌, ◌≡◌, refl, ◌∙◌, arith, Bool-cases, inl, inr,
}
use local_proxy_rs.Net.{
  Ipv4Addr, v4_octets, Ipv6Addr, segments, to_ipv4_mapped, hex_char, show_hex, show_segments,
  longest_run, show_gap, show_v6_of, show_v6,
}
use local_proxy_rs.Base.Decimal.{digits}

hex_char_pos : (d : ℕ) → (hex_char d == 0) ≡ false
hex_char_pos d = ground arith

skip_hex : (d : ℕ) (s : Bytes) → contains (hex_char d ∷ s) 0 ≡ contains s 0
skip_hex d s = rw (hex_char_pos d) refl

show_hex_zero : (n : ℕ) (s : Bytes) → contains s 0 ≡ false → contains (show_hex n s) 0 ≡ false
show_hex_zero n s h = elim (Bool-cases (ltb n 16)) [
  | inl t ↦ rw t (skip_hex n s ∙ h)
  | inr f ↦ rw f (elim (Bool-cases (ltb n 256)) [
    | inl t ↦ rw t (skip_hex (n / 16) (hex_char (n % 16) ∷ s) ∙ last_hex)
    | inr f ↦ rw f (elim (Bool-cases (ltb n 4096)) [
      | inl t ↦
          rw t (skip_hex (n / 256) (hex_char (n / 16 % 16) ∷ hex_char (n % 16) ∷ s) ∙ last_two)
      | inr f ↦ rw f (
          skip_hex (n / 4096)
            (hex_char (n / 256 % 16) ∷ hex_char (n / 16 % 16) ∷ hex_char (n % 16) ∷ s)
          ∙ (skip_hex (n / 256 % 16) (hex_char (n / 16 % 16) ∷ hex_char (n % 16) ∷ s) ∙ last_two))
    ])
  ])
]
  where
    last_hex : contains (hex_char (n % 16) ∷ s) 0 ≡ false
    last_hex = skip_hex (n % 16) s ∙ h

    last_two : contains (hex_char (n / 16 % 16) ∷ hex_char (n % 16) ∷ s) 0 ≡ false
    last_two = skip_hex (n / 16 % 16) (hex_char (n % 16) ∷ s) ∙ last_hex

show_segments_zero : (ns : List ℕ) → contains (show_segments ns) 0 ≡ false
show_segments_zero [] = refl
show_segments_zero (n ∷ []) = show_hex_zero n [] refl
show_segments_zero (n ∷ m ∷ ns) =
    show_hex_zero n (b':' ∷ show_segments (m ∷ ns)) (show_segments_zero (m ∷ ns))

pub contains-append_false :
    (s t : Bytes) (b : ℕ)
    → contains s b ≡ false
    → contains t b ≡ false
    → contains (s ++ t) b ≡ false
contains-append_false [] t b h k = k
contains-append_false (c ∷ s) t b h k = ground (arith, contains-append_false s t b)

digits_zero : (fuel n : ℕ) (s : Bytes) → contains s 0 ≡ false → contains (digits fuel n s) 0 ≡ false
unfolding digits
digits_zero zero n s h = ground arith
digits_zero (suc fuel) n s h = ground (arith, digits_zero fuel (n / 10) ((b'0' + n % 10) ∷ s))

show_gap_zero : (ns : List ℕ) (run : ℕ × ℕ) → contains (show_gap ns run) 0 ≡ false
show_gap_zero ns (at, len) = elim (Bool-cases (ltb 1 len)) [
  | inl t ↦ rw t (
      contains-append_false (show_segments (take at ns))
        (codes "::" ++ show_segments (drop (at + len) ns)) 0 (show_segments_zero (take at ns))
        (show_segments_zero (drop (at + len) ns)))
  | inr f ↦ rw f (show_segments_zero ns)
]

-- The text of an IPv6 address has no zero byte.
pub show_v6_zero : (a : Ipv6Addr) → contains (show_v6 a) 0 ≡ false
unfolding show_v6
show_v6_zero a = go (to_ipv4_mapped a)
  where
    go : (o : Option Ipv4Addr) → contains (show_v6_of a o) 0 ≡ false
    go (some (v4_octets x y z w)) =
        digits_zero 2 x _ (digits_zero 2 y _ (digits_zero 2 z _ (digits_zero 2 w [] refl)))
    go none = show_gap_zero (segments a) (longest_run (segments a))
