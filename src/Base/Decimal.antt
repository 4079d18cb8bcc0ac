-- ===== src/Base/Decimal.antt =====
-- Decimal text of a `u16` in the standard library: `to_string` and `u16::from_str`.
use Prim.Native.Nat.{ℕ, zero, suc, ◌+◌, ◌-◌, ◌*◌, ◌/◌, ◌%◌, ◌<◌, ◌≤◌}
use mathlib.Core.Path.{◌≡◌, refl, ◌∙◌}
use mathlib.Core.Bool.{Bool, true, false, ◌&&◌}
use mathlib.Core.Option.{Option, none, some}
use mathlib.Core.List.{[], ◌∷◌, ◌++◌, append_assoc}
use native.Mathlib.Omega.{arith}
use local_proxy_rs.Base.Tests.{ltb, leb, ◌==◌, if◌then◌else◌}
use local_proxy_rs.Base.Lists.{Bytes, All}

abbrev pub is_digit : ℕ → Bool
is_digit c = leb b'0' c && leb c b'9'

-- The digits of `n` before `out`; `fuel` bounds their number.
unfoldable pub digits : ℕ → ℕ → Bytes → Bytes
digits zero n out = (b'0' + n % 10) ∷ out
digits (suc fuel) n out = elim (ltb n 10) [
  | true ↦ (b'0' + n) ∷ out
  | false ↦ digits fuel (n / 10) ((b'0' + n % 10) ∷ out)
]

unfoldable pub show_u16 : ℕ → Bytes
unfolding digits
show_u16 n = digits 4 n []

-- A number below 65536 behind the digits read so far.
unfoldable pub scan_u16 : Bytes → ℕ → Option ℕ
scan_u16 [] n = some n
scan_u16 (c ∷ s) n =
    let n' = n * 10 + (c - b'0') in if is_digit c && ltb n' 65536 then scan_u16 s n' else none

-- `u16::from_str`: a plus sign may stand before the digits.
unfoldable pub parse_u16 : Bytes → Option ℕ
unfolding scan_u16
parse_u16 [] = none
parse_u16 (c ∷ []) = scan_u16 (c ∷ []) 0
parse_u16 (c ∷ d ∷ s) = if c == b'+' then scan_u16 (d ∷ s) 0 else scan_u16 (c ∷ d ∷ s) 0

-- The first number with too many digits for the fuel.
abbrev bound : ℕ → ℕ
bound zero = 10
bound (suc fuel) = bound fuel * 10

scan_u16_step :
    (n : ℕ) (out : Bytes) → n < 65536 → scan_u16 ((b'0' + n % 10) ∷ out) (n / 10) ≡ scan_u16 out n
unfolding scan_u16
scan_u16_step n out h = ground arith

scan_u16_digit : (n : ℕ) (out : Bytes) → n < 10 → scan_u16 ((b'0' + n) ∷ out) 0 ≡ scan_u16 out n
unfolding scan_u16
scan_u16_digit n out h = ground arith

scan_u16-digits :
    (fuel n : ℕ) (out : Bytes)
    → n < 65536
    → n < bound fuel
    → scan_u16 (digits fuel n out) 0 ≡ scan_u16 out n
unfolding digits
scan_u16-digits zero n out h k = ground (arith, scan_u16_step n out)
scan_u16-digits (suc fuel) n out h k = ground (
  arith,
  scan_u16_step n out,
  scan_u16_digit n out,
  scan_u16-digits fuel (n / 10) ((b'0' + n % 10) ∷ out),
)

-- The text of a number is digits.
abbrev pub IsDigits : Bytes → Type 0
IsDigits = All (λ c. (b'0' ≤ c) × (c ≤ b'9'))

pub digits-IsDigits : (fuel n : ℕ) (out : Bytes) → IsDigits out → IsDigits (digits fuel n out)
unfolding digits
digits-IsDigits zero n out h = (omega arith, h)
digits-IsDigits (suc fuel) n out h =
    ground (arith, digits-IsDigits fuel (n / 10) ((b'0' + n % 10) ∷ out))

pub show_u16-IsDigits : (n : ℕ) → IsDigits (show_u16 n)
unfolding show_u16
show_u16-IsDigits n = digits-IsDigits 4 n [] tt

digits-cons : (fuel n : ℕ) (out : Bytes) → (c : ℕ) × (s : Bytes) × (digits fuel n out ≡ c ∷ s)
unfolding digits
digits-cons zero n out = (b'0' + n % 10, out, refl)
digits-cons (suc fuel) n out =
    elim (ltb n 10)
      as (λ b.
        (c : ℕ) × (s : Bytes) × (elim b as (λ x. Bytes) [
          | true ↦ (b'0' + n) ∷ out
          | false ↦ digits fuel (n / 10) ((b'0' + n % 10) ∷ out)
        ]
          ≡ c ∷ s)) [
            | true ↦ (b'0' + n, out, refl)
            | false ↦ digits-cons fuel (n / 10) ((b'0' + n % 10) ∷ out)
          ]

parse_u16-IsDigits : (c : ℕ) (s : Bytes) → IsDigits (c ∷ s) → parse_u16 (c ∷ s) ≡ scan_u16 (c ∷ s) 0
unfolding parse_u16
parse_u16-IsDigits c [] h = refl
parse_u16-IsDigits c (d ∷ s) h = ground arith

pub parse_u16-scan_u16 :
    (t : Bytes) (c : ℕ) (s : Bytes) → t ≡ c ∷ s → IsDigits t → parse_u16 t ≡ scan_u16 t 0
parse_u16-scan_u16 t c s e h = rw e (parse_u16-IsDigits c s (rw e at h))

-- Every `u16` is read back from its text.
pub parse_u16-show_u16 : (n : ℕ) → n < 65536 → parse_u16 (show_u16 n) ≡ some n
unfolding show_u16 scan_u16
parse_u16-show_u16 n h =
    let (c, s, e) = digits-cons 4 n [] in
    parse_u16-scan_u16 (digits 4 n []) c s e (digits-IsDigits 4 n [] tt)
    ∙ scan_u16-digits 4 n [] h (omega arith)

pub digits-append : (fuel n : ℕ) (out : Bytes) → digits fuel n out ≡ digits fuel n [] ++ out
unfolding digits
digits-append zero n out = refl
digits-append (suc fuel) n out =
    let d = b'0' + n % 10 in
    ground (
      arith,
      digits-append fuel (n / 10) (d ∷ out),
      digits-append fuel (n / 10) (d ∷ []),
      append_assoc (digits fuel (n / 10) []) (d ∷ []) out,
    )

-- The text of a number starts with a digit.
pub digits-cons_digit :
    (fuel n : ℕ) (out : Bytes)
    → (c : ℕ) × (s : Bytes) × (digits fuel n out ≡ c ∷ s) × (b'0' ≤ c) × (c ≤ b'9')
digits-cons_digit fuel n out =
    let (c, s, e) = digits-cons fuel n [] in
    let d = rw e at (digits-IsDigits fuel n [] tt) in
    (c, s ++ out, digits-append fuel n out ∙ rw e refl, d.0.0, d.0.1)
