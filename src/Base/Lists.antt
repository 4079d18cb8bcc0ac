-- ===== src/Base/Lists.antt =====
-- Lists measured and indexed by native numbers, under the library's names, and byte strings.
use Prim.Native.Nat.{ℕ, zero, suc, ◌+◌, ◌-◌, ◌*◌, ◌/◌, ◌%◌, ◌<◌, ◌≤◌, min}
use Prim.Native.Char.{code}
use Prim.Native.String.{String}
use mathlib.Core.Path.{◌≡◌, refl, ap}
use mathlib.Core.Bool.{Bool, false, ◌||◌}
use mathlib.Core.List.{List, [], ◌∷◌, ◌++◌}
use mathlib.Core.Logic.{◌≢◌}
use mathlib.Core.Option.{Option, none, some}
use native.Mathlib.Omega.{arith}
use local_proxy_rs.Base.Tests.{leb, ◌==◌, if◌then◌else◌}

abbrev pub Bytes : Type 0
Bytes = List ℕ

-- The code points of a literal; these are its bytes when the text is ASCII.
abbrev pub codes : String → Bytes
codes String.[] = []
codes (String.◌∷◌ c s) = code c ∷ codes s

module _ {ℓ} {A : Type ℓ} where
  abbrev pub length : List A → ℕ
  length [] = 0
  length (x ∷ xs) = suc (length xs)

  abbrev pub get_elem? : List A → ℕ → Option A
  get_elem? [] i = none
  get_elem? (x ∷ xs) zero = some x
  get_elem? (x ∷ xs) (suc i) = get_elem? xs i

  abbrev pub take : ℕ → List A → List A
  take zero xs = []
  take (suc n) [] = []
  take (suc n) (x ∷ xs) = x ∷ take n xs

  abbrev pub drop : ℕ → List A → List A
  drop zero xs = xs
  drop (suc n) [] = []
  drop (suc n) (x ∷ xs) = drop n xs

  pub length-append : (xs ys : List A) → length (xs ++ ys) ≡ length xs + length ys
  length-append [] ys = omega arith
  length-append (x ∷ xs) ys = omega (arith, length-append xs ys)

  pub length-take : (n : ℕ) (xs : List A) → length (take n xs) ≡ min n (length xs)
  length-take zero xs = omega arith
  length-take (suc n) [] = omega arith
  length-take (suc n) (x ∷ xs) = omega (arith, length-take n xs)

  pub length-drop : (n : ℕ) (xs : List A) → length (drop n xs) ≡ length xs - n
  length-drop zero xs = omega arith
  length-drop (suc n) [] = omega arith
  length-drop (suc n) (x ∷ xs) = omega (arith, length-drop n xs)

  pub take-append-drop : (n : ℕ) (xs : List A) → take n xs ++ drop n xs ≡ xs
  take-append-drop zero xs = refl
  take-append-drop (suc n) [] = refl
  take-append-drop (suc n) (x ∷ xs) = ap (λ t. x ∷ t) (take-append-drop n xs)

  pub take-length : (xs : List A) → take (length xs) xs ≡ xs
  take-length [] = refl
  take-length (x ∷ xs) = ap (λ t. x ∷ t) (take-length xs)

  pub take-append_self : (xs ys : List A) → take (length xs) (xs ++ ys) ≡ xs
  take-append_self [] ys = refl
  take-append_self (x ∷ xs) ys = ap (λ t. x ∷ t) (take-append_self xs ys)

  pub drop-append_self : (xs ys : List A) → drop (length xs) (xs ++ ys) ≡ ys
  drop-append_self [] ys = refl
  drop-append_self (x ∷ xs) ys = drop-append_self xs ys

  -- `drop` past the end.
  pub drop-nil_of_le : (n : ℕ) (xs : List A) → length xs ≤ n → drop n xs ≡ []
  drop-nil_of_le zero [] h = refl
  drop-nil_of_le zero (x ∷ xs) h = absurd (omega arith)
  drop-nil_of_le (suc n) [] h = refl
  drop-nil_of_le (suc n) (x ∷ xs) h = drop-nil_of_le n xs (omega arith)

  pub take-all_of_le : (n : ℕ) (xs : List A) → length xs ≤ n → take n xs ≡ xs
  take-all_of_le zero [] h = refl
  take-all_of_le zero (x ∷ xs) h = absurd (omega arith)
  take-all_of_le (suc n) [] h = refl
  take-all_of_le (suc n) (x ∷ xs) h = ap (λ t. x ∷ t) (take-all_of_le n xs (omega arith))

  -- Within its length a list starts at `n` with the element there.
  pub drop-cons :
      (n : ℕ) (xs : List A) → n < length xs → (x : A) × (drop n xs ≡ x ∷ drop (suc n) xs)
  drop-cons n [] h = absurd (omega arith)
  drop-cons zero (x ∷ xs) h = (x, refl)
  drop-cons (suc n) (x ∷ xs) h = drop-cons n xs (omega arith)

-- Some byte of `s` is `b`: `s.contains(b)`.
abbrev pub contains : Bytes → ℕ → Bool
contains [] b = false
contains (c ∷ s) b = c == b || contains s b

-- `&s[a..b]`, which panics (`none`) unless `a ≤ b` and `b` is within the length.
abbrev pub slice? : Bytes → ℕ → ℕ → Option Bytes
slice? s a b =
    if leb a b then (if leb b (length s) then some (take (b - a) (drop a s)) else none) else none

-- A `u16` as its two big-endian bytes, and back.
abbrev pub u16_to_be_bytes : ℕ → Bytes
u16_to_be_bytes n = n / 256 ∷ n % 256 ∷ []

abbrev pub u16_from_be_bytes : ℕ → ℕ → ℕ
u16_from_be_bytes hi lo = hi * 256 + lo

module _ {ℓ κ} {A : Type ℓ} (P : A → Type κ) where
  abbrev pub All : List A → Type κ
  All [] = Unit
  All (x ∷ xs) = P x × All xs

  pub All-append : (xs ys : List A) → All xs → All ys → All (xs ++ ys)
  All-append [] ys _ hy = hy
  All-append (x ∷ xs) ys (px, hx) hy = (px, All-append xs ys hx hy)

-- Every element is a byte.
abbrev pub IsBytes : Bytes → Type 0
IsBytes = All (λ b. b < 256)

-- No byte of the text is `b`.
abbrev pub Lacks : ℕ → Bytes → Type 0
Lacks b = All (λ c. c ≢ b)

pub contains-Lacks : (b : ℕ) (s : Bytes) → Lacks b s → contains s b ≡ false
contains-Lacks b [] h = refl
contains-Lacks b (c ∷ s) h = ground (arith, contains-Lacks b s h.1)
