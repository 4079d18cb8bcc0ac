-- ===== src/Base/Results.antt =====
-- Errors as values. The source's `Box<dyn Error>` is matched on nowhere; its constructors here
-- keep apart the places an error comes from.
use mathlib.Core.Path.{◌≡◌, refl}
use mathlib.Core.Option.{Option, none, some}
use mathlib.Core.Option
use mathlib.Core.Bool.{Bool, true, false}

pub data Error : Type 0 where
  -- `Err("".into())` and `ok_or("")`
  rejected : Error
  -- `u16::from_str` and the other parsers of the standard library
  invalid_text : Error
  -- an end of file, or a refused or broken connection
  io : Error
  -- an error of a library the program calls
  foreign : Error

pub data Result {ℓ} (A : Type ℓ) : Type ℓ where
  ok : A → Result A
  err : Error → Result A

infixl 5 ◌>>=◌ ◌>>◌
abbrev pub ◌>>=◌ {ℓ κ} : {A : Type ℓ} {B : Type κ} → Result A → (A → Result B) → Result B
ok a >>= f = f a
err e >>= f = err e

-- `>>=` by name, where another monad has the operator.
abbrev pub bind : {A B : Type 0} → Result A → (A → Result B) → Result B
bind (ok a) f = f a
bind (err e) f = err e

abbrev pub ◌>>◌ {ℓ} : {B : Type ℓ} → Result (Unit {0}) → Result B → Result B
m >> k = m >>= λ _. k

-- `Option::and_then`.
abbrev pub and_then {ℓ κ} : {A : Type ℓ} {B : Type κ} → Option A → (A → Option B) → Option B
and_then none f = none
and_then (some a) f = f a

-- `o.ok_or("")?`
abbrev pub ok_or {ℓ} : {A : Type ℓ} → Option A → Error → Result A
ok_or none e = err e
ok_or (some a) e = ok a

abbrev pub guard : Bool → Error → Result (Unit {0})
guard true e = ok tt
guard false e = err e

abbrev pub map_ok {ℓ κ} : {A : Type ℓ} {B : Type κ} → (A → B) → Result A → Result B
map_ok f (ok a) = ok (f a)
map_ok f (err e) = err e

pub >>=-eq-ok {ℓ κ} :
    {X : Type ℓ} {Y : Type κ} (first : Result X) (next : X → Result Y) {out : Y}
    → (first >>= next) ≡ ok out
    → (x : X) × (first ≡ ok x) × (next x ≡ ok out)
>>=-eq-ok (ok x) next e = (x, refl, e)
>>=-eq-ok (err failure) next e = cc

pub map-eq-some {ℓ κ} :
    {A : Type ℓ} {B : Type κ} (f : A → B) (o : Option A) {b : B}
    → Option.map f o ≡ some b
    → (a : A) × (o ≡ some a) × (f a ≡ b)
map-eq-some f none h = cc
map-eq-some f (some a) h = (a, refl, cc)

pub and_then-eq-some {ℓ κ} :
    {A : Type ℓ} {B : Type κ} (o : Option A) (f : A → Option B) {b : B}
    → and_then o f ≡ some b
    → (a : A) × (o ≡ some a) × (f a ≡ some b)
and_then-eq-some none f h = cc
and_then-eq-some (some a) f h = (a, refl, h)

pub map_ok-eq-ok {ℓ κ} :
    {A : Type ℓ} {B : Type κ} (f : A → B) (m : Result A) {b : B}
    → map_ok f m ≡ ok b
    → (a : A) × (m ≡ ok a) × (f a ≡ b)
map_ok-eq-ok f (ok a) h = (a, refl, cc)
map_ok-eq-ok f (err e) h = cc

-- `bind` that succeeded.
pub bind-eq-ok :
    {X Y : Type 0} (first : Result X) (next : X → Result Y) {out : Y}
    → bind first next ≡ ok out
    → (x : X) × (first ≡ ok x) × (next x ≡ ok out)
bind-eq-ok (ok x) next e = (x, refl, e)
bind-eq-ok (err failure) next e = cc

pub ok_or-eq-ok : {A : Type 0} (o : Option A) {a : A} → ok_or o rejected ≡ ok a → o ≡ some a
ok_or-eq-ok none h = cc
ok_or-eq-ok (some a) h = cc

pub ok-eq : {A : Type 0} {a b : A} → ok a ≡ ok b → a ≡ b
ok-eq h = cc

pub some-eq : {A : Type 0} {a b : A} → some a ≡ some b → a ≡ b
some-eq h = cc

pub err-ne-ok {ℓ} : {A : Type ℓ} {e : Error} {a : A} → err e ≡ ok a → ⊥
err-ne-ok h = cc

pub none-ne-some {ℓ} : {A : Type ℓ} {a : A} → none ≡ some a → ⊥
none-ne-some h = cc
