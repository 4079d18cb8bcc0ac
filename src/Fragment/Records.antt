-- ===== src/Fragment/Records.antt =====
-- The TLS record layer as a receiver reads it, and what it makes of the fragments.
use local_proxy_rs.Base.{
  true, false, ℕ, zero, suc, ◌+◌, ◌*◌, ◌≤◌, All, ◌≡◌, refl, ap, List, [], ◌∷◌, ◌++◌, Option, none,
  some, Bytes, length, take, drop, leb, arith,
}
use mathlib.Core.Option
use local_proxy_rs.Fragment.Message.{fragments}

pub record TlsRecord : Type 0 where
  -- content type and version
  pub base : Bytes
  pub payload : Bytes

-- The records of a byte string, if it is a sequence of whole records; `fuel` bounds their number.
unfoldable pub read_records : ℕ → Bytes → Option (List TlsRecord)
read_records fuel [] = some []
read_records (suc fuel) (t ∷ v1 ∷ v2 ∷ hi ∷ lo ∷ rest) =
    let len = hi * 256 + lo in
    elim (leb len (length rest)) [
      | true ↦
          Option.map (λ rs. record { base = t ∷ v1 ∷ v2 ∷ []; payload = take len rest } ∷ rs)
            (read_records fuel (drop len rest))
      | false ↦ none
    ]
read_records _ _ = none

-- The handshake message that the records carry.
abbrev pub reassemble : List TlsRecord → Bytes
reassemble [] = []
reassemble (r ∷ rs) = r.payload ++ reassemble rs

-- One record for each byte.
abbrev pub one_each : Bytes → Bytes → List TlsRecord
one_each base [] = []
one_each base (b ∷ bs) = record { base = base; payload = b ∷ [] } ∷ one_each base bs

pub read_records-fragments :
    (t v1 v2 : ℕ) (payload : Bytes) (fuel : ℕ)
    → length payload ≤ fuel
    → read_records fuel (fragments (t ∷ v1 ∷ v2 ∷ []) payload)
      ≡ some (one_each (t ∷ v1 ∷ v2 ∷ []) payload)
unfolding read_records
read_records-fragments t v1 v2 [] zero h = refl
read_records-fragments t v1 v2 [] (suc fuel) h = refl
read_records-fragments t v1 v2 (b ∷ payload) zero h = absurd (omega arith)
read_records-fragments t v1 v2 (b ∷ payload) (suc fuel) h =
    ground (arith, read_records-fragments t v1 v2 payload fuel)

pub reassemble-one_each : (base payload : Bytes) → reassemble (one_each base payload) ≡ payload
reassemble-one_each base [] = refl
reassemble-one_each base (b ∷ payload) = ap (λ t. b ∷ t) (reassemble-one_each base payload)

pub one_each-All :
    (base payload : Bytes)
    → All (λ r. (r.base ≡ base) × (length r.payload ≡ 1)) (one_each base payload)
one_each-All base [] = tt
one_each-All base (b ∷ payload) = ((refl, refl), one_each-All base payload)
