-- ===== src/Request/Headers.antt =====
-- Lookups in the headers after an insertion or a removal, and the headers for proxies.
use local_proxy_rs.Base.{
  Bool, true, false, ◌||◌, List, [], ◌∷◌, none, some, Bytes, codes, bytes_eq, bytes_eq_iff,
  bytes_eq_refl, All, Bool-cases, inl, inr, if◌then◌else◌, ◌≡◌, ◌⊎◌, refl, sym, ap, ◌∙◌,
}
use local_proxy_rs.Request.{
  Headers, get, remove, starts_with, proxy_header, remove_each, remove_proxy, Library,
  exists_trailers, set_te,
}
use mathlib.Core.Path.{subst}

pub get-remove_same : (n : Bytes) (hs : Headers) → get n (remove n hs) ≡ none
get-remove_same n [] = refl
get-remove_same n ((m, v) ∷ hs) = elim (Bool-cases (bytes_eq m n)) [
  | inl t ↦ rw t (get-remove_same n hs)
  | inr t ↦ rw (t, t) (get-remove_same n hs)
]

pub get-remove_other :
    (n m : Bytes) (hs : Headers) → bytes_eq m n ≡ false → get n (remove m hs) ≡ get n hs
get-remove_other n m [] h = refl
get-remove_other n m ((x, v) ∷ hs) h = elim (Bool-cases (bytes_eq x m)) [
  | inl t ↦
      let e : bytes_eq x n ≡ false =
        subst (λ y. bytes_eq y n ≡ false) (sym ((bytes_eq_iff x m).0 t)) h in
      rw (t, e) (get-remove_other n m hs h)
  | inr t ↦ rw t (ap (λ o. if bytes_eq x n then some v else o) (get-remove_other n m hs h))
]

abbrev pub is_proxy : Bytes → Bool
is_proxy n = starts_with n (codes "proxy-")

abbrev has : Bytes → List Bytes → Bool
has n [] = false
has n (m ∷ ms) = bytes_eq n m || has n ms

-- The names for proxies among the headers are all in the list.
abbrev Listed : List Bytes → Headers → Type 0
Listed ns = All (λ h. is_proxy h.0 ≡ true → has h.0 ns ≡ true)

remove-Listed :
    (n : Bytes) (ns : List Bytes) (hs : Headers) → Listed (n ∷ ns) hs → Listed ns (remove n hs)
remove-Listed n ns [] h = tt
remove-Listed n ns ((m, v) ∷ hs) (h, k) = elim (Bool-cases (bytes_eq m n)) [
  | inl t ↦ rw t (remove-Listed n ns hs k)
  | inr t ↦ rw t ((λ p. rw t at (h p)), remove-Listed n ns hs k)
]

remove_each-Listed :
    (ns : List Bytes) (hs : Headers)
    → Listed ns hs
    → All (λ h. is_proxy h.0 ≡ false) (remove_each ns hs)
remove_each-Listed [] [] h = tt
remove_each-Listed [] ((m, v) ∷ hs) (h, k) = (not_proxy (is_proxy m) h, remove_each-Listed [] hs k)
  where
    not_proxy : (b : Bool) → (b ≡ true → false ≡ true) → b ≡ false
    not_proxy true f = sym (f refl)
    not_proxy false f = refl
remove_each-Listed (n ∷ ns) hs h = remove_each-Listed ns (remove n hs) (remove-Listed n ns hs h)

Listed-cons : (n : Bytes) (ns : List Bytes) (hs : Headers) → Listed ns hs → Listed (n ∷ ns) hs
Listed-cons n ns [] h = tt
Listed-cons n ns ((m, v) ∷ hs) (h, k) = ((λ p. or_true (bytes_eq m n) (h p)), Listed-cons n ns hs k)
  where
    or_true : (b : Bool) {c : Bool} → c ≡ true → (b || c) ≡ true
    or_true true e = refl
    or_true false e = e

proxy_header-Listed : (hs : Headers) → Listed (proxy_header hs) hs
proxy_header-Listed [] = tt
proxy_header-Listed ((m, v) ∷ hs) = elim (Bool-cases (is_proxy m)) [
  | inl t ↦
      let e : proxy_header ((m, v) ∷ hs) ≡ m ∷ proxy_header hs = rw t refl in
      subst (λ ns. Listed ns ((m, v) ∷ hs)) (sym e)
        (
          (λ _. rw (bytes_eq_refl m) refl),
          Listed-cons m (proxy_header hs) hs (proxy_header-Listed hs),
        )
  | inr t ↦
      let e : proxy_header ((m, v) ∷ hs) ≡ proxy_header hs = rw t refl in
      subst (λ ns. Listed ns ((m, v) ∷ hs)) (sym e) ((λ p. cc), proxy_header-Listed hs)
]

-- No header for proxies is left.
pub remove_proxy-All : (hs : Headers) → All (λ h. is_proxy h.0 ≡ false) (remove_proxy hs)
unfolding remove_proxy
remove_proxy-All hs = remove_each-Listed (proxy_header hs) hs (proxy_header-Listed hs)

proxy_header-All : (hs : Headers) → All (λ n. is_proxy n ≡ true) (proxy_header hs)
proxy_header-All [] = tt
proxy_header-All ((m, v) ∷ hs) = elim (Bool-cases (is_proxy m)) [
  | inl t ↦ rw t (t, proxy_header-All hs)
  | inr t ↦ rw t (proxy_header-All hs)
]

clash : true ≡ false → ⊥
clash x = cc

get-remove_each :
    (n : Bytes) (ns : List Bytes) (hs : Headers)
    → is_proxy n ≡ false
    → All (λ m. is_proxy m ≡ true) ns
    → get n (remove_each ns hs) ≡ get n hs
get-remove_each n [] hs e h = refl
get-remove_each n (m ∷ ns) hs e (h, k) =
    get-remove_each n ns (remove m hs) e k
    ∙ get-remove_other n m hs (differ (Bool-cases (bytes_eq m n)))
  where
    differ : (bytes_eq m n ≡ true) ⊎ (bytes_eq m n ≡ false) → bytes_eq m n ≡ false
    differ (inr t) = t
    differ (inl t) = absurd (clash (sym h ∙ ap is_proxy ((bytes_eq_iff m n).0 t) ∙ e))

-- The others stay.
pub get-remove_proxy :
    (n : Bytes) (hs : Headers) → is_proxy n ≡ false → get n (remove_proxy hs) ≡ get n hs
unfolding remove_proxy
get-remove_proxy n hs e = get-remove_each n (proxy_header hs) hs e (proxy_header-All hs)

-- `te` says `trailers` or is gone.
pub get-set_te :
    (k : Library) (hs : Headers)
    → get (codes "te") (set_te k hs)
      ≡ (if exists_trailers k (get (codes "te") hs) then some (codes "trailers") else none)
unfolding set_te
get-set_te k hs = elim (Bool-cases (exists_trailers k (get (codes "te") hs))) [
  | inl t ↦ rw t refl
  | inr t ↦ rw t (get-remove_same (codes "te") hs)
]

pub remove-All :
    (P : Bytes × Bytes → Type 0) (n : Bytes) (hs : Headers) → All P hs → All P (remove n hs)
remove-All P n [] h = tt
remove-All P n ((m, v) ∷ hs) (h, k) = elim (Bool-cases (bytes_eq m n)) [
  | inl t ↦ rw t (remove-All P n hs k)
  | inr t ↦ rw t (h, remove-All P n hs k)
]
