-- ===== src/Net/Gap.antt =====
-- The `::` of an IPv6 address: where it is found in a text, and the run of zeros that it stands for.
use local_proxy_rs.Base.{
  ℕ, suc, ◌+◌, Bool, true, false, ◌&&◌, List, [], ◌∷◌, ◌++◌, none, some, Bytes, Lacks, take, drop,
  leb, ◌==◌, ==_iff, if◌then◌else◌, ◌≡◌, ◌≢◌, refl, sym, ap, ◌∙◌, arith, Bool-cases, inl, inr,
}
use mathlib.Core.Path.{subst}
use local_proxy_rs.Net.{split_gap, zeros, zero_run, longest_run, show_hex, show_segments}
use local_proxy_rs.Net.Hex.{
  AreGroups, show_hex-append, show_hex-IsInner, IsInner-Lacks_colon, show_segments-cons,
}

-- No two colons in a row, and none at the end.
abbrev pub IsSeparated : Bytes → Type 0
IsSeparated [] = Unit
IsSeparated (c ∷ []) = c ≢ b':'
IsSeparated (c ∷ d ∷ s) = ((c == b':' && d == b':') ≡ false) × IsSeparated (d ∷ s)

pub split_gap-IsSeparated : (s : Bytes) → IsSeparated s → split_gap s ≡ none
unfolding split_gap
split_gap-IsSeparated [] h = refl
split_gap-IsSeparated (c ∷ []) h = refl
split_gap-IsSeparated (c ∷ d ∷ s) (h, k) = rw (h, split_gap-IsSeparated (d ∷ s) k) refl

pub split_gap-append :
    (p s : Bytes) → IsSeparated p → split_gap (p ++ (b':' ∷ b':' ∷ s)) ≡ some (p, s)
unfolding split_gap
split_gap-append [] s h = refl
split_gap-append (c ∷ []) s h = ground arith
split_gap-append (c ∷ d ∷ p) s (h, k) = rw (h, split_gap-append (d ∷ p) s k) refl

Lacks-IsSeparated : (s : Bytes) → Lacks b':' s → IsSeparated s
Lacks-IsSeparated [] h = tt
Lacks-IsSeparated (c ∷ []) (h, k) = h
Lacks-IsSeparated (c ∷ d ∷ s) (h, k) = (ground arith, Lacks-IsSeparated (d ∷ s) k)

IsSeparated-append :
    (p q : Bytes) (d : ℕ)
    → Lacks b':' p
    → d ≢ b':'
    → IsSeparated (d ∷ q)
    → IsSeparated (p ++ (b':' ∷ d ∷ q))
IsSeparated-append [] q d h differs k = (ground arith, k)
IsSeparated-append (c ∷ []) q d (h, _) differs k = (ground arith, (ground arith, k))
IsSeparated-append (c ∷ e ∷ p) q d (h, l) differs k =
    (ground arith, IsSeparated-append (e ∷ p) q d l differs k)

-- Groups have no `::` in their text.
pub show_segments-IsSeparated : (ns : List ℕ) → AreGroups ns → IsSeparated (show_segments ns)
show_segments-IsSeparated [] h = tt
show_segments-IsSeparated (n ∷ []) (h, k) =
    Lacks-IsSeparated (show_hex n []) (IsInner-Lacks_colon (show_hex n []) (show_hex-IsInner n h))
show_segments-IsSeparated (n ∷ m ∷ ns) (h, k) =
    let (c, s, e, differs) = show_segments-cons m ns k in
    let behind : IsSeparated (c ∷ s) = subst IsSeparated e (show_segments-IsSeparated (m ∷ ns) k) in
    subst IsSeparated
      (ap (λ t. show_hex n [] ++ (b':' ∷ t)) (sym e)
        ∙ sym (show_hex-append n (b':' ∷ show_segments (m ∷ ns))))
      (IsSeparated-append (show_hex n []) s c
        (IsInner-Lacks_colon (show_hex n []) (show_hex-IsInner n h)) differs behind)

-- A list starts with the zeros that are counted.
zeros-zero_run : (ns : List ℕ) → ns ≡ zeros (zero_run ns) ++ drop (zero_run ns) ns
zeros-zero_run [] = refl
zeros-zero_run (n ∷ ns) = elim (Bool-cases (n == 0)) [
  | inl t ↦ rw t (ap (λ x. x ∷ ns) ((==_iff n 0).0 t) ∙ ap (λ l. 0 ∷ l) (zeros-zero_run ns))
  | inr f ↦ rw f refl
]

-- A run of zeros stands in a list.
abbrev pub Splits : List ℕ → ℕ × ℕ → Type 0
Splits ns (at, len) = ns ≡ take at ns ++ (zeros len ++ drop (at + len) ns)

Splits-first : (ns : List ℕ) → Splits ns (0, zero_run ns)
Splits-first ns =
    zeros-zero_run ns
    ∙ ap (λ k. zeros (zero_run ns) ++ drop k ns)
        (let e : zero_run ns ≡ 0 + zero_run ns = omega arith in e)

Splits-later :
    (n : ℕ) (ns : List ℕ) (at len : ℕ) → Splits ns (at, len) → Splits (n ∷ ns) (at + 1, len)
Splits-later n ns at len h =
    let next : suc at ≡ at + 1 = omega arith in
    let behind : suc (at + len) ≡ at + 1 + len = omega arith in
    ap (λ t. n ∷ t) h
    ∙ ap (λ x. take x (n ∷ ns) ++ (zeros len ++ drop (suc (at + len)) (n ∷ ns))) next
    ∙ ap (λ x. take (at + 1) (n ∷ ns) ++ (zeros len ++ drop x (n ∷ ns))) behind

Splits-chosen :
    (n : ℕ) (ns : List ℕ) (run : ℕ × ℕ) (b : Bool)
    → Splits ns run
    → Splits (n ∷ ns) (if b then (0, zero_run (n ∷ ns)) else (run.0 + 1, run.1))
Splits-chosen n ns run true h = Splits-first (n ∷ ns)
Splits-chosen n ns (at, len) false h = Splits-later n ns at len h

pub longest_run-Splits : (ns : List ℕ) → Splits ns (longest_run ns)
longest_run-Splits [] = refl
longest_run-Splits (n ∷ ns) =
    Splits-chosen n ns (longest_run ns) (leb (longest_run ns).1 (zero_run (n ∷ ns)))
      (longest_run-Splits ns)
