-- ===== src/Net/V4.antt =====
-- Every IPv4 address is read back from its text.
use local_proxy_rs.Base.{
  ℕ, zero, suc, ◌<◌, ◌≤◌, Bool, true, false, ◌&&◌, [], ◌∷◌, ◌++◌, Option, none, some, Bytes, Lacks,
  ◌≡◌, refl, ap, arith, ◌==◌, ==_iff,
}
use local_proxy_rs.Base.Decimal.{
  digits, digits-append, digits-cons_digit, scan_u16, digits-IsDigits, IsDigits,
}
use local_proxy_rs.Net.{Ipv4Addr, v4_octets, v4, show_v4, split, parse_octet, parse_v4, parse_ip}

is_some_of : ℕ → Option ℕ → Bool
is_some_of n none = false
is_some_of n (some m) = m == n

is_some_of_eq : (n : ℕ) (o : Option ℕ) → is_some_of n o ≡ true → o ≡ some n
unfolding is_some_of
is_some_of_eq n none h = cc
is_some_of_eq n (some m) h = ap some ((==_iff m n).0 h)

reads_back : ℕ → Bool
reads_back octet = is_some_of octet (parse_octet (digits 2 octet []))

-- Every octet up to a bound is tried.
tries : ℕ → Bool
tries zero = true
tries (suc bound) = tries bound && reads_back bound

tries-reads_back : (bound octet : ℕ) → octet < bound → tries bound ≡ true → reads_back octet ≡ true
unfolding tries
tries-reads_back zero octet below tried = absurd (omega arith)
tries-reads_back (suc bound) octet below tried = ground (arith, tries-reads_back bound octet)

octets_tried : tries 256 ≡ true
unfolding tries reads_back is_some_of digits scan_u16
octets_tried = refl

parse_octet-digits : (n : ℕ) → n < 256 → parse_octet (digits 2 n []) ≡ some n
unfolding reads_back
parse_octet-digits n h = is_some_of_eq n _ (tries-reads_back 256 n h octets_tried)

pub split-append :
    (sep : ℕ) (p s : Bytes) → Lacks sep p → split sep (p ++ sep ∷ s) ≡ p ∷ split sep s
unfolding split
split-append sep [] s h = ground arith
split-append sep (c ∷ p) s h = ground (arith, split-append sep p s h.1)

pub split-Lacks : (sep : ℕ) (p : Bytes) → Lacks sep p → split sep p ≡ p ∷ []
unfolding split
split-Lacks sep [] h = refl
split-Lacks sep (c ∷ p) h = ground (arith, split-Lacks sep p h.1)

IsDigits-Lacks : (b : ℕ) (s : Bytes) → b < b'0' → IsDigits s → Lacks b s
IsDigits-Lacks b [] h d = tt
IsDigits-Lacks b (c ∷ s) h d = (λ e. omega arith, IsDigits-Lacks b s h d.1)

split-digits :
    (n : ℕ) (s : Bytes) → split b'.' (digits 2 n (b'.' ∷ s)) ≡ digits 2 n [] ∷ split b'.' s
split-digits n s = rw digits-append (
    split-append b'.' (digits 2 n []) s
      (IsDigits-Lacks b'.' _ (omega arith) (digits-IsDigits 2 n [] tt)))

pub parse_v4-show_v4 :
    (a b c d : ℕ)
    → a < 256
    → b < 256
    → c < 256
    → d < 256
    → parse_v4 (show_v4 (v4_octets a b c d)) ≡ some (v4_octets a b c d)
unfolding parse_v4 show_v4
parse_v4-show_v4 a b c d ha hb hc hd =
    rw
      (
        split-digits a,
        split-digits b,
        split-digits c,
        split-Lacks b'.' (digits 2 d [])
            (IsDigits-Lacks b'.' _ (omega arith) (digits-IsDigits 2 d [] tt)),
      )
      (rw
        (
          parse_octet-digits a ha,
          parse_octet-digits b hb,
          parse_octet-digits c hc,
          parse_octet-digits d hd,
        )
        refl)

pub parse_ip-show_v4 :
    (a b c d : ℕ)
    → a < 256
    → b < 256
    → c < 256
    → d < 256
    → parse_ip (show_v4 (v4_octets a b c d)) ≡ some (v4 (v4_octets a b c d))
unfolding parse_ip
parse_ip-show_v4 a b c d ha hb hc hd = rw (parse_v4-show_v4 a b c d ha hb hc hd, parse_ip) refl

-- The text of an IPv4 address starts with a digit.
pub show_v4-cons :
    (a : Ipv4Addr) → (c : ℕ) × (s : Bytes) × (show_v4 a ≡ c ∷ s) × (b'0' ≤ c) × (c ≤ b'9')
unfolding show_v4
show_v4-cons (v4_octets a b c d) = digits-cons_digit 2 a _
