-- ===== src/Net/Hex.antt =====
-- The groups of an IPv6 address are read back from their text.
use local_proxy_rs.Base.{
  ℕ, ◌+◌, ◌*◌, ◌/◌, ◌%◌, ◌<◌, true, List, [], ◌∷◌, ◌++◌, none, some, Bytes, Lacks, All, All-append,
  ltb, leb, length, ◌&&◌, if◌then◌else◌, append-nil, ◌≡◌, ◌≢◌, refl, sym, ap, ◌∙◌, arith,
}
use mathlib.Core.Path.{subst}
use local_proxy_rs.Net.{
  split, parse_v4, hex_digit, hex_value, parse_group, parse_groups, hex_char, show_hex,
  show_segments,
}
use local_proxy_rs.Net.V4.{split-append, split-Lacks}

hex_digit-hex_char : (d : ℕ) → d < 16 → hex_digit (hex_char d) ≡ some d
hex_digit-hex_char d h = ground arith

-- The digits of a group.
abbrev nibbles : ℕ → List ℕ
nibbles n =
    if ltb n 16
    then n ∷ []
    else if ltb n 256
    then n / 16 ∷ n % 16 ∷ []
    else if ltb n 4096
    then n / 256 ∷ n / 16 % 16 ∷ n % 16 ∷ []
    else n / 4096 ∷ n / 256 % 16 ∷ n / 16 % 16 ∷ n % 16 ∷ []

abbrev chars : List ℕ → Bytes
chars [] = []
chars (d ∷ ds) = hex_char d ∷ chars ds

abbrev value : List ℕ → ℕ → ℕ
value [] n = n
value (d ∷ ds) n = value ds (n * 16 + d)

abbrev AreNibbles : List ℕ → Type 0
AreNibbles = All (λ d. d < 16)

show_hex-nibbles : (n : ℕ) (out : Bytes) → show_hex n out ≡ chars (nibbles n) ++ out
show_hex-nibbles n out = ground arith

nibbles-AreNibbles : (n : ℕ) → n < 65536 → AreNibbles (nibbles n)
nibbles-AreNibbles n h = ground arith

value-nibbles : (n : ℕ) → value (nibbles n) 0 ≡ n
value-nibbles n = ground arith

hex_value-chars : (ds : List ℕ) (n : ℕ) → AreNibbles ds → hex_value (chars ds) n ≡ some (value ds n)
hex_value-chars [] n h = refl
hex_value-chars (d ∷ ds) n (h, k) = rw (hex_digit-hex_char d h) (hex_value-chars ds (n * 16 + d) k)

nibbles_fit :
    (n : ℕ) → (ltb 0 (length (chars (nibbles n))) && leb (length (chars (nibbles n))) 4) ≡ true
nibbles_fit n = ground arith

-- The byte is no separator of an address.
abbrev pub IsInner : ℕ → Type 0
IsInner c = (c ≢ b':') × (c ≢ b'.')

chars-IsInner : (ds : List ℕ) → AreNibbles ds → All IsInner (chars ds)
chars-IsInner [] h = tt
chars-IsInner (d ∷ ds) (h, k) = (((λ e. ground arith), λ e. ground arith), chars-IsInner ds k)

pub parse_group-show_hex : (n : ℕ) → n < 65536 → parse_group (show_hex n []) ≡ some n
parse_group-show_hex n h =
    ap parse_group (show_hex-nibbles n [] ∙ append-nil (chars (nibbles n)))
    ∙ rw (nibbles_fit n)
        (hex_value-chars (nibbles n) 0 (nibbles-AreNibbles n h) ∙ ap some (value-nibbles n))

pub show_hex-append : (n : ℕ) (out : Bytes) → show_hex n out ≡ show_hex n [] ++ out
show_hex-append n out = ground arith

pub show_hex-IsInner : (n : ℕ) → n < 65536 → All IsInner (show_hex n [])
show_hex-IsInner n h =
    subst (All IsInner) (sym (show_hex-nibbles n [] ∙ append-nil (chars (nibbles n))))
      (chars-IsInner (nibbles n) (nibbles-AreNibbles n h))

pub IsInner-Lacks_colon : (s : Bytes) → All IsInner s → Lacks b':' s
IsInner-Lacks_colon [] h = tt
IsInner-Lacks_colon (c ∷ s) (h, k) = (h.0, IsInner-Lacks_colon s k)

IsInner-Lacks_dot : (s : Bytes) → All IsInner s → Lacks b'.' s
IsInner-Lacks_dot [] h = tt
IsInner-Lacks_dot (c ∷ s) (h, k) = (h.1, IsInner-Lacks_dot s k)

-- Groups of 16 bits.
abbrev pub AreGroups : List ℕ → Type 0
AreGroups = All (λ n. n < 65536)

abbrev texts : List ℕ → List Bytes
texts [] = []
texts (n ∷ ns) = show_hex n [] ∷ texts ns

split-show_segments :
    (n : ℕ) (ns : List ℕ)
    → AreGroups (n ∷ ns)
    → split b':' (show_segments (n ∷ ns)) ≡ texts (n ∷ ns)
split-show_segments n [] (h, k) =
    split-Lacks b':' (show_hex n []) (IsInner-Lacks_colon (show_hex n []) (show_hex-IsInner n h))
split-show_segments n (m ∷ ns) (h, k) =
    ap (split b':') (show_hex-append n (b':' ∷ show_segments (m ∷ ns)))
    ∙ split-append b':' (show_hex n []) (show_segments (m ∷ ns))
        (IsInner-Lacks_colon (show_hex n []) (show_hex-IsInner n h))
    ∙ ap (λ t. show_hex n [] ∷ t) (split-show_segments m ns k)

pub parse_v4-Lacks_dot : (s : Bytes) → Lacks b'.' s → parse_v4 s ≡ none
unfolding parse_v4
parse_v4-Lacks_dot s h = rw (split-Lacks b'.' s h) refl

parse_groups-texts :
    (n : ℕ) (ns : List ℕ) → AreGroups (n ∷ ns) → parse_groups (texts (n ∷ ns)) ≡ some (n ∷ ns)
unfolding parse_groups
parse_groups-texts n [] (h, k) =
    rw
      (
        parse_v4-Lacks_dot (show_hex n [])
            (IsInner-Lacks_dot (show_hex n []) (show_hex-IsInner n h)),
        parse_groups,
      )
      (rw (parse_group-show_hex n h) refl)
parse_groups-texts n (m ∷ ns) (h, k) =
    rw (parse_group-show_hex n h) (rw (parse_groups-texts m ns k) refl)

-- The groups that are written with a colon between each two are read back.
pub parse_groups-show_segments :
    (n : ℕ) (ns : List ℕ)
    → AreGroups (n ∷ ns)
    → parse_groups (split b':' (show_segments (n ∷ ns))) ≡ some (n ∷ ns)
parse_groups-show_segments n ns h =
    ap parse_groups (split-show_segments n ns h) ∙ parse_groups-texts n ns h

pub show_segments-Lacks_dot : (ns : List ℕ) → AreGroups ns → Lacks b'.' (show_segments ns)
show_segments-Lacks_dot [] h = tt
show_segments-Lacks_dot (n ∷ []) (h, k) = IsInner-Lacks_dot (show_hex n []) (show_hex-IsInner n h)
show_segments-Lacks_dot (n ∷ m ∷ ns) (h, k) =
    subst (Lacks b'.') (sym (show_hex-append n (b':' ∷ show_segments (m ∷ ns)))) (
      All-append (λ c. c ≢ b'.') (show_hex n []) (b':' ∷ show_segments (m ∷ ns))
        (IsInner-Lacks_dot (show_hex n []) (show_hex-IsInner n h))
        ((λ e. omega arith), show_segments-Lacks_dot (m ∷ ns) k))

chars-cons :
    (ds : List ℕ) (out : Bytes)
    → AreNibbles ds
    → (ltb 0 (length (chars ds)) && leb (length (chars ds)) 4) ≡ true
    → (c : ℕ) × (s : Bytes) × (chars ds ++ out ≡ c ∷ s) × (c ≢ b':')
chars-cons [] out h l = cc
chars-cons (d ∷ ds) out (h, k) l = (hex_char d, chars ds ++ out, refl, λ e. ground arith)

show_hex-cons :
    (n : ℕ) (out : Bytes)
    → n < 65536
    → (c : ℕ) × (s : Bytes) × (show_hex n out ≡ c ∷ s) × (c ≢ b':')
show_hex-cons n out h =
    let (c, s, e, differs) = chars-cons (nibbles n) out (nibbles-AreNibbles n h) (nibbles_fit n) in
    (c, s, show_hex-nibbles n out ∙ e, differs)

-- The text of groups has a first character, which is no colon.
pub show_segments-cons :
    (n : ℕ) (ns : List ℕ)
    → AreGroups (n ∷ ns)
    → (c : ℕ) × (s : Bytes) × (show_segments (n ∷ ns) ≡ c ∷ s) × (c ≢ b':')
show_segments-cons n [] (h, k) = show_hex-cons n [] h
show_segments-cons n (m ∷ ns) (h, k) = show_hex-cons n (b':' ∷ show_segments (m ∷ ns)) h
