-- ===== src/Net.antt =====
-- The standard library's IP addresses (`std::net`), as far as the program uses them: their text in
-- both directions and the test for a mapped address.
pub mod V4
pub mod Zero
pub mod Hex
mod Gap
pub mod V6
mod Tests
use mathlib.Core.Option
use local_proxy_rs.Base.{
  ℕ, zero, suc, ◌+◌, ◌-◌, ◌*◌, ◌/◌, ◌%◌, true, false, ◌&&◌, ◌||◌, List, [], ◌∷◌, ◌++◌, Option, none,
  some, Bytes, codes, length, contains, take, drop, ltb, leb, ◌==◌, if◌then◌else◌, and_then,
}
use local_proxy_rs.Base.Decimal.{digits, scan_u16, is_digit}

-- Four octets.
pub data Ipv4Addr : Type 0 where
  v4_octets : ℕ → ℕ → ℕ → ℕ → Ipv4Addr

-- Eight segments of 16 bits.
pub data Ipv6Addr : Type 0 where
  v6_segments : ℕ → ℕ → ℕ → ℕ → ℕ → ℕ → ℕ → ℕ → Ipv6Addr

pub data IpAddr : Type 0 where
  v4 : Ipv4Addr → IpAddr
  v6 : Ipv6Addr → IpAddr

abbrev pub octets : Ipv4Addr → Bytes
octets (v4_octets a b c d) = a ∷ b ∷ c ∷ d ∷ []

abbrev pub segments : Ipv6Addr → List ℕ
segments (v6_segments a b c d e f g h) = a ∷ b ∷ c ∷ d ∷ e ∷ f ∷ g ∷ h ∷ []

abbrev pub be_octets : List ℕ → Bytes
be_octets [] = []
be_octets (s ∷ ss) = s / 256 ∷ s % 256 ∷ be_octets ss

abbrev pub v6_octets : Ipv6Addr → Bytes
v6_octets a = be_octets (segments a)

-- `Ipv6Addr::to_ipv4_mapped`: of `::ffff:a.b.c.d`.
unfoldable pub to_ipv4_mapped : Ipv6Addr → Option Ipv4Addr
to_ipv4_mapped (v6_segments a b c d e f g h) =
    if a == 0 && (b == 0 && (c == 0 && (d == 0 && (e == 0 && f == 0xffff))))
    then some (v4_octets (g / 256) (g % 256) (h / 256) (h % 256))
    else none

-- `Ipv4Addr::to_string`.
unfoldable pub show_v4 : Ipv4Addr → Bytes
show_v4 (v4_octets a b c d) =
    digits 2 a (b'.' ∷ digits 2 b (b'.' ∷ digits 2 c (b'.' ∷ digits 2 d [])))

-- The parts between separators; there is always one.
abbrev pub put_first : ℕ → List Bytes → List Bytes
put_first c [] = (c ∷ []) ∷ []
put_first c (p ∷ ps) = (c ∷ p) ∷ ps

unfoldable pub split : ℕ → Bytes → List Bytes
split sep [] = [] ∷ []
split sep (c ∷ s) = let rest = split sep s in if c == sep then [] ∷ rest else put_first c rest

-- One octet: at most three digits, with no zero before others.
abbrev pub parse_octet : Bytes → Option ℕ
parse_octet [] = none
parse_octet (c ∷ s) =
    if ltb 2 (length s) || (c == b'0' && ltb 0 (length s))
    then none
    else and_then (scan_u16 (c ∷ s) 0) (λ n. if ltb n 256 then some n else none)

abbrev pub parse_octets : List Bytes → Option Ipv4Addr
parse_octets (a ∷ b ∷ c ∷ d ∷ []) = and_then (parse_octet a) (λ a'. and_then (parse_octet b) (λ b'.
    and_then (parse_octet c) (λ c'. Option.map (λ d'. v4_octets a' b' c' d') (parse_octet d))))
parse_octets _ = none

-- `Ipv4Addr::from_str`.
unfoldable pub parse_v4 : Bytes → Option Ipv4Addr
unfolding split
parse_v4 s = parse_octets (split b'.' s)

abbrev pub hex_digit : ℕ → Option ℕ
hex_digit c =
    if is_digit c
    then some (c - b'0')
    else if leb b'a' c && leb c b'f'
    then some (c - b'a' + 10)
    else if leb b'A' c && leb c b'F'
    then some (c - b'A' + 10)
    else none

abbrev pub hex_value : Bytes → ℕ → Option ℕ
hex_value [] n = some n
hex_value (c ∷ s) n = and_then (hex_digit c) (λ d. hex_value s (n * 16 + d))

-- A group of one to four hexadecimal digits.
abbrev pub parse_group : Bytes → Option ℕ
parse_group s = if ltb 0 (length s) && leb (length s) 4 then hex_value s 0 else none

-- The groups of a part of an address; the last may be an IPv4 address, which counts for two.
unfoldable pub parse_groups : List Bytes → Option (List ℕ)
unfolding parse_v4
parse_groups [] = some []
parse_groups (p ∷ []) = elim (parse_v4 p) [
  | some (v4_octets a b c d) ↦ some ((a * 256 + b) ∷ (c * 256 + d) ∷ [])
  | none ↦ Option.map (λ n. n ∷ []) (parse_group p)
]
parse_groups (p ∷ q ∷ ps) =
    and_then (parse_group p) (λ n. Option.map (λ ns. n ∷ ns) (parse_groups (q ∷ ps)))

-- A part beside `::` may be empty.
abbrev pub part_groups : Bytes → Option (List ℕ)
part_groups [] = some []
part_groups (c ∷ s) = parse_groups (split b':' (c ∷ s))

-- The part before `::` may not end in an IPv4 address.
abbrev pub head_groups : Bytes → Option (List ℕ)
head_groups s = if contains s b'.' then none else part_groups s

-- The text before and behind the first `::`.
unfoldable pub split_gap : Bytes → Option (Bytes × Bytes)
split_gap [] = none
split_gap (c ∷ []) = none
split_gap (c ∷ d ∷ s) =
    let rest = split_gap (d ∷ s) in
    if c == b':' && d == b':' then some ([], s) else Option.map (λ p. (c ∷ p.0, p.1)) rest

abbrev pub v6_of : List ℕ → Option Ipv6Addr
v6_of (a ∷ b ∷ c ∷ d ∷ e ∷ f ∷ g ∷ h ∷ []) = some (v6_segments a b c d e f g h)
v6_of _ = none

abbrev pub zeros : ℕ → List ℕ
zeros zero = []
zeros (suc n) = 0 ∷ zeros n

-- `::` stands for at least one group.
abbrev pub fill_gap : List ℕ → List ℕ → Option Ipv6Addr
fill_gap xs ys =
    if leb (length xs + length ys) 7
    then v6_of (xs ++ (zeros (8 - (length xs + length ys)) ++ ys))
    else none

-- `Ipv6Addr::from_str`.
unfoldable pub parse_v6 : Bytes → Option Ipv6Addr
unfolding split_gap parse_groups split
parse_v6 s = elim (split_gap s) [
  | none ↦ and_then (parse_groups (split b':' s)) v6_of
  | some (h, t) ↦ and_then (head_groups h) (λ xs. and_then (part_groups t) (λ ys. fill_gap xs ys))
]

-- `IpAddr::from_str`.
unfoldable pub parse_ip : Bytes → Option IpAddr
unfolding parse_v4 parse_v6
parse_ip s = elim (parse_v4 s) [ some a ↦ some (v4 a) | none ↦ Option.map v6 (parse_v6 s) ]

abbrev pub hex_char : ℕ → ℕ
hex_char d = if ltb d 10 then b'0' + d else b'a' + (d - 10)

-- `{:x}` of a segment before `out`.
abbrev pub show_hex : ℕ → Bytes → Bytes
show_hex n out =
    if ltb n 16
    then hex_char n ∷ out
    else if ltb n 256
    then hex_char (n / 16) ∷ hex_char (n % 16) ∷ out
    else if ltb n 4096
    then hex_char (n / 256) ∷ hex_char (n / 16 % 16) ∷ hex_char (n % 16) ∷ out
    else hex_char (n / 4096)
      ∷ hex_char (n / 256 % 16)
      ∷ hex_char (n / 16 % 16)
      ∷ hex_char (n % 16)
      ∷ out

abbrev pub show_segments : List ℕ → Bytes
show_segments [] = []
show_segments (n ∷ []) = show_hex n []
show_segments (n ∷ m ∷ ns) = show_hex n (b':' ∷ show_segments (m ∷ ns))

-- How many segments are zero from here on.
abbrev pub zero_run : List ℕ → ℕ
zero_run [] = 0
zero_run (n ∷ ns) = if n == 0 then suc (zero_run ns) else 0

-- The first longest run of zeros: where it starts and how long it is.
abbrev pub longest_run : List ℕ → ℕ × ℕ
longest_run [] = (0, 0)
longest_run (n ∷ ns) =
    let (at, len) = longest_run ns in
    if leb len (zero_run (n ∷ ns)) then (0, zero_run (n ∷ ns)) else (at + 1, len)

-- The segments with `::` for the run of `len` zeros at `at`, if there are two or more.
abbrev pub show_gap : List ℕ → ℕ × ℕ → Bytes
show_gap ns (at, len) =
    if ltb 1 len
    then show_segments (take at ns) ++ (codes "::" ++ show_segments (drop (at + len) ns))
    else show_segments ns

abbrev pub show_v6_of : Ipv6Addr → Option Ipv4Addr → Bytes
show_v6_of a (some b) = codes "::ffff:" ++ show_v4 b
show_v6_of a none = show_gap (segments a) (longest_run (segments a))

-- `Ipv6Addr::to_string`.
unfoldable pub show_v6 : Ipv6Addr → Bytes
unfolding to_ipv4_mapped show_v4
show_v6 a = show_v6_of a (to_ipv4_mapped a)
