-- ===== src/Net/V6.antt =====
-- Every IPv6 address is read back from its text.
use local_proxy_rs.Base.{
  ℕ, zero, suc, ◌+◌, ◌-◌, ◌<◌, true, false, List, [], ◌∷◌, ◌++◌, none, some, Bytes, Lacks,
  All-append, contains, length, length-append, take, drop, leb, ltb, ◌≡◌, ◌≢◌, refl, sym, ap, ◌∙◌,
  arith, Bool-cases, inl, inr,
}
use mathlib.Core.Option
use local_proxy_rs.Net.{
  Ipv6Addr, v6_segments, v6, segments, to_ipv4_mapped, split, parse_groups, part_groups,
  head_groups, v6_of, zeros, fill_gap, parse_v6, parse_ip, show_segments, longest_run, show_gap,
  show_v6_of, show_v6,
}
use local_proxy_rs.Net.Hex.{
  AreGroups, parse_v4-Lacks_dot, parse_groups-show_segments, show_segments-Lacks_dot,
  show_segments-cons,
}
use local_proxy_rs.Net.Gap.{
  Splits, longest_run-Splits, split_gap-IsSeparated, split_gap-append, show_segments-IsSeparated,
}

contains-Lacks : (b : ℕ) (s : Bytes) → Lacks b s → contains s b ≡ false
contains-Lacks b [] h = refl
contains-Lacks b (c ∷ s) (h, k) = ground (arith, contains-Lacks b s k)

All-take : (k : ℕ) (ns : List ℕ) → AreGroups ns → AreGroups (take k ns)
All-take zero ns h = tt
All-take (suc k) [] h = tt
All-take (suc k) (n ∷ ns) (h, l) = (h, All-take k ns l)

All-drop : (k : ℕ) (ns : List ℕ) → AreGroups ns → AreGroups (drop k ns)
All-drop zero ns h = h
All-drop (suc k) [] h = tt
All-drop (suc k) (n ∷ ns) (h, l) = All-drop k ns l

length-zeros : (k : ℕ) → length (zeros k) ≡ k
length-zeros zero = refl
length-zeros (suc k) = omega (arith, length-zeros k)

part_groups-show_segments : (ns : List ℕ) → AreGroups ns → part_groups (show_segments ns) ≡ some ns
unfolding parse_groups
part_groups-show_segments [] h = refl
part_groups-show_segments (n ∷ ns) h =
    let (c, s, e, _) = show_segments-cons n ns h in
    ap part_groups e
    ∙ ap (λ t. parse_groups (split b':' t)) (sym e)
    ∙ parse_groups-show_segments n ns h

head_groups-show_segments : (ns : List ℕ) → AreGroups ns → head_groups (show_segments ns) ≡ some ns
head_groups-show_segments ns h =
    rw (contains-Lacks b'.' (show_segments ns) (show_segments-Lacks_dot ns h))
      (part_groups-show_segments ns h)

-- What stands around a run of two zeros or more fits with the run.
fill_gap-Splits :
    (ns : List ℕ) (at len : ℕ)
    → length ns ≡ 8
    → 1 < len
    → Splits ns (at, len)
    → fill_gap (take at ns) (drop (at + len) ns) ≡ v6_of ns
fill_gap-Splits ns at len eight long h =
    let xs = take at ns in
    let ys = drop (at + len) ns in
    let sum : length xs + len + length ys ≡ 8 = omega (
      arith,
      ap length h,
      length-append xs (zeros len ++ ys),
      length-append (zeros len) ys,
      length-zeros len,
    ) in
    let fits : leb (length xs + length ys) 7 ≡ true = ground arith in
    let rest : 8 - (length xs + length ys) ≡ len = omega arith in rw (fits, rest) (ap v6_of (sym h))

parse_v6-show_segments :
    (n : ℕ) (ns : List ℕ) → AreGroups (n ∷ ns) → parse_v6 (show_segments (n ∷ ns)) ≡ v6_of (n ∷ ns)
unfolding parse_v6
parse_v6-show_segments n ns groups =
    rw (split_gap-IsSeparated _ (show_segments-IsSeparated (n ∷ ns) groups), parse_v6)
      (rw (parse_groups-show_segments n ns groups) refl)

parse_v6-show_gap :
    (n : ℕ) (ns : List ℕ) (run : ℕ × ℕ)
    → AreGroups (n ∷ ns)
    → length (n ∷ ns) ≡ 8
    → Splits (n ∷ ns) run
    → parse_v6 (show_gap (n ∷ ns) run) ≡ v6_of (n ∷ ns)
unfolding parse_v6
parse_v6-show_gap n ns (at, len) groups eight h = elim (Bool-cases (ltb 1 len)) [
  | inl t ↦
      let long : 1 < len = ground arith in
      let xs = take at (n ∷ ns) in
      let ys = drop (at + len) (n ∷ ns) in
      let gap =
        split_gap-append (show_segments xs) (show_segments ys)
          (show_segments-IsSeparated xs (All-take at (n ∷ ns) groups)) in
      let above = head_groups-show_segments xs (All-take at (n ∷ ns) groups) in
      let below = part_groups-show_segments ys (All-drop (at + len) (n ∷ ns) groups) in
      rw (t, gap, parse_v6) (rw (above, below) (fill_gap-Splits (n ∷ ns) at len eight long h))
  | inr f ↦ rw f (parse_v6-show_segments n ns groups)
]

show_gap-Lacks_dot : (ns : List ℕ) (run : ℕ × ℕ) → AreGroups ns → Lacks b'.' (show_gap ns run)
show_gap-Lacks_dot ns (at, len) groups = elim (Bool-cases (ltb 1 len)) [
  | inl t ↦ rw t (
      All-append (λ c. c ≢ b'.') (show_segments (take at ns)) _
        (show_segments-Lacks_dot (take at ns) (All-take at ns groups))
        (
          (λ e. omega arith),
          (
            (λ e. omega arith),
            show_segments-Lacks_dot (drop (at + len) ns) (All-drop (at + len) ns groups),
          ),
        ))
  | inr f ↦ rw f (show_segments-Lacks_dot ns groups)
]

parse_ip-show_gap :
    (n : ℕ) (ns : List ℕ)
    → AreGroups (n ∷ ns)
    → length (n ∷ ns) ≡ 8
    → parse_ip (show_gap (n ∷ ns) (longest_run (n ∷ ns))) ≡ Option.map v6 (v6_of (n ∷ ns))
unfolding parse_ip
parse_ip-show_gap n ns groups eight =
    let run = longest_run (n ∷ ns) in
    let plain =
      parse_v4-Lacks_dot (show_gap (n ∷ ns) run) (show_gap-Lacks_dot (n ∷ ns) run groups) in
    rw (plain, parse_ip)
      (ap (Option.map v6) (parse_v6-show_gap n ns run groups eight (longest_run-Splits (n ∷ ns))))

-- An address of 16-bit segments that is not mapped is read back from its text.
pub parse_ip-show_v6 :
    (a : Ipv6Addr)
    → AreGroups (segments a)
    → to_ipv4_mapped a ≡ none
    → parse_ip (show_v6 a) ≡ some (v6 a)
unfolding show_v6
parse_ip-show_v6 (v6_segments a b c d e f g h) groups plain =
    ap (λ o. parse_ip (show_v6_of (v6_segments a b c d e f g h) o)) plain
    ∙ parse_ip-show_gap a (b ∷ c ∷ d ∷ e ∷ f ∷ g ∷ h ∷ []) groups refl
