-- ===== src/Doh/Resolve.antt =====
-- `HostName::dns_resolve` of local_proxy/src/utils/addr.rs: the address of a name by a DNS query.
-- The messages are built and read by the library dns_parser, a parameter.
use local_proxy_rs.Base.{
  Bool, true, false, List, [], ◌∷◌, ◌++◌, Option, none, some, none-ne-some, some-eq, Bytes,
  rejected, Result, ok, err, bind, bind-eq-ok, ok-eq, All, ◌≡◌, refl, sym, ap, ◌∙◌,
}
use local_proxy_rs.Net.{Ipv4Addr, Ipv6Addr}
use local_proxy_rs.Addr.{HostName, host_v4, domain, from_v4, from_v6}
use local_proxy_rs.Config.{Config}
use local_proxy_rs.Doh.{Cache, Client, doh_query}

pub data QueryType : Type 0 where
  aaaa a : QueryType

pub data RData : Type 0 where
  rdata_a : Ipv4Addr → RData
  rdata_aaaa : Ipv6Addr → RData
  rdata_other : RData

pub record Answer : Type 0 where
  pub is_class_in : Bool
  pub data_of : RData

-- `Builder` with the question for a name, and the answers of `Packet::parse`.
pub record DnsParser : Type 0 where
  pub new_query : Bytes → QueryType → Result Bytes
  pub parse : Bytes → Result (List Answer)

-- The address of an answer, where `dns_resolve` takes it.
abbrev pub address : Bool → RData → Option HostName
address false d = none
address true (rdata_a ip) = some (from_v4 ip)
address true (rdata_aaaa ip) = some (from_v6 ip)
address true rdata_other = none

abbrev pub or_next : Option HostName → Option HostName → Option HostName
or_next (some h) rest = some h
or_next none rest = rest

-- `for answer in response_body.answers { … }`
abbrev pub first_address : List Answer → Option HostName
first_address [] = none
first_address (r ∷ rs) = or_next (address r.is_class_in r.data_of) (first_address rs)

abbrev pub after_query : {C : Type 0} → DnsParser → C × Result Bytes → C × Result (Option HostName)
after_query dns (c, r) = (c, bind r (λ b. bind (dns.parse b) (λ rs. ok (first_address rs))))

abbrev pub run_query :
    {C U : Type 0}
    → Cache C
    → Client U
    → Config
    → DnsParser
    → C
    → Result Bytes
    → C × Result (Option HostName)
run_query cache k config dns c (ok query) = after_query dns (doh_query cache k config c query)
run_query cache k config dns c (err e) = (c, err rejected)

unfoldable pub dns_resolve :
    {C U : Type 0}
    → Cache C
    → Client U
    → Config
    → DnsParser
    → C
    → HostName
    → QueryType
    → C × Result (Option HostName)
dns_resolve cache k config dns c (domain d) t = run_query cache k config dns c (dns.new_query d t)
dns_resolve cache k config dns c _ t = (c, err rejected)

-- An answer of class IN that holds an address.
pub data HoldsAddress (r : Answer) (h : HostName) : Type 0 where
  holds_v4 :
      (ip : Ipv4Addr)
      → r.is_class_in ≡ true
      → r.data_of ≡ rdata_a ip
      → h ≡ host_v4 ip
      → HoldsAddress r h
  holds_v6 :
      (ip : Ipv6Addr)
      → r.is_class_in ≡ true
      → r.data_of ≡ rdata_aaaa ip
      → h ≡ from_v6 ip
      → HoldsAddress r h

-- No answer before this one holds an address.
abbrev pub IsFirst : List Answer → HostName → Type 0
IsFirst rs h =
    (before : List Answer) × (r : Answer) × (after : List Answer) × (rs ≡ before ++ r ∷ after)
    × All (λ x. (g : HostName) → ¬ HoldsAddress x g) before
    × HoldsAddress r h

address-HoldsAddress :
    (r : Answer) (b : Bool) (d : RData) (h : HostName)
    → r.is_class_in ≡ b
    → r.data_of ≡ d
    → address b d ≡ some h
    → HoldsAddress r h
address-HoldsAddress r false d h e f k = cc
address-HoldsAddress r true (rdata_a ip) h e f k = holds_v4 ip e f (sym (some-eq k))
address-HoldsAddress r true (rdata_aaaa ip) h e f k = holds_v6 ip e f (sym (some-eq k))
address-HoldsAddress r true rdata_other h e f k = cc

HoldsAddress-address :
    (r : Answer) (h : HostName) → HoldsAddress r h → address r.is_class_in r.data_of ≡ some h
HoldsAddress-address r h (holds_v4 ip e f k) = rw (e, f, k) refl
HoldsAddress-address r h (holds_v6 ip e f k) = rw (e, f, k) refl

or_next-IsFirst :
    (r : Answer) (rs : List Answer) (h : HostName) (o : Option HostName)
    → address r.is_class_in r.data_of ≡ o
    → or_next o (first_address rs) ≡ some h
    → (first_address rs ≡ some h → IsFirst rs h)
    → IsFirst (r ∷ rs) h
or_next-IsFirst r rs h (some h') f e next =
    ([], r, rs, refl, tt, address-HoldsAddress r r.is_class_in r.data_of h refl refl (f ∙ e))
or_next-IsFirst r rs h none f e next =
    let (before, x, after, same, none_before, is) = next e in
    (
      r ∷ before,
      x,
      after,
      ap (λ t. r ∷ t) same,
      ((λ g k. none-ne-some (sym f ∙ HoldsAddress-address r g k)), none_before),
      is,
    )

first_address-IsFirst : (rs : List Answer) (h : HostName) → first_address rs ≡ some h → IsFirst rs h
first_address-IsFirst [] h e = cc
first_address-IsFirst (r ∷ rs) h e =
    or_next-IsFirst r rs h (address r.is_class_in r.data_of) refl e (first_address-IsFirst rs h)

after_query-IsFirst :
    {C : Type 0} (dns : DnsParser) (p : C × Result Bytes) (c' : C) (h : HostName)
    → after_query dns p ≡ (c', ok (some h))
    → (b : Bytes) × (rs : List Answer) × (p ≡ (c', ok b)) × (dns.parse b ≡ ok rs) × IsFirst rs h
after_query-IsFirst {C} dns (c, r) c' h e =
    let (b, e1, h1) = bind-eq-ok r _ (ap (λ x. x.1) e) in
    let (rs, e2, h2) = bind-eq-ok (dns.parse b) _ h1 in
    (
      b,
      rs,
      ap {A = C} {B = C × Result Bytes} (λ x. (x, r)) (ap (λ x. x.0) e)
          ∙ ap {A = Result Bytes} {B = C × Result Bytes} (λ y. (c', y)) e1,
      e2,
      first_address-IsFirst rs h (ok-eq h2),
    )

-- An address found for a name is that of the first answer of class IN that holds one, in the reply to
-- the query for the name.
pub dns_resolve-IsFirst :
    {C U : Type 0} (cache : Cache C) (k : Client U) (config : Config) (dns : DnsParser) (c c' : C)
    (d : Bytes) (t : QueryType) (h : HostName)
    → dns_resolve cache k config dns c (domain d) t ≡ (c', ok (some h))
    → (query b : Bytes) × (rs : List Answer) × (dns.new_query d t ≡ ok query)
      × (doh_query cache k config c query ≡ (c', ok b))
      × (dns.parse b ≡ ok rs)
      × IsFirst rs h
unfolding dns_resolve
dns_resolve-IsFirst cache k config dns c c' d t h e = go (dns.new_query d t) refl e
  where
    go :
        (q : Result Bytes)
        → dns.new_query d t ≡ q
        → run_query cache k config dns c q ≡ (c', ok (some h))
        → (query b : Bytes) × (rs : List Answer) × (dns.new_query d t ≡ ok query)
          × (doh_query cache k config c query ≡ (c', ok b))
          × (dns.parse b ≡ ok rs)
          × IsFirst rs h
    go (err x) f e = absurd (err_ok (ap (λ x. x.1) e))
      where
        err_ok : err rejected ≡ ok (some h) → ⊥
        err_ok x = cc
    go (ok query) f e =
        let (b, rs, answered, parsed, is) =
          after_query-IsFirst dns (doh_query cache k config c query) c' h e in
        (query, b, rs, f, answered, parsed, is)
