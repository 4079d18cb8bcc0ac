-- ===== src/Doh.antt =====
-- local_proxy/src/utils/dns.rs: a DNS query by HTTPS, with a cache that knows no query ids; and
-- `RequestConfig` of local_proxy/src/inbound/http/http_proxy.rs.
pub mod Answers
mod Short
pub mod Resolve
mod Tests
use local_proxy_rs.Base.{
  ℕ, zero, suc, Bool, true, false, List, [], ◌∷◌, ◌++◌, Option, none, some, Bytes, ◌==◌, Error,
  rejected, Result, ok, err, bind, guard, ok_or, and_then,
}
use local_proxy_rs.Addr.{HostName, host_from_str}
use local_proxy_rs.Config.{Config, DohConfig}

pub record RequestConfig : Type 0 where
  pub doh : Bool
  pub fake_host : Option HostName
  pub fragment : Option Bool

abbrev pub new_request_config : RequestConfig
new_request_config = record { doh = true; fake_host = none; fragment = none }

-- `ttl_cache::TtlCache`, behind its lock.
pub record Cache (C : Type 0) : Type 0 where
  pub get : C → Bytes → Option Bytes
  pub insert : Bytes → Bytes → C → C

-- A frame of a response's body; its data comes in the chunks that `Buf` shows.
pub data Frame : Type 0 where
  data_frame : List Bytes → Frame
  trailers : Frame

pub record Response : Type 0 where
  pub is_success : Bool
  pub frames : List (Result Frame)

-- What the query calls: `Uri::from_str`, and `http_proxy::send_request` with the POST request.
pub record Client (U : Type 0) : Type 0 where
  pub parse_uri : Bytes → Result U
  pub send_request : U → Bytes → RequestConfig → Result Response

-- `while !chunk.is_empty() { … }`
abbrev pub read_chunks : List Bytes → Bytes
read_chunks [] = []
read_chunks ([] ∷ cs) = []
read_chunks ((b ∷ c) ∷ cs) = (b ∷ c) ++ read_chunks cs

abbrev pub extend : Bytes → Result Bytes → Result Bytes
extend b (ok rest) = ok (b ++ rest)
extend b (err e) = err e

-- `while let Some(frame) = … { if let Some(data) = frame?.data_mut() { … } }`
unfoldable pub read_body : List (Result Frame) → Result Bytes
read_body [] = ok []
read_body (err e ∷ fs) = err e
read_body (ok trailers ∷ fs) = read_body fs
read_body (ok (data_frame cs) ∷ fs) = extend (read_chunks cs) (read_body fs)

-- The two `*v.get_mut(i).ok_or("")? = …`.
abbrev pub set_id : ℕ → ℕ → Bytes → Result Bytes
set_id a b (x ∷ y ∷ r) = ok (a ∷ b ∷ r)
set_id a b _ = err rejected

-- `match &doh_config.fake_host { Some(f) => HostName::from_str(f).ok(), _ => None }`.
abbrev pub parsed_host : Result HostName → Option HostName
parsed_host (ok h) = some h
parsed_host (err e) = none

abbrev pub fake_host_of : Option Bytes → Option HostName
fake_host_of none = none
fake_host_of (some f) = parsed_host (host_from_str f)

-- `if let Some(1) = &proxy.config.fragment`.
abbrev pub doh_fragment : Option ℕ → Option Bool
doh_fragment none = none
doh_fragment (some n) = elim (n == 1) [ true ↦ some true | false ↦ none ]

abbrev pub request_config : Config → DohConfig → RequestConfig
request_config config d = record {
  doh = false;
  fake_host = fake_host_of d.fake_host;
  fragment = doh_fragment config.fragment;
}

abbrev pub body_of : Response → Result Bytes
body_of r = bind (guard r.is_success rejected) (λ _. read_body r.frames)

-- The body of the answer from the server, for a query with the id 0xabcd.
unfoldable pub ask : {U : Type 0} → Client U → Config → Bytes → Result Bytes
ask k config query = bind (ok_or config.doh rejected) (λ d.
    bind (k.parse_uri d.endpoint)
      (λ endpoint. bind (k.send_request endpoint query (request_config config d)) body_of))

-- The cache takes the answer before the id is set.
abbrev pub after_ask : {C : Type 0} → Cache C → C → Bytes → ℕ → ℕ → Result Bytes → C × Result Bytes
after_ask cache c query a b (ok body) = (cache.insert query body c, set_id a b body)
after_ask cache c query a b (err e) = (c, err e)

abbrev pub after_get :
    {C U : Type 0}
    → Cache C
    → Client U
    → Config
    → C
    → Bytes
    → ℕ
    → ℕ
    → Option Bytes
    → C × Result Bytes
after_get cache k config c query a b (some found) = (c, set_id a b found)
after_get cache k config c query a b none = after_ask cache c query a b (ask k config query)

unfoldable pub doh_query :
    {C U : Type 0} → Cache C → Client U → Config → C → Bytes → C × Result Bytes
doh_query cache k config c (a ∷ b ∷ q) =
    let query = 0xab ∷ 0xcd ∷ q in after_get cache k config c query a b (cache.get c query)
doh_query cache k config c _ = (c, err rejected)
