-- ===== src/Doh/Tests.antt =====
-- A query and its answer at concrete input.
use local_proxy_rs.Base.{
  ℕ, ◌≡◌, refl, true, List, [], ◌∷◌, Option, none, some, Bytes, codes, bytes_eq, bytes_eq_refl,
  if◌then◌else◌, ok, err, rejected, arith,
}
use local_proxy_rs.Config.{Config}
use local_proxy_rs.Doh.{Cache, Client, data_frame, ask, read_body, doh_query}
use local_proxy_rs.Net.{v4_octets}
use local_proxy_rs.Addr.{domain, host_v4}
use local_proxy_rs.Doh.Resolve.{
  a, Answer, rdata_a, rdata_other, DnsParser, dns_resolve, IsFirst, dns_resolve-IsFirst,
}
use local_proxy_rs.Doh.Answers.{Keeps, Answered, doh_query-again}
use local_proxy_rs.Doh.Short.{doh_query_short}

-- A cache that forgets nothing.
abbrev list_get : List (Bytes × Bytes) → Bytes → Option Bytes
list_get [] q = none
list_get ((k, v) ∷ c) q = if bytes_eq k q then some v else list_get c q

abbrev list_cache : Cache (List (Bytes × Bytes))
list_cache = record { get = list_get; insert = λ q r c. (q, r) ∷ c }

list_cache-Keeps : Keeps list_cache
list_cache-Keeps q r c = rw (bytes_eq_refl q) refl

-- A server that sends the query back with one byte more.
abbrev echo_server : Client Bytes
echo_server = record {
  parse_uri = λ s. ok s;
  send_request = λ u q conf.
      ok (record { is_success = true; frames = ok (data_frame (q ∷ (9 ∷ []) ∷ [])) ∷ [] });
}

abbrev doh_settings : Config
doh_settings = record {
  proxies = none;
  doh = some (record { endpoint = codes "https://a/"; fake_host = none });
  fragment = some 1;
  http_listen = none;
  tproxy_listen = none;
  dns_listen = none;
}

answered :
    doh_query list_cache echo_server doh_settings [] (1 ∷ 2 ∷ 7 ∷ [])
    ≡ ((0xab ∷ 0xcd ∷ 7 ∷ [], 0xab ∷ 0xcd ∷ 7 ∷ 9 ∷ []) ∷ [], ok (1 ∷ 2 ∷ 7 ∷ 9 ∷ []))
unfolding doh_query ask read_body
answered = refl

doh_query-again_example :
    Answered Bytes list_cache doh_settings
      (7 ∷ [])
      1
      2
      (1 ∷ 2 ∷ 7 ∷ 9 ∷ [])
      ((0xab ∷ 0xcd ∷ 7 ∷ [], 0xab ∷ 0xcd ∷ 7 ∷ 9 ∷ []) ∷ [])
doh_query-again_example =
    doh_query-again list_cache echo_server doh_settings []
      ((0xab ∷ 0xcd ∷ 7 ∷ [], 0xab ∷ 0xcd ∷ 7 ∷ 9 ∷ []) ∷ []) 1 2 (7 ∷ []) (1 ∷ 2 ∷ 7 ∷ 9 ∷ [])
      list_cache-Keeps answered

abbrev two_answers : List Answer
two_answers =
    record { is_class_in = true; data_of = rdata_other }
    ∷ record { is_class_in = true; data_of = rdata_a (v4_octets 1 2 3 4) }
    ∷ []

-- A library that puts a name behind the id, and reads every reply as an alias and an address.
abbrev alias_parser : DnsParser
alias_parser = record { new_query = λ d t. ok (0xab ∷ 0xcd ∷ d); parse = λ b. ok two_answers }

dns_resolve-run :
    dns_resolve list_cache echo_server doh_settings alias_parser [] (domain (7 ∷ [])) a ≡ (
      (0xab ∷ 0xcd ∷ 7 ∷ [], 0xab ∷ 0xcd ∷ 7 ∷ 9 ∷ []) ∷ [],
      ok (some (host_v4 (v4_octets 1 2 3 4))),
    )
unfolding dns_resolve doh_query ask read_body
dns_resolve-run = refl

dns_resolve-IsFirst_example :
    (query b : Bytes) × (rs : List Answer) × (alias_parser.new_query (7 ∷ []) a ≡ ok query)
    × (doh_query list_cache echo_server doh_settings [] query
        ≡ ((0xab ∷ 0xcd ∷ 7 ∷ [], 0xab ∷ 0xcd ∷ 7 ∷ 9 ∷ []) ∷ [], ok b))
    × (alias_parser.parse b ≡ ok rs)
    × IsFirst rs (host_v4 (v4_octets 1 2 3 4))
dns_resolve-IsFirst_example =
    dns_resolve-IsFirst list_cache echo_server doh_settings alias_parser []
      ((0xab ∷ 0xcd ∷ 7 ∷ [], 0xab ∷ 0xcd ∷ 7 ∷ 9 ∷ []) ∷ []) (7 ∷ []) a
      (host_v4 (v4_octets 1 2 3 4)) dns_resolve-run

-- A server that answers with success and nothing.
abbrev empty_server : Client Bytes
empty_server = record {
  parse_uri = λ s. ok s;
  send_request = λ u q conf. ok (record { is_success = true; frames = [] });
}

nothing : ask empty_server doh_settings (0xab ∷ 0xcd ∷ 7 ∷ []) ≡ ok []
unfolding ask read_body
nothing = refl

doh_query_short_example :
    (c : List (Bytes × Bytes)) × (doh_query list_cache empty_server doh_settings [] (1 ∷ 2 ∷ 7 ∷ [])
      ≡ (c, err rejected))
    × ((k : Client Bytes) (a b : ℕ)
        → doh_query list_cache k doh_settings c (a ∷ b ∷ 7 ∷ []) ≡ (c, err rejected))
doh_query_short_example =
    doh_query_short list_cache empty_server doh_settings [] 1 2 (7 ∷ []) [] list_cache-Keeps refl
      nothing (omega arith)
