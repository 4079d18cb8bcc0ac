-- ===== src/Outbound/Exchange/Tests.antt =====
-- A request and a lookup at concrete input.
use local_proxy_rs.Base.{
  true, false, List, [], ◌∷◌, Option, none, some, Bytes, codes, Result, ok, err, io, ◌≡◌, refl, inr,
}
use local_proxy_rs.Net.{v4_octets, parse_ip, parse_v4, parse_v6, split_gap, parse_groups, split}
use local_proxy_rs.Addr.{
  HostName, host_v4, domain, SocketAddr, parse_host_header, host_from_str, rsplit_once,
}
use local_proxy_rs.Config.{Config}
use local_proxy_rs.Doh.{new_request_config}
use local_proxy_rs.Request.{Request}
use local_proxy_rs.Outbound.Conn.{Conn}
use local_proxy_rs.Outbound.Stack.{
  Outbound, raw, fragment, rev, Network, connect, push_proxies, or_no_proxies, proxy_stack,
  request_stack,
}
use local_proxy_rs.Doh.Resolve.{QueryType, aaaa, a}
use local_proxy_rs.Outbound.Exchange.{
  Env, Exchanged, http_proxy, http_proxy_direct, happy_eyeballs, select,
}
use local_proxy_rs.Outbound.Exchange.Upgrade.{IsExchanged, http_proxy-IsExchanged}
use local_proxy_rs.Outbound.Exchange.Plain.{http_proxy-plain}
use local_proxy_rs.Outbound.Exchange.Eyeballs.{
  IsCandidate, happy_eyeballs-IsCandidate, happy_eyeballs-connects,
}

abbrev fresh : Conn
fresh = record { incoming = []; sent = [] }

-- A network on which every server answers.
abbrev open_network : Network
open_network = record {
  dial = λ t. ok fresh;
  set_nodelay = λ c. ok c;
  tls = λ name c. ok c;
  tunnel = λ r c. ok c;
  fragment_layer = λ c. c;
}

-- The name has an address of the second type only.
abbrev v4_only : QueryType → Result (Option HostName)
v4_only aaaa = err io
v4_only a = ok (some (host_v4 (v4_octets 93 184 216 34)))

abbrev named : SocketAddr
named = record { hostname = domain (codes "a.org"); port = 443 }

abbrev found_addr : SocketAddr
found_addr = record { hostname = host_v4 (v4_octets 93 184 216 34); port = 443 }

raw_connects : connect open_network (raw ∷ []) found_addr ≡ ok fresh
unfolding connect
raw_connects = refl

name_connects : happy_eyeballs open_network true v4_only aaaa (raw ∷ []) named ≡ ok fresh
unfolding happy_eyeballs select connect
name_connects = refl

happy_eyeballs-IsCandidate_example :
    (to : SocketAddr) × IsCandidate v4_only named to
    × (connect open_network (raw ∷ []) to ≡ ok fresh)
happy_eyeballs-IsCandidate_example =
    happy_eyeballs-IsCandidate open_network true v4_only aaaa (raw ∷ []) named fresh name_connects

happy_eyeballs-connects_example :
    (d : Conn) × (happy_eyeballs open_network true v4_only aaaa (raw ∷ []) named ≡ ok d)
happy_eyeballs-connects_example =
    happy_eyeballs-connects open_network v4_only aaaa (raw ∷ []) named found_addr fresh refl
      (inr (a, refl, refl)) raw_connects

abbrev no_proxies : Config
no_proxies = record {
  proxies = none;
  doh = none;
  fragment = none;
  http_listen = none;
  tproxy_listen = none;
  dns_listen = none;
}

abbrev id_text : Bytes → Bytes
id_text s = s

bare_stack : proxy_stack id_text no_proxies [] ≡ some (raw ∷ fragment ∷ [])
unfolding proxy_stack push_proxies
bare_stack = refl

-- Sends the request back.
abbrev mirror : Env Request
mirror = record {
  network = open_network;
  doh = true;
  answers = λ name. v4_only;
  first = a;
  library = record {
    build = λ u. err io;
    decode = λ s. ok s;
    encode = λ s. s;
    base64 = λ s. s;
    to_str = λ s. ok s;
    parse_value = λ s. ok s;
  };
  path_and_query = λ u. some u.path;
  send_request = λ c r. ok r;
  status = λ r. 101;
  upgrade_request = λ q. ok fresh;
  upgrade_response = λ r. ok fresh;
}

abbrev get_root : Request
get_root = record {
  uri = record { scheme_str = none; authority = none; path = codes "/"; query = none };
  headers = (codes "host", codes "a.org") ∷ [];
}

http_proxy-plain_example :
    (os : List Outbound) × (push_proxies id_text (or_no_proxies no_proxies.proxies) [] ≡ some os)
    × (http_proxy mirror
          (rev (request_stack none (some false) (raw ∷ fragment ∷ [])))
          (codes "http")
          new_request_config
          get_root
        ≡ http_proxy mirror (rev (raw ∷ os)) (codes "http") new_request_config get_root)
http_proxy-plain_example =
    http_proxy-plain mirror id_text no_proxies [] (some false) (raw ∷ fragment ∷ [])
      new_request_config get_root bare_stack

-- A response that switches protocols, and the copying that it starts.
abbrev switched : Exchanged Request
switched = record { response = get_root; task = some (ok (fresh, fresh)) }

root_switched :
    http_proxy mirror (raw ∷ []) (codes "http") new_request_config get_root ≡ ok switched
unfolding http_proxy http_proxy_direct happy_eyeballs select connect parse_host_header host_from_str
    parse_ip parse_v4 parse_v6 split_gap parse_groups split rsplit_once
root_switched = refl

http_proxy-IsExchanged_example : IsExchanged mirror get_root switched
http_proxy-IsExchanged_example =
    http_proxy-IsExchanged mirror (raw ∷ []) (codes "http") new_request_config get_root switched
      root_switched
