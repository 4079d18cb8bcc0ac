-- ===== src/Request.antt =====
-- local_proxy/src/inbound/http/http_proxy.rs: what is made of a request before it is sent on. The
-- headers are a list of names in small letters with their values, as `HeaderMap` iterates over them.
pub mod UriParse
pub mod Headers
pub mod Rewrite
pub mod Tests
use local_proxy_rs.Base.{
  ℕ, Bool, true, false, not, ◌&&◌, ◌||◌, List, [], ◌∷◌, ◌++◌, Option, none, some, Bytes, codes,
  bytes_eq, ltb, ◌==◌, if◌then◌else◌, Error, rejected, Result, ok, err, bind, ok_or,
}
use local_proxy_rs.Base.Decimal.{show_u16}
use local_proxy_rs.Net.{split}
use local_proxy_rs.Addr.{HostName, to_string_url_style, parse_host_header}
use UriParse.{Uri, UriParts, ParsedUri, Library, parsed_uri, uri_parts}

abbrev pub Headers : Type 0
Headers = List (Bytes × Bytes)

-- `HeaderMap::get`, `remove` and `insert`, which leaves one entry of the name.
abbrev pub get : Bytes → Headers → Option Bytes
get name [] = none
get name ((n, v) ∷ hs) = if bytes_eq n name then some v else get name hs

abbrev pub remove : Bytes → Headers → Headers
remove name [] = []
remove name ((n, v) ∷ hs) =
    let rest = remove name hs in if bytes_eq n name then rest else (n, v) ∷ rest

abbrev pub insert : Bytes → Bytes → Headers → Headers
insert name v hs = (name, v) ∷ remove name hs

pub record Request : Type 0 where
  pub uri : Uri
  pub headers : Headers

-- The value of an `authorization` header for the user of the URI.
abbrev pub basic : Library → Bytes → Option Bytes → Bytes
basic k user none = codes "Basic " ++ k.base64 (user ++ codes ":")
basic k user (some password) = codes "Basic " ++ k.base64 (user ++ (codes ":" ++ password))

abbrev pub insert_parsed : Library → Bytes → Bytes → Headers → Result Headers
insert_parsed k name value hs = bind (k.parse_value value) (λ v. ok (insert name v hs))

-- `if request.headers().get("authorization").is_none() { … }`
abbrev pub authorize : Library → ParsedUri → Headers → Option Bytes → Option Bytes → Result Headers
authorize k uri hs (some v) user = ok hs
authorize k uri hs none none = ok hs
authorize k uri hs none (some user) =
    insert_parsed k (codes "authorization") (basic k user uri.password) hs

-- The request line has no scheme: the server is the one of the `host` header.
abbrev pub from_host : Library → ParsedUri → Headers → Result (ParsedUri × Headers)
from_host k uri hs = bind (ok_or (get (codes "host") hs) rejected) (λ v. bind (k.to_str v) (λ host.
    bind (parse_host_header host)
      (λ r. ok (record uri { scheme = some (codes "http"); hostname = some r.0; port = r.1 }, hs))))

abbrev pub is_http : Bytes → Bool
is_http s = bytes_eq s (codes "http") || bytes_eq s (codes "https")

abbrev pub find_server : Library → ParsedUri → Headers → Option Bytes → Result (ParsedUri × Headers)
find_server k uri hs none = from_host k uri hs
find_server k uri hs (some scheme) =
    if is_http scheme
    then bind (authorize k uri hs (get (codes "authorization") hs) uri.user) (λ hs. ok (uri, hs))
    else err rejected

-- `str::trim` of a text without control characters but tabs.
abbrev pub is_space : ℕ → Bool
is_space b = b == 32 || b == 9

abbrev pub trim_start : Bytes → Bytes
trim_start [] = []
trim_start (b ∷ s) = let rest = trim_start s in if is_space b then rest else b ∷ s

abbrev pub trim_before : ℕ → Bytes → Bytes
trim_before b [] = if is_space b then [] else b ∷ []
trim_before b (c ∷ t) = b ∷ c ∷ t

abbrev pub trim_end : Bytes → Bytes
trim_end [] = []
trim_end (b ∷ s) = trim_before b (trim_end s)

-- `v.split(';').next().unwrap_or(v)`
abbrev pub first_or : Bytes → List Bytes → Bytes
first_or v [] = v
first_or v (p ∷ ps) = p

abbrev pub any_trailers : List Bytes → Bool
any_trailers [] = false
any_trailers (v ∷ vs) =
    bytes_eq (trim_end (trim_start (first_or v (split b';' v)))) (codes "trailers")
    || any_trailers vs

-- Whether `exists_trailers` is `Some(Ok(true))`.
abbrev pub names_trailers : Result Bytes → Bool
names_trailers (ok v) = any_trailers (split b',' v)
names_trailers (err e) = false

abbrev pub exists_trailers : Library → Option Bytes → Bool
exists_trailers k none = false
exists_trailers k (some v) = names_trailers (k.to_str v)

unfoldable pub set_te : Library → Headers → Headers
set_te k hs =
    if exists_trailers k (get (codes "te") hs)
    then insert (codes "te") (codes "trailers") hs
    else remove (codes "te") hs

abbrev pub starts_with : Bytes → Bytes → Bool
starts_with s [] = true
starts_with [] (p ∷ ps) = false
starts_with (b ∷ s) (p ∷ ps) = b == p && starts_with s ps

abbrev pub proxy_header : Headers → List Bytes
proxy_header [] = []
proxy_header ((n, v) ∷ hs) =
    let rest = proxy_header hs in if starts_with n (codes "proxy-") then n ∷ rest else rest

abbrev pub remove_each : List Bytes → Headers → Headers
remove_each [] hs = hs
remove_each (n ∷ ns) hs = remove_each ns (remove n hs)

unfoldable pub remove_proxy : Headers → Headers
remove_proxy hs = remove_each (proxy_header hs) hs

-- The `host` header: no port where it is the one of the scheme.
abbrev pub is_default : Bytes → ℕ → Bool
is_default scheme port =
    (bytes_eq scheme (codes "http") && port == 80)
    || (bytes_eq scheme (codes "https") && port == 443)

abbrev pub push_port : Bytes → Bytes → Option ℕ → Bytes
push_port scheme host none = host
push_port scheme host (some port) =
    if is_default scheme port then host else host ++ (b':' ∷ show_u16 port)

unfoldable pub host_header : Bytes → HostName → Option ℕ → Bytes
host_header scheme hostname port = push_port scheme (to_string_url_style hostname) port

-- The end of the rewriting, once the server is known: the headers, and a URI of path and query alone.
unfoldable pub finish : Library → ParsedUri × Headers → Result (Bytes × Request)
finish k (uri, hs) = bind (ok_or uri.scheme rejected) (λ scheme.
    bind (ok_or uri.hostname rejected) (λ hostname.
      bind
        (insert_parsed k (codes "host") (host_header scheme hostname uri.port)
          (remove_proxy (set_te k hs)))
        (λ hs.
          bind
            (k.build (
              uri_parts k (record uri {
                scheme = none;
                user = none;
                password = none;
                hostname = none;
                port = none;
              })))
            (λ u. ok (scheme, record { uri = u; headers = hs })))))

-- `send_request` up to the choice of the stack: the scheme, and the request to send.
unfoldable pub rewrite_request : Library → Request → Result (Bytes × Request)
rewrite_request k r =
    bind (parsed_uri k r.uri) (λ uri. bind (find_server k uri r.headers uri.scheme) (finish k))
