-- ===== src/Request/UriParse.antt =====
-- local_proxy/src/utils/uri_parse.rs: the parts of a URI.
pub mod Text
pub mod RoundTrip
mod Percent
mod Tests
use local_proxy_rs.Base.{ℕ, [], ◌∷◌, ◌++◌, Option, none, some, Bytes, Result, ok, bind}
use local_proxy_rs.Base.Decimal.{show_u16}
use local_proxy_rs.Addr.{HostName, to_string_url_style, parse_host_header, split_once, rsplit_once}

-- What `hyper::Uri` says of itself.
pub record Uri : Type 0 where
  pub scheme_str : Option Bytes
  pub authority : Option Bytes
  pub path : Bytes
  pub query : Option Bytes

-- What `Uri::builder` is given.
pub record UriParts : Type 0 where
  pub scheme : Option Bytes
  pub authority : Option Bytes
  pub path_and_query : Bytes

-- The libraries of a request: hyper, percent-encoding and base64.
pub record Library : Type 0 where
  pub build : UriParts → Result Uri
  -- `percent_decode_str(..).decode_utf8()?`
  pub decode : Bytes → Result Bytes
  pub encode : Bytes → Bytes
  pub base64 : Bytes → Bytes
  -- `HeaderValue::to_str` and `HeaderValue::from_str`
  pub to_str : Bytes → Result Bytes
  pub parse_value : Bytes → Result Bytes

pub record ParsedUri : Type 0 where
  pub scheme : Option Bytes
  pub user : Option Bytes
  pub password : Option Bytes
  pub hostname : Option HostName
  pub port : Option ℕ
  pub path : Bytes
  pub query : Option Bytes

-- `if let Some((user_, password_)) = auth.split_once(':') { … }`
abbrev pub parse_login :
    Library → Bytes → Option (Bytes × Bytes) → Result (Option Bytes × Option Bytes)
parse_login k auth none = bind (k.decode auth) (λ u. ok (some u, none))
parse_login k auth (some (user, password)) =
    bind (k.decode user) (λ u. bind (k.decode password) (λ p. ok (some u, some p)))

-- `if let Some((auth, host_)) = authority.as_str().rsplit_once('@') { … }`
abbrev pub split_login :
    Library → Bytes → Option (Bytes × Bytes) → Result ((Option Bytes × Option Bytes) × Bytes)
split_login k text none = ok ((none, none), text)
split_login k text (some (auth, host)) =
    bind (parse_login k auth (split_once auth b':')) (λ login. ok (login, host))

abbrev pub with_authority : Library → ParsedUri → Option Bytes → Result ParsedUri
with_authority k uri none = ok uri
with_authority k uri (some text) = bind (split_login k text (rsplit_once text b'@')) (λ r.
    bind (parse_host_header r.1)
      (λ h. ok (record uri { user = r.0.0; password = r.0.1; hostname = some h.0; port = h.1 })))

abbrev pub path_or_root : Bytes → Bytes
path_or_root [] = b'/' ∷ []
path_or_root (b ∷ s) = b ∷ s

abbrev pub query_or_none : Option Bytes → Option Bytes
query_or_none (some (b ∷ s)) = some (b ∷ s)
query_or_none _ = none

-- `TryFrom<Uri> for ParsedUri`.
unfoldable pub parsed_uri : Library → Uri → Result ParsedUri
parsed_uri k uri =
    with_authority k
      (record {
        scheme = uri.scheme_str;
        user = none;
        password = none;
        hostname = none;
        port = none;
        path = path_or_root uri.path;
        query = query_or_none uri.query;
      })
      uri.authority

abbrev pub login : Library → Option Bytes → Option Bytes → Bytes
login k none password = []
login k (some user) none = k.encode user ++ (b'@' ∷ [])
login k (some user) (some password) = k.encode user ++ (b':' ∷ (k.encode password ++ (b'@' ∷ [])))

abbrev pub with_port : Bytes → Option ℕ → Bytes
with_port host none = host
with_port host (some port) = host ++ (b':' ∷ show_u16 port)

-- The authority is given to the builder only where there is a host.
abbrev pub authority_of : Bytes → Option HostName → Option ℕ → Option Bytes
authority_of login none port = none
authority_of login (some hostname) port =
    some (login ++ with_port (to_string_url_style hostname) port)

abbrev pub with_query : Bytes → Option Bytes → Bytes
with_query path none = path
with_query path (some query) = path ++ (b'?' ∷ query)

-- `TryInto<Uri> for ParsedUri`, up to `uri.build()`.
unfoldable pub uri_parts : Library → ParsedUri → UriParts
uri_parts k uri = record {
  scheme = uri.scheme;
  authority = authority_of (login k uri.user uri.password) uri.hostname uri.port;
  path_and_query = with_query uri.path uri.query;
}
