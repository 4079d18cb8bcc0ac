-- ===== src/Request/Tests.antt =====
-- A request for a proxy at concrete input.
use local_proxy_rs.Base.{◌≡◌, refl, true, [], ◌∷◌, ◌++◌, none, some, Bytes, codes, ok, arith}
use local_proxy_rs.Base.Decimal.{show_u16}
use local_proxy_rs.Net.{v4_octets, split}
use local_proxy_rs.Addr.{HostName, host_v4, to_string_url_style}
use local_proxy_rs.Addr.RoundTrip.{parse_host_header-port}
use local_proxy_rs.Request.{
  Headers, Request, rewrite_request, find_server, is_http, finish, set_te, remove_proxy,
  host_header,
}
use local_proxy_rs.Request.UriParse.{Library, ParsedUri, parsed_uri, uri_parts}
use local_proxy_rs.Request.Rewrite.{IsRewritten, rewrite_request-IsRewritten}

-- Libraries that accept every text as it is.
abbrev pub plain : Library
plain = record {
  build = λ u. ok (record {
    scheme_str = u.scheme;
    authority = u.authority;
    path = u.path_and_query;
    query = none;
  });
  decode = λ s. ok s;
  encode = λ s. s;
  base64 = λ s. s;
  to_str = λ s. ok s;
  parse_value = λ s. ok s;
}

abbrev pub server_host : HostName
server_host = host_v4 (v4_octets 10 0 0 1)

abbrev pub server_text : Bytes
server_text = to_string_url_style server_host ++ b':' ∷ show_u16 8080

abbrev pub incoming : Request
incoming = record {
  uri = record { scheme_str = none; authority = none; path = []; query = some (codes "q") };
  headers =
      (codes "proxy-connection", codes "keep-alive")
      ∷ (codes "host", server_text)
      ∷ (codes "te", codes "gzip, trailers;q=1")
      ∷ [];
}

abbrev pub outgoing : Request
outgoing = record {
  uri = record { scheme_str = none; authority = none; path = codes "/?q"; query = none };
  headers = (codes "host", server_text) ∷ (codes "te", codes "trailers") ∷ [];
}

pub rewritten : rewrite_request plain incoming ≡ ok (codes "http", outgoing)
unfolding rewrite_request parsed_uri finish set_te remove_proxy host_header uri_parts split
rewritten =
    rw
      (parse_host_header-port server_host 8080 (omega arith, omega arith, omega arith, omega arith)
        (omega arith))
      refl

rewrite_request-IsRewritten_example :
    (uri found : ParsedUri) × (hs : Headers) × (parsed_uri plain incoming.uri ≡ ok uri)
    × (find_server plain uri incoming.headers uri.scheme ≡ ok (found, hs))
    × (is_http (codes "http") ≡ true)
    × (found.path ≡ uri.path)
    × (found.query ≡ uri.query)
    × IsRewritten plain found hs (codes "http") outgoing
rewrite_request-IsRewritten_example =
    rewrite_request-IsRewritten plain incoming outgoing (codes "http") rewritten
