-- ===== src/Request/UriParse/Tests.antt =====
-- A URI with a login at concrete input.
use local_proxy_rs.Base.{
  [], ◌∷◌, ◌++◌, none, some, Bytes, codes, Lacks, ok, err, rejected, ◌≡◌, ◌≢◌, refl, arith,
}
use local_proxy_rs.Base.Decimal.{digits, show_u16}
use local_proxy_rs.Net.{v4_octets, show_v4}
use local_proxy_rs.Addr.{HostName, host_v4, to_string_url_style, parse_host_header}
use local_proxy_rs.Addr.Header.{Lacks-contains}
use local_proxy_rs.Request.UriParse.{
  Uri, ParsedUri, parsed_uri, uri_parts, login, with_port, authority_of,
}
use local_proxy_rs.Request.UriParse.Percent.{percent_library, percent_library-IsPercentEncoding}
use local_proxy_rs.Request.UriParse.RoundTrip.{
  IsPlain, IsBuilt, parse_host_header-with_port, parsed_uri-uri_parts,
}

abbrev host : HostName
host = host_v4 (v4_octets 10 0 0 1)

-- The bytes of `c@é`.
abbrev secret : Bytes
secret = codes "c@" ++ (0xc3 ∷ 0xa9 ∷ [])

abbrev with_login : ParsedUri
with_login = record {
  scheme = some (codes "http");
  user = some (codes "a:b");
  password = some secret;
  hostname = some host;
  port = some 8080;
  path = codes "/p";
  query = some (codes "q?r");
}

abbrev written : Uri
written = record {
  scheme_str = some (codes "http");
  authority =
      authority_of (login percent_library (some (codes "a:b")) (some secret)) (some host)
        (some 8080);
  path = codes "/p";
  query = some (codes "q?r");
}

host_no_at : Lacks b'@' (to_string_url_style host)
unfolding to_string_url_style show_v4 show_u16 digits
host_no_at = Lacks-contains (to_string_url_style host) b'@' refl

not_empty : codes "/p" ≢ []
not_empty e = cc

with_login-IsPlain : IsPlain with_login host
with_login-IsPlain = record {
  named = refl;
  canonical = (omega arith, omega arith, omega arith, omega arith);
  no_at = host_no_at;
  port = omega arith;
  user = tt;
  user_text = (ground arith, refl);
  password_text = (ground arith, refl);
  path = not_empty;
  no_query_in_path = Lacks-contains (codes "/p") b'?' refl;
  query = tt;
}

written-IsBuilt : IsBuilt (uri_parts percent_library with_login) written
unfolding uri_parts
written-IsBuilt = record {
  scheme = refl;
  authority = refl;
  path_and_query = refl;
  path = Lacks-contains (codes "/p") b'?' refl;
}

parsed_uri-uri_parts_example : parsed_uri percent_library written ≡ ok with_login
parsed_uri-uri_parts_example =
    parsed_uri-uri_parts percent_library with_login host written percent_library-IsPercentEncoding
      with_login-IsPlain written-IsBuilt

host_no_colon : Lacks b':' (to_string_url_style host)
unfolding to_string_url_style show_v4 show_u16 digits
host_no_colon = Lacks-contains (to_string_url_style host) b':' refl

parse_host_header-with_port_example :
    parse_host_header (with_port (to_string_url_style host) none) ≡ ok (host, none)
parse_host_header-with_port_example =
    parse_host_header-with_port host none (omega arith, omega arith, omega arith, omega arith)
      host_no_colon

-- What is percent-encoded, and a text that is no UTF-8.
secret_encoded : percent_library.encode secret ≡ codes "c%40%C3%A9"
secret_encoded = refl

not_text : percent_library.decode (codes "%FF") ≡ err rejected
not_text = refl
