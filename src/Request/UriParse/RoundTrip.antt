-- ===== src/Request/UriParse/RoundTrip.antt =====
-- A URI that is made of parts is read back as the parts.
use local_proxy_rs.Base.{
  ℕ, ◌<◌, [], ◌∷◌, ◌++◌, append_assoc, Option, none, some, some-eq, none-ne-some, Bytes, Lacks,
  All-append, ok, ◌≡◌, ◌≢◌, refl, sym, ap, ◌∙◌, arith,
}
use local_proxy_rs.Base.Decimal.{show_u16, show_u16-IsDigits, IsDigits}
use local_proxy_rs.Addr.{HostName, to_string_url_style, parse_host_header, split_once, rsplit_once}
use local_proxy_rs.Addr.RoundTrip.{
  IsCanonical, rsplit_once-Lacks, rsplit_once-append, parse_host_header-port,
}
use local_proxy_rs.Addr.Header.{parse_host_header-plain}
use local_proxy_rs.Request.UriParse.Text.{IsText, IsPercentEncoding}
use local_proxy_rs.Request.UriParse.{
  Uri, UriParts, Library, ParsedUri, split_login, path_or_root, query_or_none, parsed_uri, login,
  with_port, authority_of, with_query, uri_parts,
}

split_once-Lacks : (p : Bytes) (sep : ℕ) → Lacks sep p → split_once p sep ≡ none
unfolding split_once
split_once-Lacks [] sep h = refl
split_once-Lacks (c ∷ p) sep h = ground (arith, split_once-Lacks p sep h.1)

split_once-append :
    (p r : Bytes) (sep : ℕ) → Lacks sep p → split_once (p ++ sep ∷ r) sep ≡ some (p, r)
unfolding split_once
split_once-append [] r sep h = ground arith
split_once-append (c ∷ p) r sep (differs, h) = ground (arith, split_once-append p r sep h)

-- What the URI says of itself that `Uri::builder` makes of parts: the path ends at the first `?`.
pub record IsBuilt (parts : UriParts) (uri : Uri) : Type 0 where
  pub scheme : uri.scheme_str ≡ parts.scheme
  pub authority : uri.authority ≡ parts.authority
  pub path_and_query : with_query uri.path uri.query ≡ parts.path_and_query
  pub path : Lacks b'?' uri.path

abbrev pub HasPort : HostName → Option ℕ → Type 0
HasPort h none = Lacks b':' (to_string_url_style h)
HasPort h (some port) = port < 65536

-- A password comes with a user only.
abbrev pub HasUser : Option Bytes → Option Bytes → Type 0
HasUser none (some p) = ⊥
HasUser _ _ = Unit

abbrev pub HasText : Option Bytes → Type 0
HasText none = Unit
HasText (some s) = IsText s

abbrev pub HasQuery : Option Bytes → Type 0
HasQuery (some []) = ⊥
HasQuery _ = Unit

-- Parts that the text of a URI determines.
pub record IsPlain (u : ParsedUri) (host : HostName) : Type 0 where
  pub named : u.hostname ≡ some host
  pub canonical : IsCanonical host
  pub no_at : Lacks b'@' (to_string_url_style host)
  pub port : HasPort host u.port
  pub user : HasUser u.user u.password
  pub user_text : HasText u.user
  pub password_text : HasText u.password
  pub path : u.path ≢ []
  pub no_query_in_path : Lacks b'?' u.path
  pub query : HasQuery u.query

-- A Host header, or the end of an authority, that is written for a canonical host, with a port of 16
-- bits or, where the host's text has no colon, without one, is read as the host and the port.
pub parse_host_header-with_port :
    (h : HostName) (port : Option ℕ)
    → IsCanonical h
    → HasPort h port
    → parse_host_header (with_port (to_string_url_style h) port) ≡ ok (h, port)
parse_host_header-with_port h none c p = parse_host_header-plain h c p
parse_host_header-with_port h (some port) c p = parse_host_header-port h port c p

IsDigits-Lacks_at : (s : Bytes) → IsDigits s → Lacks b'@' s
IsDigits-Lacks_at [] d = tt
IsDigits-Lacks_at (c ∷ s) d = (λ e. omega arith, IsDigits-Lacks_at s d.1)

with_port-Lacks_at :
    (text : Bytes) (port : Option ℕ) → Lacks b'@' text → Lacks b'@' (with_port text port)
with_port-Lacks_at text none h = h
with_port-Lacks_at text (some port) h =
    All-append (λ c. c ≢ b'@') text (b':' ∷ show_u16 port) h
      ((λ e. omega arith), IsDigits-Lacks_at (show_u16 port) (show_u16-IsDigits port))

module _ (k : Library) (enc : IsPercentEncoding k) where
  split_login-login :
      (user password : Option Bytes) (host : Bytes)
      → HasUser user password
      → HasText user
      → HasText password
      → Lacks b'@' host
      → split_login k
          (login k user password ++ host)
          (rsplit_once (login k user password ++ host) b'@')
        ≡ ok ((user, password), host)
  split_login-login none none host h tu tp l = rw (rsplit_once-Lacks host b'@' l) refl
  split_login-login none (some p) host h tu tp l = absurd h
  split_login-login (some u) none host h tu tp l =
      let auth = k.encode u in
      let at : rsplit_once (login k (some u) none ++ host) b'@' ≡ some (auth, host) =
        ap (λ t. rsplit_once t b'@') (append_assoc auth (b'@' ∷ []) host)
        ∙ rsplit_once-append auth host b'@' l in
      rw at (rw (split_once-Lacks auth b':' (enc.no_colon u)) (rw (enc.decoded u tu) refl))
  split_login-login (some u) (some p) host h tu tp l =
      let auth = k.encode u ++ (b':' ∷ k.encode p) in
      let at : rsplit_once (login k (some u) (some p) ++ host) b'@' ≡ some (auth, host) =
        ap (λ t. rsplit_once t b'@') (joined (k.encode u) (k.encode p) host)
        ∙ rsplit_once-append auth host b'@' l in
      rw at (
        rw (split_once-append (k.encode u) (k.encode p) b':' (enc.no_colon u))
          (rw (enc.decoded u tu, enc.decoded p tp) refl))
    where
      joined :
          (a b c : Bytes)
          → (a ++ (b':' ∷ (b ++ (b'@' ∷ [])))) ++ c ≡ (a ++ (b':' ∷ b)) ++ (b'@' ∷ c)
      joined a b c =
          append_assoc a (b':' ∷ (b ++ (b'@' ∷ []))) c
          ∙ ap (λ t. a ++ (b':' ∷ t)) (append_assoc b (b'@' ∷ []) c)
          ∙ sym (append_assoc a (b':' ∷ b) (b'@' ∷ c))

-- The path and the query of a text in which the path has no `?`.
with_query_parts :
    (p p' : Bytes) (q q' : Option Bytes)
    → Lacks b'?' p
    → Lacks b'?' p'
    → with_query p q ≡ with_query p' q'
    → (p ≡ p') × (q ≡ q')
with_query_parts p p' none none l l' h = (h, refl)
with_query_parts p p' none (some q') l l' h = absurd (
    none-ne-some (
      sym (split_once-Lacks p b'?' l)
      ∙ ap (λ t. split_once t b'?') h
      ∙ split_once-append p' q' b'?' l'))
with_query_parts p p' (some q) none l l' h = absurd (
    none-ne-some (
      sym (split_once-Lacks p' b'?' l')
      ∙ ap (λ t. split_once t b'?') (sym h)
      ∙ split_once-append p q b'?' l))
with_query_parts p p' (some q) (some q') l l' h =
    let e : (p, q) ≡ (p', q') = some-eq (
      sym (split_once-append p q b'?' l)
      ∙ ap (λ t. split_once t b'?') h
      ∙ split_once-append p' q' b'?' l') in
    (ap (λ x. x.0) e, ap (λ x. some x.1) e)

path_or_root_self : (p : Bytes) → p ≢ [] → path_or_root p ≡ p
path_or_root_self [] h = absurd (h refl)
path_or_root_self (b ∷ p) h = refl

query_or_none_self : (q : Option Bytes) → HasQuery q → query_or_none q ≡ q
query_or_none_self none h = refl
query_or_none_self (some []) h = absurd h
query_or_none_self (some (b ∷ q)) h = refl

parsed_parts :
    (k : Library) (enc : IsPercentEncoding k) (scheme user password : Option Bytes)
    (host : HostName) (port : Option ℕ) (path : Bytes) (query : Option Bytes)
    → IsCanonical host
    → Lacks b'@' (to_string_url_style host)
    → HasPort host port
    → HasUser user password
    → HasText user
    → HasText password
    → path ≢ []
    → HasQuery query
    → parsed_uri k (record {
      scheme_str = scheme;
      authority = authority_of (login k user password) (some host) port;
      path = path;
      query = query;
    })
      ≡ ok (record {
        scheme = scheme;
        user = user;
        password = password;
        hostname = some host;
        port = port;
        path = path;
        query = query;
      })
unfolding parsed_uri
parsed_parts k enc scheme user password host port path query canonical no_at has_port has_user
      user_text password_text has_path has_query =
    let text = with_port (to_string_url_style host) port in
    rw
      (
        path_or_root_self path has_path,
        query_or_none_self query has_query,
        split_login-login k enc user password text has_user user_text password_text
            (with_port-Lacks_at (to_string_url_style host) port no_at),
      )
      (rw (parse_host_header-with_port host port canonical has_port) refl)

-- The URI that is built of plain parts is read back as the same parts: a scheme or none, a login of
-- any text, which is UTF-8, or none, a canonical host without an `@`, with a port or, where its text has no colon,
-- without one, a path that is not empty and has no `?`, and a query that is not empty or none.
pub parsed_uri-uri_parts :
    (k : Library) (u : ParsedUri) (host : HostName) (uri : Uri)
    → IsPercentEncoding k
    → IsPlain u host
    → IsBuilt (uri_parts k u) uri
    → parsed_uri k uri ≡ ok u
unfolding uri_parts
parsed_uri-uri_parts k u host uri enc p b =
    let (path, query) =
      with_query_parts uri.path u.path uri.query u.query b.path p.no_query_in_path
        b.path_and_query in
    let named : uri.authority ≡ authority_of (login k u.user u.password) (some host) u.port =
      b.authority ∙ ap (λ h. authority_of (login k u.user u.password) h u.port) p.named in
    let built : uri ≡ record {
      scheme_str = u.scheme;
      authority = authority_of (login k u.user u.password) (some host) u.port;
      path = u.path;
      query = u.query;
    } =
      λ i. record {
        scheme_str = b.scheme i;
        authority = named i;
        path = path i;
        query = query i;
      } in
    ap (parsed_uri k) built
    ∙ parsed_parts k enc u.scheme u.user u.password host u.port u.path u.query p.canonical p.no_at
        p.port p.user p.user_text p.password_text p.path p.query
    ∙ ap (λ h. ok (record u { hostname = h })) (sym p.named)
