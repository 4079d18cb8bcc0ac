-- ===== src/Request/Rewrite.antt =====
-- What a request looks like when it is sent on.
use local_proxy_rs.Base.{
  true, false, Option, none, some, Bytes, codes, All, if◌then◌else◌, Bool-cases, inl, inr, ok, err,
  rejected, ok_or, bind-eq-ok, ok_or-eq-ok, ok-eq, some-eq, ◌≡◌, refl, sym, ap, ◌∙◌,
}
use mathlib.Core.Path.{subst}
use local_proxy_rs.Addr.{HostName, parse_host_header}
use local_proxy_rs.Request.{
  Headers, Request, get, insert, insert_parsed, find_server, is_http, authorize, host_header,
  set_te, remove_proxy, exists_trailers, finish, rewrite_request,
}
use local_proxy_rs.Request.UriParse.{Library, ParsedUri, parsed_uri, uri_parts, with_query}
use local_proxy_rs.Request.Headers.{
  get-remove_other, is_proxy, remove_proxy-All, get-remove_proxy, get-set_te, remove-All,
}

-- A request as it is sent on, for the server that was found.
pub record IsRewritten (k : Library) (uri : ParsedUri) (hs : Headers) (scheme : Bytes) (r : Request)
    : Type 0 where
  pub known : uri.scheme ≡ some scheme
  -- none of the headers is for proxies
  pub no_proxy : All (λ h. is_proxy h.0 ≡ false) r.headers
  -- `te` stands only for trailers
  pub te :
      get (codes "te") r.headers
      ≡ (if exists_trailers k (get (codes "te") hs) then some (codes "trailers") else none)
  -- `host` names the server, and its port unless it is the one of the scheme
  pub host :
      (hostname : HostName) × (v : Bytes) × (uri.hostname ≡ some hostname)
      × (k.parse_value (host_header scheme hostname uri.port) ≡ ok v)
      × (get (codes "host") r.headers ≡ some v)
  -- the URI is made of the path and the query alone
  pub origin :
      k.build
        (record { scheme = none; authority = none; path_and_query = with_query uri.path uri.query })
      ≡ ok r.uri

insert_host :
    (k : Library) (v : Bytes) (hs : Headers)
    → let out = insert (codes "host") v (remove_proxy (set_te k hs)) in
      All (λ h. is_proxy h.0 ≡ false) out
      × (get (codes "te") out
          ≡ (if exists_trailers k (get (codes "te") hs) then some (codes "trailers") else none))
      × (get (codes "host") out ≡ some v)
insert_host k v hs = (
  (
    refl,
    remove-All (λ h. is_proxy h.0 ≡ false) (codes "host") (remove_proxy (set_te k hs))
        (remove_proxy-All (set_te k hs)),
  ),
  get-remove_other (codes "te") (codes "host") (remove_proxy (set_te k hs)) refl
      ∙ get-remove_proxy (codes "te") (set_te k hs) refl
      ∙ get-set_te k hs,
  refl,
)

finish-IsRewritten :
    (k : Library) (uri : ParsedUri) (hs : Headers) (scheme : Bytes) (r : Request)
    → finish k (uri, hs) ≡ ok (scheme, r)
    → IsRewritten k uri hs scheme r
unfolding finish uri_parts
finish-IsRewritten k uri hs scheme r h =
    let clean = remove_proxy (set_te k hs) in
    let (s, e1, h1) = bind-eq-ok (ok_or uri.scheme rejected) _ h in
    let (hostname, e2, h2) = bind-eq-ok (ok_or uri.hostname rejected) _ h1 in
    let (out, e3, h3) =
      bind-eq-ok (insert_parsed k (codes "host") (host_header s hostname uri.port) clean) _ h2 in
    let (v, e4, h4) = bind-eq-ok (k.parse_value (host_header s hostname uri.port)) _ e3 in
    let (u, e5, h5) = bind-eq-ok (k.build _) _ h3 in
    let (no_proxy, te, host) = insert_host k v hs in
    subst (λ x. IsRewritten k uri hs x.0 x.1)
      (ap {A = Headers} {B = Bytes × Request} (λ o. (s, record { uri = u; headers = o })) (ok-eq h4)
        ∙ ok-eq h5)
      (record {
        known = ok_or-eq-ok uri.scheme e1;
        no_proxy = no_proxy;
        te = te;
        host = (hostname, v, ok_or-eq-ok uri.hostname e2, e4, host);
        origin = e5;
      })

-- The server that is found is spoken to by HTTP, and the path and the query stay.
find_server-keeps :
    (k : Library) (uri : ParsedUri) (hs : Headers) (o : Option Bytes) (found : ParsedUri × Headers)
    (scheme : Bytes)
    → uri.scheme ≡ o
    → find_server k uri hs o ≡ ok found
    → found.0.scheme ≡ some scheme
    → (is_http scheme ≡ true) × (found.0.path ≡ uri.path) × (found.0.query ≡ uri.query)
find_server-keeps k uri hs none found scheme o e h =
    let (v, e1, h1) = bind-eq-ok (ok_or (get (codes "host") hs) rejected) _ e in
    let (host, e2, h2) = bind-eq-ok (k.to_str v) _ h1 in
    let (r, e3, h3) = bind-eq-ok (parse_host_header host) _ h2 in
    let same : (record uri { scheme = some (codes "http"); hostname = some r.0; port = r.1 }, hs)
        ≡ found =
      ok-eq h3 in
    (
      subst (λ x. is_http x ≡ true) (some-eq (ap (λ x. x.0.scheme) same ∙ h)) refl,
      ap (λ x. x.0.path) (sym same),
      ap (λ x. x.0.query) (sym same),
    )
find_server-keeps k uri hs (some s) found scheme o e h = elim (Bool-cases (is_http s)) [
  | inl t ↦
      let (hs', e1, h1) =
        bind-eq-ok (authorize k uri hs (get (codes "authorization") hs) uri.user) _ (rw t at e) in
      let same : (uri, hs') ≡ found = ok-eq h1 in
      (
        subst (λ x. is_http x ≡ true) (some-eq (sym o ∙ ap (λ x. x.0.scheme) same ∙ h)) t,
        ap (λ x. x.0.path) (sym same),
        ap (λ x. x.0.query) (sym same),
      )
  | inr t ↦ absurd (err_ok (rw t at e))
]
  where
    err_ok : err rejected ≡ ok found → ⊥
    err_ok x = cc

-- A request that is sent on: its URI could be read, and a server was found for it, in the URI or in
-- its `host` header; it has no header for proxies, its `te` stands only for trailers, its `host` names
-- that server and, unless it is the scheme's own, the port, and its URI has the path and the query
-- that came, and nothing else.
pub rewrite_request-IsRewritten :
    (k : Library) (r r' : Request) (scheme : Bytes)
    → rewrite_request k r ≡ ok (scheme, r')
    → (uri found : ParsedUri) × (hs : Headers) × (parsed_uri k r.uri ≡ ok uri)
      × (find_server k uri r.headers uri.scheme ≡ ok (found, hs))
      × (is_http scheme ≡ true)
      × (found.path ≡ uri.path)
      × (found.query ≡ uri.query)
      × IsRewritten k found hs scheme r'
unfolding rewrite_request
rewrite_request-IsRewritten k r r' scheme h =
    let (uri, e1, h1) = bind-eq-ok (parsed_uri k r.uri) _ h in
    let (found, e2, h2) = bind-eq-ok (find_server k uri r.headers uri.scheme) (finish k) h1 in
    let w = finish-IsRewritten k found.0 found.1 scheme r' h2 in
    let (a, b, c) = find_server-keeps k uri r.headers uri.scheme found scheme refl e2 w.known in
    (uri, found.0, found.1, e1, e2, a, b, c, w)
