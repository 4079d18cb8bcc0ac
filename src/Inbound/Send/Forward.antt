-- ===== src/Inbound/Send/Forward.antt =====
-- A plain request that is handed on to an HTTP proxy: what the proxy gets.
use local_proxy_rs.Base.{
  Bool, true, false, List, [], ◌∷◌, ◌++◌, Option, none, some, Bytes, codes, bytes_eq, bytes_eq_iff,
  All, Bool-cases, inl, inr, Result, ok, rejected, map_ok-eq-ok, ok_or, bind-eq-ok, ok_or-eq-ok,
  ok-eq, some-eq, ◌≡◌, ◌≢◌, refl, sym, ap, ◌∙◌,
}
use mathlib.Core.Path.{subst}
use local_proxy_rs.Main.{ProxyState}
use local_proxy_rs.Doh.{RequestConfig}
use local_proxy_rs.Outbound.Conn.{Conn}
use local_proxy_rs.Outbound.Http.{HttpProxy}
use local_proxy_rs.Outbound.Stack.{
  Outbound, raw, server, http, rev, connect, proxy_stack, push_proxies, or_no_proxies,
}
use local_proxy_rs.Outbound.Stack.Route.{rev-append}
use local_proxy_rs.Outbound.Exchange.{
  Env, Exchanged, spawn_upgrade, http_proxy, forward, host_text, set_authorization,
}
use local_proxy_rs.Outbound.Exchange.Plain.{http_proxy-plain}
use local_proxy_rs.Request.{Headers, Request, get, rewrite_request}
use local_proxy_rs.Request.UriParse.{Library}
use local_proxy_rs.Request.Headers.{is_proxy, get-remove_other, remove-All}
use local_proxy_rs.Request.Rewrite.{rewrite_request-IsRewritten}
use local_proxy_rs.Inbound.Send.{send_request}

-- The value of `proxy-authorization` that belongs to the settings of a proxy.
abbrev pub Authorizes : Library → Option Bytes → Option Bytes → Type 0
Authorizes k none v = v ≡ none
Authorizes k (some auth) v =
    (value : Bytes) × (k.parse_value (codes "Basic " ++ auth) ≡ ok value) × (v ≡ some value)

-- The name of a header that is meant for the proxy that gets it.
abbrev pub OnlyAuthorization : Bytes × Bytes → Type 0
OnlyAuthorization h = is_proxy h.0 ≡ true → h.0 ≡ codes "proxy-authorization"

-- What the proxy `p` is sent for a request, and the response that it gives.
pub record IsForwarded {R : Type 0} (e : Env R) (p : HttpProxy) (r : Request) (c : Conn) (x : R)
    : Type 0 where
  pub sent : Request
  -- the URI is absolute, for the server of the `host` header
  pub absolute :
      (host : Bytes) × (pq : Bytes) × (host_text e.library r ≡ ok host)
      × (e.path_and_query r.uri ≡ some pq)
      × (e.library.build
            (record { scheme = some (codes "http"); authority = some host; path_and_query = pq })
          ≡ ok sent.uri)
  pub authorized : Authorizes e.library p.auth (get (codes "proxy-authorization") sent.headers)
  pub only : All OnlyAuthorization sent.headers
  -- the headers that are not for proxies are those of the request
  pub others : (n : Bytes) → is_proxy n ≡ false → get n sent.headers ≡ get n r.headers
  pub answered : e.send_request c sent ≡ ok x

clash : true ≡ false → ⊥
clash x = cc

names_differ :
    (n m : Bytes) {b c : Bool} → is_proxy n ≡ b → is_proxy m ≡ c → b ≢ c → bytes_eq n m ≡ false
names_differ n m h k d = elim (Bool-cases (bytes_eq n m)) [
  | inl t ↦ absurd (d (sym h ∙ ap is_proxy ((bytes_eq_iff n m).0 t) ∙ k))
  | inr f ↦ f
]

no_proxy-only : (hs : Headers) → All (λ h. is_proxy h.0 ≡ false) hs → All OnlyAuthorization hs
no_proxy-only [] h = tt
no_proxy-only ((n, v) ∷ hs) (h, k) = ((λ t. absurd (clash (sym t ∙ h))), no_proxy-only hs k)

no_proxy-get :
    (hs : Headers)
    → All (λ h. is_proxy h.0 ≡ false) hs
    → get (codes "proxy-authorization") hs ≡ none
no_proxy-get [] h = refl
no_proxy-get ((n, v) ∷ hs) (h, k) =
    rw (names_differ n (codes "proxy-authorization") h refl (λ x. clash (sym x)))
      (no_proxy-get hs k)

-- Among headers of which none is for proxies, the proxy's own is the only one that may be added.
abbrev IsAuthorized : Library → Option Bytes → Request → Request → Type 0
IsAuthorized k auth r out =
    (out.uri ≡ r.uri)
    × Authorizes k auth (get (codes "proxy-authorization") out.headers)
    × All OnlyAuthorization out.headers
    × ((n : Bytes) → is_proxy n ≡ false → get n out.headers ≡ get n r.headers)

set_authorization-IsAuthorized :
    (k : Library) (auth : Option Bytes) (r out : Request)
    → All (λ h. is_proxy h.0 ≡ false) r.headers
    → set_authorization k auth r ≡ ok out
    → IsAuthorized k auth r out
set_authorization-IsAuthorized k none r out clean h =
    subst (IsAuthorized k none r) (ok-eq h)
      (refl, no_proxy-get r.headers clean, no_proxy-only r.headers clean, λ n p. refl)
set_authorization-IsAuthorized k (some auth) r out clean h =
    let name = codes "proxy-authorization" in
    let (v, parsed, h1) = bind-eq-ok (k.parse_value (codes "Basic " ++ auth)) _ h in
    subst (IsAuthorized k (some auth) r) (ok-eq h1) (
      refl,
      (v, parsed, refl),
      ((λ t. refl), remove-All OnlyAuthorization name r.headers (no_proxy-only r.headers clean)),
      λ n p.
          let other : bytes_eq name n ≡ false = names_differ name n refl p clash in
          rw other (get-remove_other n name r.headers other),
    )

forward-IsForwarded :
    {R : Type 0} (e : Env R) (p : HttpProxy) (opened : Result Conn) (r : Request) (x : Exchanged R)
    → All (λ h. is_proxy h.0 ≡ false) r.headers
    → forward e p opened r ≡ ok x
    → (c : Conn) × (opened ≡ ok c) × IsForwarded e p r c x.response
forward-IsForwarded e p opened r x clean h =
    let (c, e1, h1) = bind-eq-ok opened _ h in
    let (host, e2, h2) = bind-eq-ok (host_text e.library r) _ h1 in
    let (pq, e3, h3) = bind-eq-ok (ok_or (e.path_and_query r.uri) rejected) _ h2 in
    let (uri, e4, h4) = bind-eq-ok (e.library.build _) _ h3 in
    let (sent, e5, h5) =
      bind-eq-ok (set_authorization e.library p.auth (record r { uri = uri })) _ h4 in
    let (y, answered, h6) = map_ok-eq-ok (spawn_upgrade e sent) (e.send_request c sent) h5 in
    let (same, authorized, only, others) =
      set_authorization-IsAuthorized e.library p.auth (record r { uri = uri }) sent clean e5 in
    (
      c,
      e1,
      record {
        sent = sent;
        absolute = (host, pq, e2, ok_or-eq-ok (e.path_and_query r.uri) e3, e4 ∙ ap ok (sym same));
        authorized = authorized;
        only = only;
        others = others;
        answered = answered ∙ ap ok (ap (λ z. z.response) h6);
      },
    )

-- A plain request where the last proxy of the settings is an HTTP proxy: if there is a response, it
-- is the proxy's to the rewritten request with an absolute URI for its `host` header, sent on a
-- connection that was opened to the proxy through the proxies before it; the proxy gets its own
-- `proxy-authorization` if the settings have a login, no other header for proxies, and all other
-- headers as they are.
pub send_request-IsForwarded :
    {R : Type 0} (e : Env R) (base64 : Bytes → Bytes) (state : ProxyState) (ls : List Bytes)
    (os : List Outbound) (p : HttpProxy) (request r : Request) (conf : RequestConfig)
    (x : Exchanged R)
    → proxy_stack base64 state.config ls ≡ some state.proxy_stack
    → push_proxies base64 (or_no_proxies state.config.proxies) ls
      ≡ some (os ++ (server (http p) ∷ []))
    → rewrite_request e.library request ≡ ok (codes "http", r)
    → send_request e state request conf ≡ ok x
    → (c : Conn) × (connect e.network (rev (raw ∷ os)) p.addr ≡ ok c)
      × IsForwarded e p r c x.response
unfolding send_request http_proxy
send_request-IsForwarded e base64 state ls os p request r conf x built proxies rewritten h =
    let (os', found, plain) =
      http_proxy-plain e base64 state.config ls conf.fragment state.proxy_stack conf r built in
    let same : os' ≡ os ++ (server (http p) ∷ []) = some-eq (sym found ∙ proxies) in
    let (uri, u, hs, e1, e2, e3, e4, e5, w) =
      rewrite_request-IsRewritten e.library request r (codes "http") rewritten in
    forward-IsForwarded e p (connect e.network (rev (raw ∷ os)) p.addr) r x w.no_proxy (
      sym (
        plain
        ∙ ap (λ s. http_proxy e (rev (raw ∷ s)) (codes "http") conf r) same
        ∙ ap (λ s. http_proxy e s (codes "http") conf r)
            (rev-append (raw ∷ os) (server (http p) ∷ [])))
      ∙ (rw rewritten at h))
