-- ===== src/Outbound/Stack/Built.antt =====
-- What `main` builds for a list of proxies is a list of hops, in the order of the settings.
use local_proxy_rs.Base.{
  suc, Bool, true, false, List, [], ◌∷◌, ◌++◌, none, some, Bytes, codes, bytes_eq, rejected, length,
  ltb, contains, Result, ok, err, map_ok, map_ok-eq-ok, map-eq-some, and_then-eq-some, ◌≡◌, refl,
  sym, ap, ◌∙◌, Bool-cases, inl, inr, if◌then◌else◌,
}
use mathlib.Core.Option
use local_proxy_rs.Net.{split}
use local_proxy_rs.Addr.{SocketAddr, addr_from_str}
use local_proxy_rs.Config.{ProxyConfig, Config}
use local_proxy_rs.Outbound.Http
use local_proxy_rs.Outbound.Http.{HttpProxy}
use local_proxy_rs.Outbound.Socks4
use local_proxy_rs.Outbound.Socks4.{Socks4Proxy}
use local_proxy_rs.Outbound.Socks5
use local_proxy_rs.Outbound.Socks5.{Socks5Proxy}
use local_proxy_rs.Outbound.Stack.{
  ProxyServer, http, socks4, socks5, Outbound, raw, tls_client, server, addr_of, Network, connect,
  rev, credentials, push_server, push_parts, push_proxy, push_proxies, fragment_last, or_no_proxies,
  proxy_stack, panics,
}
use local_proxy_rs.Outbound.Stack.Route.{Hop, tls_layers, outbounds, whole_way, connect-built}

-- The hop goes to the proxy at the address in the settings.
abbrev pub Serves : ProxyConfig → ProxyServer → Type 0
Serves conf p = addr_from_str conf.server ≡ ok (addr_of p)

abbrev pub ServesAll : List ProxyConfig → List Hop → Type 0
ServesAll [] [] = Unit
ServesAll (conf ∷ confs) (h ∷ hops) = Serves conf h.proxy × ServesAll confs hops
ServesAll [] (h ∷ hops) = ⊥
ServesAll (conf ∷ confs) [] = ⊥

-- A constructor that keeps the address it has parsed.
kept :
    {P : Type 0} (f : SocketAddr → P) (g : P → SocketAddr) (r : Result SocketAddr) (p : P)
    → ((a : SocketAddr) → g (f a) ≡ a)
    → map_ok f r ≡ ok p
    → r ≡ ok (g p)
kept f g r p k h = let (a, e, same) = map_ok-eq-ok f r h in e ∙ ap ok (sym (k a) ∙ ap g same)

new-http :
    (base64 : Bytes → Bytes) (conf : ProxyConfig) (p : HttpProxy)
    → Http.new base64 conf ≡ ok p
    → Serves conf (http p)
unfolding Http.new
new-http base64 conf p h = kept _ (λ p. p.addr) (addr_from_str conf.server) p (λ a. refl) h

-- `if b { return Err(…) }` was passed.
passed :
    {P : Type 0} (b : Bool) {r : Result P} {p : P}
    → (if b then err rejected else r) ≡ ok p
    → r ≡ ok p
passed true h = cc
passed false h = h

new-socks4 :
    (conf : ProxyConfig) (p : Socks4Proxy) → Socks4.new conf ≡ ok p → Serves conf (socks4 p)
unfolding Socks4.new
new-socks4 conf p h =
    kept _ (λ p. p.addr) (addr_from_str conf.server) p (λ a. refl)
      (passed (contains (Socks4.push_user conf.user ++ Socks4.push_password conf.password) 0) h)

new-socks5 :
    (conf : ProxyConfig) (p : Socks5Proxy) → Socks5.new conf ≡ ok p → Serves conf (socks5 p)
unfolding Socks5.new
new-socks5 conf p h =
    let user = Socks5.or_empty conf.user in
    let password = Socks5.or_empty conf.password in
    kept _ (λ p. p.addr) (addr_from_str conf.server) p (λ a. refl)
      (passed (ltb 255 (length password)) (passed (ltb 255 (length user)) h))

panics-eq-some : {P : Type 0} (r : Result P) {p : P} → panics r ≡ some p → r ≡ ok p
panics-eq-some (ok p) h = cc
panics-eq-some (err e) h = cc

-- One arm of the match on the last part of the protocol.
arm-server :
    {P : Type 0} (conf : ProxyConfig) (f : P → ProxyServer) (r : Result P) {o : Outbound}
    → ((p : P) → r ≡ ok p → Serves conf (f p))
    → Option.map (λ p. server (f p)) (panics r) ≡ some o
    → (p : ProxyServer) × (o ≡ server p) × Serves conf p
arm-server conf f r k h =
    let (p, e, same) = map-eq-some (λ p. server (f p)) (panics r) h in
    (f p, sym same, k p (panics-eq-some r e))

push_server-Serves :
    (base64 : Bytes → Bytes) (conf : ProxyConfig) (name : Bytes) {o : Outbound}
    → push_server base64 conf name ≡ some o
    → (p : ProxyServer) × (o ≡ server p) × Serves conf p
push_server-Serves base64 conf name {o} h = elim (Bool-cases (bytes_eq name (codes "http"))) [
  | inl t ↦ arm-server conf http (Http.new base64 conf) (new-http base64 conf) (rw t at h)
  | inr t ↦ elim (Bool-cases (bytes_eq name (codes "socks4"))) [
    | inl u ↦ arm-server conf socks4 (Socks4.new conf) (new-socks4 conf) (rw (t, u) at h)
    | inr u ↦ elim (Bool-cases (bytes_eq name (codes "socks5"))) [
      | inl v ↦ arm-server conf socks5 (Socks5.new conf) (new-socks5 conf) (rw (t, u, v) at h)
      | inr v ↦ absurd (not_some (rw (t, u, v) at h))
    ]
  ]
]
  where
    not_some : none ≡ some o → ⊥
    not_some e = cc

push_parts-Serves :
    (base64 : Bytes → Bytes) (conf : ProxyConfig) (names : List Bytes) {os : List Outbound}
    → push_parts base64 conf names ≡ some os
    → (h : Hop) × (os ≡ tls_layers h.layers ++ (server h.proxy ∷ [])) × Serves conf h.proxy
push_parts-Serves base64 conf [] e = cc
push_parts-Serves base64 conf (name ∷ []) e =
    let (o, found, same) = map-eq-some (λ o. o ∷ []) (push_server base64 conf name) e in
    let (p, is, serves) = push_server-Serves base64 conf name found in
    (record { layers = 0; proxy = p }, sym same ∙ ap (λ o. o ∷ []) is, serves)
push_parts-Serves base64 conf (name ∷ n ∷ names) {os} e =
    elim (Bool-cases (bytes_eq name (codes "tls"))) [
      | inl t ↦
          let (more, found, same) =
            map-eq-some (λ os. tls_client ∷ os) (push_parts base64 conf (n ∷ names)) (rw t at e) in
          let (h, is, serves) = push_parts-Serves base64 conf (n ∷ names) found in
          (
            record { layers = suc h.layers; proxy = h.proxy },
            sym same ∙ ap (λ os. tls_client ∷ os) is,
            serves,
          )
      | inr t ↦ absurd (not_some (rw t at e))
    ]
  where
    not_some : none ≡ some os → ⊥
    not_some e = cc

push_proxies-Serves :
    (base64 : Bytes → Bytes) (confs : List ProxyConfig) (ls : List Bytes) {os : List Outbound}
    → push_proxies base64 confs ls ≡ some os
    → (hops : List Hop) × (os ≡ outbounds hops) × ServesAll confs hops
unfolding push_proxies push_proxy
push_proxies-Serves base64 [] ls h = ([], cc, tt)
push_proxies-Serves base64 (conf ∷ confs) ls h =
    let (user, password, rest) = credentials conf.user conf.password ls in
    let (o, found, h1) =
      and_then-eq-some (push_proxy base64 (record conf { user = user; password = password }))
        (λ os. Option.map (λ more. os ++ more) (push_proxies base64 confs rest)) h in
    let (more, found', same) =
      map-eq-some (λ more. o ++ more) (push_proxies base64 confs rest) h1 in
    let (hop, is, serves) =
      push_parts-Serves base64 (record conf { user = user; password = password })
        (split b'+' conf.protocol) found in
    let (hops, are, serve) = push_proxies-Serves base64 confs rest found' in
    (
      hop ∷ hops,
      sym same
          ∙ ap (λ t. t ++ more) is
          ∙ ap (λ t. (tls_layers hop.layers ++ (server hop.proxy ∷ [])) ++ t) are,
      (serves, serve),
    )

-- Through the stack that `main` has built from the settings, a connection goes to the first proxy of
-- the list, takes the TLS layers and the handshake of each in turn, each handshake for the address
-- of the next proxy and the last for the destination, and then gets the fragmenting layer if the
-- settings fragment everything. The proxies are those of the settings, at the addresses given there.
pub connect-proxy_stack :
    (base64 : Bytes → Bytes) (config : Config) (ls : List Bytes) (stack : List Outbound)
    → proxy_stack base64 config ls ≡ some stack
    → (hops : List Hop) × ServesAll (or_no_proxies config.proxies) hops
      × ((k : Network) (dest : SocketAddr)
          → connect k (rev stack) dest ≡ whole_way k config.fragment hops dest)
unfolding proxy_stack
connect-proxy_stack base64 config ls stack h =
    let (os, e, same) =
      map-eq-some (λ os. (raw ∷ os) ++ fragment_last config.fragment)
        (push_proxies base64 (or_no_proxies config.proxies) ls) h in
    let (hops, is, serves) = push_proxies-Serves base64 (or_no_proxies config.proxies) ls e in
    (
      hops,
      serves,
      λ k dest.
          ap (λ t. connect k (rev t) dest)
            (sym same ∙ ap (λ t. (raw ∷ t) ++ fragment_last config.fragment) is)
          ∙ connect-built k config.fragment hops dest,
    )
