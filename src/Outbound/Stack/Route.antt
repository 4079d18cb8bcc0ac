-- ===== src/Outbound/Stack/Route.antt =====
-- The way of a connection through the stack that `main` builds.
use local_proxy_rs.Base.{
  ℕ, zero, suc, List, [], ◌∷◌, ◌++◌, append_assoc, append-nil, Option, Result, map_ok, ◌≡◌, refl,
  sym, ap, ◌∙◌, Bool-cases, inl, inr, if◌then◌else◌,
}
use local_proxy_rs.Addr.{SocketAddr}
use local_proxy_rs.Outbound.Conn.{Conn}
use local_proxy_rs.Outbound.Stack.{
  ProxyServer, Outbound, raw, tls_client, fragment, server, addr_of, Network, dial_raw, wrap_tls,
  reach, connect, rev, fragments_all, fragment_last,
}

-- A proxy on the way: the TLS layers around it, and how it is spoken to.
pub record Hop : Type 0 where
  pub layers : ℕ
  pub proxy : ProxyServer

abbrev pub next : List Hop → SocketAddr → SocketAddr
next [] dest = dest
next (h ∷ hops) dest = addr_of h.proxy

abbrev pub wrap_layers : Network → SocketAddr → ℕ → Result Conn → Result Conn
wrap_layers k a zero r = r
wrap_layers k a (suc n) r = wrap_tls k a (wrap_layers k a n r)

-- From a connection to the first proxy: the TLS layers for its name, its handshake for the address
-- of the next, and so on to the destination.
abbrev pub travel : Network → List Hop → SocketAddr → Result Conn → Result Conn
travel k [] dest r = r
travel k (h ∷ hops) dest r =
    travel k hops dest
      (reach k h.proxy (next hops dest) (wrap_layers k (addr_of h.proxy) h.layers r))

abbrev pub tls_layers : ℕ → List Outbound
tls_layers zero = []
tls_layers (suc n) = tls_client ∷ tls_layers n

abbrev pub outbounds : List Hop → List Outbound
outbounds [] = []
outbounds (h ∷ hops) = (tls_layers h.layers ++ (server h.proxy ∷ [])) ++ outbounds hops

pub rev-append : {A : Type 0} (xs ys : List A) → rev (xs ++ ys) ≡ rev ys ++ rev xs
rev-append [] ys = sym (append-nil (rev ys))
rev-append (x ∷ xs) ys =
    ap (λ t. t ++ (x ∷ [])) (rev-append xs ys) ∙ append_assoc (rev ys) (rev xs) (x ∷ [])

tls_layers-snoc : (n : ℕ) → tls_layers n ++ (tls_client ∷ []) ≡ tls_client ∷ tls_layers n
tls_layers-snoc zero = refl
tls_layers-snoc (suc n) = ap (λ t. tls_client ∷ t) (tls_layers-snoc n)

rev-tls_layers : (n : ℕ) → rev (tls_layers n) ≡ tls_layers n
rev-tls_layers zero = refl
rev-tls_layers (suc n) = ap (λ t. t ++ (tls_client ∷ [])) (rev-tls_layers n) ∙ tls_layers-snoc n

connect-tls_layers :
    (k : Network) (n : ℕ) (below : List Outbound) (a : SocketAddr)
    → connect k (tls_layers n ++ below) a ≡ wrap_layers k a n (connect k below a)
unfolding connect
connect-tls_layers k zero below a = refl
connect-tls_layers k (suc n) below a = ap (wrap_tls k a) (connect-tls_layers k n below a)

-- The outbounds of a proxy, as they stand when the stack is read from its top.
rev-hop :
    (h : Hop) (hops : List Hop) (below : List Outbound)
    → rev (outbounds (h ∷ hops)) ++ below
      ≡ rev (outbounds hops) ++ (server h.proxy ∷ (tls_layers h.layers ++ below))
rev-hop h hops below =
    ap (λ t. t ++ below)
      (rev-append (tls_layers h.layers ++ (server h.proxy ∷ [])) (outbounds hops)
        ∙ ap (λ t. rev (outbounds hops) ++ t)
            (rev-append (tls_layers h.layers) (server h.proxy ∷ [])
              ∙ ap (λ t. server h.proxy ∷ t) (rev-tls_layers h.layers)))
    ∙ append_assoc (rev (outbounds hops)) (server h.proxy ∷ tls_layers h.layers) below

connect-outbounds :
    (k : Network) (hops : List Hop) (below : List Outbound) (dest : SocketAddr)
    → connect k (rev (outbounds hops) ++ below) dest
      ≡ travel k hops dest (connect k below (next hops dest))
unfolding connect
connect-outbounds k [] below dest = refl
connect-outbounds k (h ∷ hops) below dest =
    ap (λ t. connect k t dest) (rev-hop h hops below)
    ∙ connect-outbounds k hops (server h.proxy ∷ (tls_layers h.layers ++ below)) dest
    ∙ ap (λ r. travel k hops dest (reach k h.proxy (next hops dest) r))
        (connect-tls_layers k h.layers below (addr_of h.proxy))

-- What a connection takes of the whole way: the hops, and the fragmenting layer where it is due.
abbrev pub whole_way : Network → Option ℕ → List Hop → SocketAddr → Result Conn
whole_way k n hops dest =
    let made = travel k hops dest (dial_raw k (next hops dest)) in
    if fragments_all n then map_ok k.fragment_layer made else made

pub connect-built :
    (k : Network) (n : Option ℕ) (hops : List Hop) (dest : SocketAddr)
    → connect k (rev ((raw ∷ outbounds hops) ++ fragment_last n)) dest ≡ whole_way k n hops dest
unfolding connect
connect-built k n hops dest = elim (Bool-cases (fragments_all n)) [
  | inl t ↦ rw t (
      ap (λ os. connect k os dest) (rev-append (raw ∷ outbounds hops) (fragment ∷ []))
      ∙ ap (map_ok k.fragment_layer) (connect-outbounds k hops (raw ∷ []) dest))
  | inr t ↦ rw (t, append-nil (outbounds hops)) (connect-outbounds k hops (raw ∷ []) dest)
]
