-- ===== src/Inbound/Tproxy/Route.antt =====
-- A redirected connection goes to where it was meant to go.
use local_proxy_rs.Base.{
  List, [], ◌∷◌, some, Bytes, Error, Result, ok, err, ok-eq, some-eq, map-eq-some, ◌≡◌, ◌≢◌, refl,
  sym, ap, ◌∙◌,
}
use mathlib.Core.Path.{subst, fun_ext}
use local_proxy_rs.Addr.{StdSocketAddr, SocketAddr, from_ip}
use local_proxy_rs.Outbound.Conn.{Conn}
use local_proxy_rs.Config.{TproxyConfig, Config}
use local_proxy_rs.Main.{ProxyState, proxy_state}
use local_proxy_rs.Redir.{Platform, RedirType}
use local_proxy_rs.Redir.Pf.{
  Outcome, returns, no_socket_addr, unreachable, wrong_family, unending, cannot_open,
}
use local_proxy_rs.Redir.Listen.{
  PfStatic, TcpSocket, System, Binder, bind_redir, TcpStream, destination_addr,
}
use local_proxy_rs.Redir.Reach.{bind_redir-destination_addr}
use local_proxy_rs.Outbound.Stack.{Network, or_no_proxies, proxy_stack}
use local_proxy_rs.Outbound.Stack.Route.{Hop, whole_way}
use local_proxy_rs.Outbound.Stack.Built.{ServesAll, connect-proxy_stack}
use local_proxy_rs.Inbound.Listeners.{sleeping, redir_type_of, start_tproxy}
use local_proxy_rs.Inbound.Listeners.Bound.{Listens, start_tproxy_sleeps}
use local_proxy_rs.Inbound.Tproxy.{Ran, opened, panicked, after_destination, run}

Listens-destination_addr :
    (p : Platform) (k : System) (bind_tcp : Binder) (pf : PfStatic) (t : RedirType)
    (addrs : List StdSocketAddr) (ls : List TcpSocket) (s : TcpStream)
    → Listens (bind_redir p k bind_tcp t) addrs ls
    → destination_addr p pf s t ≢ unreachable
Listens-destination_addr p k bind_tcp pf t [] ls s h = absurd h
Listens-destination_addr p k bind_tcp pf t (a ∷ rest) [] s h = absurd h
Listens-destination_addr p k bind_tcp pf t (a ∷ rest) (l ∷ ls) s (h, _) =
    bind_redir-destination_addr p k bind_tcp pf t a l s h

state-stack :
    (base64 : Bytes → Bytes) (config : Config) (lines : List Bytes) (state : ProxyState)
    → proxy_state base64 config lines ≡ some state
    → (proxy_stack base64 config lines ≡ some state.proxy_stack) × (state.config ≡ config)
unfolding proxy_state
state-stack base64 config lines state h =
    let (stack, e, same) = map-eq-some _ (proxy_stack base64 config lines) h in
    (e ∙ ap (λ s. some s.proxy_stack) same, sym (ap (λ s. s.config) same))

-- What comes of a client, by its destination: a connection to that address, the way that is given;
-- the error of the lookup; or its panic.
pub data IsRouted (way : SocketAddr → Result Conn) (to : Outcome) (r : Ran) : Type 0 where
  routed :
      (a : StdSocketAddr)
      → to ≡ returns (ok a)
      → r ≡ opened (way (record { hostname = from_ip a.ip; port = a.port }))
      → IsRouted way to r
  lost : (e : Error) → to ≡ returns (err e) → r ≡ opened (err e) → IsRouted way to r
  panics : ((x : Result StdSocketAddr) → to ≢ returns x) → r ≡ panicked to → IsRouted way to r

after_destination-IsRouted :
    (way : SocketAddr → Result Conn) (to : Outcome) → IsRouted way to (after_destination way to)
after_destination-IsRouted way (returns (ok a)) = routed a refl refl
after_destination-IsRouted way (returns (err e)) = lost e refl refl
after_destination-IsRouted way no_socket_addr = panics (λ x e. cc) refl
after_destination-IsRouted way unreachable = panics (λ x e. cc) refl
after_destination-IsRouted way wrong_family = panics (λ x e. cc) refl
after_destination-IsRouted way unending = panics (λ x e. cc) refl
after_destination-IsRouted way cannot_open = panics (λ x e. cc) refl

-- Once `tproxy::start` listens, by the state that `main` has built: for any client, the lookup of its
-- destination by the type that the settings name does not reach the `unreachable!` of
-- `destination_addr`; and the client's connection goes to that destination, with its port, the whole
-- way through the proxies of the settings, in their order, or ends as the lookup does, with its error
-- or another panic.
pub run_routed :
    (p : Platform) (k : System) (bind_tcp : Binder) (pf : PfStatic) (net : Network)
    (base64 : Bytes → Bytes) (config : Config) (setting : TproxyConfig) (lines : List Bytes)
    (state : ProxyState) (ls : List TcpSocket) (client : TcpStream) (t : RedirType)
    → proxy_state base64 config lines ≡ some state
    → config.tproxy_listen ≡ some setting
    → redir_type_of p setting.redir_type ≡ ok t
    → start_tproxy p k bind_tcp state.config.tproxy_listen ≡ sleeping ls
    → (hops : List Hop) × ServesAll (or_no_proxies config.proxies) hops
      × (destination_addr p pf client t ≢ unreachable)
      × IsRouted
          (whole_way net config.fragment hops)
          (destination_addr p pf client t)
          (run p pf net state client t)
unfolding run
run_routed p k bind_tcp pf net base64 config setting lines state ls client t built set typed
      started =
    let (stack, same) = state-stack base64 config lines state built in
    let (hops, serves, way) = connect-proxy_stack base64 config lines state.proxy_stack stack in
    let (setting', e, (t', named, listens)) =
      (start_tproxy_sleeps p k bind_tcp state.config.tproxy_listen ls).0 started in
    let one : setting' ≡ setting = some-eq (sym e ∙ ap (λ c. c.tproxy_listen) same ∙ set) in
    let type_same : t' ≡ t =
      ok-eq (sym named ∙ ap (λ s. redir_type_of p s.redir_type) one ∙ typed) in
    (
      hops,
      serves,
      subst (λ x. destination_addr p pf client x ≢ unreachable) type_same
          (Listens-destination_addr p k bind_tcp pf t' setting'.listen ls client listens),
      subst (IsRouted (whole_way net config.fragment hops) (destination_addr p pf client t))
          (sym (ap (λ f. after_destination f (destination_addr p pf client t)) (fun_ext (way net))))
          (after_destination-IsRouted (whole_way net config.fragment hops)
            (destination_addr p pf client t)),
    )
