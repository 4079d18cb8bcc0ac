-- ===== src/Outbound/Exchange.antt =====
-- local_proxy/src/outbound/mod.rs, and the `http_proxy` of layer/mod.rs and http.rs: how an HTTP
-- request goes through the stack, and how a connection is opened by the addresses of a name.
pub mod Plain
pub mod Eyeballs
pub mod Upgrade
mod Tests
use local_proxy_rs.Base.{
  ℕ, Bool, not, ◌&&◌, List, [], ◌∷◌, ◌++◌, Option, none, some, Bytes, codes, bytes_eq, ◌==◌,
  if◌then◌else◌, map_ok, Error, rejected, Result, ok, err, bind, ok_or,
}
use local_proxy_rs.Addr.{HostName, is_ipaddr, SocketAddr, parse_host_header}
use local_proxy_rs.Doh.{RequestConfig}
use local_proxy_rs.Doh.Resolve.{QueryType, aaaa, a}
use local_proxy_rs.Request.{Request, get, insert}
use local_proxy_rs.Request.UriParse.{Library, Uri}
use local_proxy_rs.Outbound.Conn.{Conn}
use local_proxy_rs.Outbound.Http.{HttpProxy}
use local_proxy_rs.Outbound.Stack.{
  ProxyServer, http, socks4, socks5, Outbound, raw, tls_client, fragment, server, Network, connect,
  wrap_tls,
}

-- `tokio::select!` over the two branches, of which `first` is the first to be done: the first
-- connection that there is, and else the last arm.
unfoldable pub select : QueryType → Result Conn → Result Conn → Result Conn → Result Conn
select aaaa (ok c) r4 rest = ok c
select aaaa (err e) (ok c) rest = ok c
select aaaa (err e) (err f) rest = rest
select a r6 (ok c) rest = ok c
select a (ok c) (err f) rest = ok c
select a (err e) (err f) rest = rest

-- One branch: the address that `dns_resolve` found, and the connection to it.
abbrev pub connect_resolved : Network → List Outbound → ℕ → Result (Option HostName) → Result Conn
connect_resolved k stack port answer = bind answer (λ found.
    bind (ok_or found rejected) (λ ip. connect k stack (record { hostname = ip; port = port })))

-- `happy_eyeballs` of the first outbound of the stack; `answers` is what `dns_resolve` comes back
-- with for either type, and `doh` whether the settings have a server for it.
unfoldable pub happy_eyeballs :
    Network
    → Bool
    → (QueryType → Result (Option HostName))
    → QueryType
    → List Outbound
    → SocketAddr
    → Result Conn
happy_eyeballs k doh answers first stack addr =
    if doh && not (is_ipaddr addr.hostname)
    then select first (connect_resolved k stack addr.port (answers aaaa))
        (connect_resolved k stack addr.port (answers a)) (connect k stack addr)
    else connect k stack addr

-- What a request needs of the network and of hyper: the stack's calls, the answers for names, the
-- libraries of a request, `handshake` with `send_request`, which bring the response, the response's
-- status, and the connections behind `upgrade::on` of the request and of the response.
pub record Env (R : Type 0) : Type 0 where
  pub network : Network
  pub doh : Bool
  pub answers : HostName → QueryType → Result (Option HostName)
  pub first : QueryType
  pub library : Library
  pub path_and_query : Uri → Option Bytes
  pub send_request : Conn → Request → Result R
  pub status : R → ℕ
  pub upgrade_request : Request → Result Conn
  pub upgrade_response : R → Result Conn

-- A response, and what the task that was spawned for it comes to, if one was.
pub record Exchanged (R : Type 0) : Type 0 where
  pub response : R
  pub task : Option (Result (Conn × Conn))

-- `proxy_upgrade`: the two connections that are then copied to each other.
abbrev pub proxy_upgrade : Result Conn → Result Conn → Result (Conn × Conn)
proxy_upgrade (ok c) (ok s) = ok (c, s)
proxy_upgrade (ok c) (err e) = err e
proxy_upgrade (err e) _ = err e

-- `if response.status() == StatusCode::SWITCHING_PROTOCOLS { … }`, which both `http_proxy_` and
-- `HttpProxy::http_proxy` have behind the sending of `request`.
abbrev pub spawn_upgrade : {R : Type 0} → Env R → Request → R → Exchanged R
spawn_upgrade e request r = record {
  response = r;
  task =
      if e.status r == 101
      then some (proxy_upgrade (e.upgrade_request request) (e.upgrade_response r))
      else none;
}

-- `match scheme { "http" => 80, "https" => 443, _ => … }` where the header has no port.
abbrev pub port_or_default : Bytes → Option ℕ → Result ℕ
port_or_default scheme (some port) = ok port
port_or_default scheme none =
    if bytes_eq scheme (codes "http")
    then ok 80
    else if bytes_eq scheme (codes "https")
    then ok 443
    else err rejected

-- The host header of a request, as text.
abbrev pub host_text : Library → Request → Result Bytes
host_text k r = bind (ok_or (get (codes "host") r.headers) rejected) k.to_str

-- `SocketAddr::new(hostname, port)` of the host header.
abbrev pub server_addr : Library → Bytes → Request → Result SocketAddr
server_addr k scheme r = bind (host_text k r) (λ host.
    bind (parse_host_header host) (λ h.
      bind (port_or_default scheme h.1) (λ port. ok (record { hostname = h.0; port = port }))))

abbrev pub unwrap_or : Option HostName → HostName → HostName
unwrap_or (some h) rest = h
unwrap_or none rest = rest

abbrev pub open_server :
    {R : Type 0} → Env R → RequestConfig → List Outbound → SocketAddr → Result Conn
open_server e conf stack addr =
    if conf.doh
    then happy_eyeballs e.network e.doh (e.answers addr.hostname) e.first stack addr
    else connect e.network stack addr

abbrev pub secure : Network → Bytes → SocketAddr → Result Conn → Result Conn
secure k scheme addr r = if bytes_eq scheme (codes "https") then wrap_tls k addr r else r

-- `http_proxy_`: a connection to the server itself, or to its fake host, through the whole stack.
unfoldable pub http_proxy_direct :
    {R : Type 0} → Env R → List Outbound → Bytes → RequestConfig → Request → Result (Exchanged R)
http_proxy_direct e stack scheme conf request = bind (server_addr e.library scheme request) (λ addr.
    let fake : SocketAddr = record {
      hostname = unwrap_or conf.fake_host addr.hostname;
      port = addr.port;
    } in
    bind (secure e.network scheme addr (open_server e conf stack fake))
      (λ c. map_ok (spawn_upgrade e request) (e.send_request c request)))

abbrev pub set_authorization : Library → Option Bytes → Request → Result Request
set_authorization k none r = ok r
set_authorization k (some auth) r =
    bind (k.parse_value (codes "Basic " ++ auth))
      (λ v. ok (record r { headers = insert (codes "proxy-authorization") v r.headers }))

-- `HttpProxy::http_proxy` for the scheme "http": the whole URI is sent to the proxy.
abbrev pub forward : {R : Type 0} → Env R → HttpProxy → Result Conn → Request → Result (Exchanged R)
forward e p opened request = bind opened (λ c. bind (host_text e.library request) (λ host.
    bind (ok_or (e.path_and_query request.uri) rejected) (λ pq.
      bind
        (e.library.build
          (record { scheme = some (codes "http"); authority = some host; path_and_query = pq }))
        (λ uri.
          bind (set_authorization e.library p.auth (record request { uri = uri }))
            (λ r. map_ok (spawn_upgrade e r) (e.send_request c r))))))

-- `http_proxy` of the first outbound, with the others as `proxies`; only the fragmenting layer is
-- passed through by plain requests.
unfoldable pub http_proxy :
    {R : Type 0} → Env R → List Outbound → Bytes → RequestConfig → Request → Result (Exchanged R)
http_proxy e [] scheme conf request = err rejected
http_proxy e (raw ∷ proxies) scheme conf request =
    http_proxy_direct e (raw ∷ proxies) scheme conf request
http_proxy e (tls_client ∷ proxies) scheme conf request =
    http_proxy_direct e (tls_client ∷ proxies) scheme conf request
http_proxy e (fragment ∷ proxies) scheme conf request =
    let below = http_proxy e proxies scheme conf request in
    if bytes_eq scheme (codes "http")
    then below
    else http_proxy_direct e (fragment ∷ proxies) scheme conf request
http_proxy e (server (http p) ∷ proxies) scheme conf request =
    if bytes_eq scheme (codes "http")
    then forward e p (connect e.network proxies p.addr) request
    else http_proxy_direct e (server (http p) ∷ proxies) scheme conf request
http_proxy e (server (socks4 p) ∷ proxies) scheme conf request =
    http_proxy_direct e (server (socks4 p) ∷ proxies) scheme conf request
http_proxy e (server (socks5 p) ∷ proxies) scheme conf request =
    http_proxy_direct e (server (socks5 p) ∷ proxies) scheme conf request
