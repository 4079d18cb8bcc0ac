-- ===== src/Outbound/Stack.antt =====
-- The stack of outbounds: how local_proxy/src/main.rs builds it from the settings, how a connection
-- goes through it (raw.rs, layer/mod.rs, layer/tls.rs and the `connect` of each proxy), and what a
-- request changes of it (inbound/http/http_proxy.rs).
pub mod Route
pub mod Built
mod Tests
pub mod Policy
use local_proxy_rs.Base.{
  ℕ, zero, suc, Bool, true, false, not, ◌&&◌, ◌||◌, List, [], ◌∷◌, ◌++◌, Option, none, some, Bytes,
  codes, bytes_eq, leb, ◌==◌, if◌then◌else◌, Error, rejected, Result, ok, err, bind, map_ok,
  and_then,
}
use mathlib.Core.Option
use local_proxy_rs.Net.{split}
use local_proxy_rs.Addr.{SocketAddr, addr_to_string, host_to_string}
use local_proxy_rs.Config.{ProxyConfig, Config}
use local_proxy_rs.Outbound.Conn.{Conn}
use local_proxy_rs.Outbound.Http.{HttpProxy, ConnectRequest, connect_request}
use local_proxy_rs.Outbound.Http
use local_proxy_rs.Outbound.Socks4.{Socks4Proxy, finish}
use local_proxy_rs.Outbound.Socks4
use local_proxy_rs.Outbound.Socks5.{Socks5Proxy}
use local_proxy_rs.Outbound.Socks5

pub data ProxyServer : Type 0 where
  http : HttpProxy → ProxyServer
  socks4 : Socks4Proxy → ProxyServer
  socks5 : Socks5Proxy → ProxyServer

-- The types behind `dyn ProxyOutBound`.
pub data Outbound : Type 0 where
  raw : Outbound
  tls_client : Outbound
  fragment : Outbound
  server : ProxyServer → Outbound

abbrev pub addr_of : ProxyServer → SocketAddr
addr_of (http p) = p.addr
addr_of (socks4 p) = p.addr
addr_of (socks5 p) = p.addr

-- What the code calls of tokio, rustls and hyper, and the layer of fragment.rs around a connection.
pub record Network : Type 0 where
  -- `TcpStream::connect` on the text of an address, and `set_nodelay(true)`
  pub dial : Bytes → Result Conn
  pub set_nodelay : Conn → Result Conn
  -- `CONNECTOR.connect` for a server name
  pub tls : Bytes → Conn → Result Conn
  -- sends a CONNECT request and gives the upgraded connection, where the status is a success
  pub tunnel : ConnectRequest → Conn → Result Conn
  pub fragment_layer : Conn → Conn

-- `Raw::connect` with no outbound below it.
abbrev pub dial_raw : Network → SocketAddr → Result Conn
dial_raw k a = bind (k.dial (addr_to_string a)) k.set_nodelay

-- `TlsClient::wrap`.
abbrev pub wrap_tls : Network → SocketAddr → Result Conn → Result Conn
wrap_tls k a r = bind r (k.tls (host_to_string a.hostname))

-- The handshake of a proxy for the destination, on a connection to the proxy.
abbrev pub reach : Network → ProxyServer → SocketAddr → Result Conn → Result Conn
reach k (http p) a r = bind r (k.tunnel (connect_request p a))
reach k (socks4 p) a r = Socks4.connect p a r
reach k (socks5 p) a r = bind r (λ c. finish (Socks5.connect p a c))

-- `ProxyOutBound::connect` of the first outbound, with the others as `proxies`.
unfoldable pub connect : Network → List Outbound → SocketAddr → Result Conn
connect k [] a = err rejected
connect k (raw ∷ []) a = dial_raw k a
connect k (raw ∷ o ∷ proxies) a = connect k (o ∷ proxies) a
connect k (tls_client ∷ proxies) a = wrap_tls k a (connect k proxies a)
connect k (fragment ∷ proxies) a = map_ok k.fragment_layer (connect k proxies a)
connect k (server p ∷ proxies) a = reach k p a (connect k proxies (addr_of p))

-- `Iterator::rev`.
abbrev pub rev : {A : Type 0} → List A → List A
rev [] = []
rev (x ∷ xs) = rev xs ++ (x ∷ [])

-- What `main` does before it prompts no more: `read_line` on the lines to come, without the line's end.
abbrev pub is_line_end : ℕ → Bool
is_line_end b = b == 13 || b == 10

abbrev pub trim_before : ℕ → Bytes → Bytes
trim_before b [] = if is_line_end b then [] else b ∷ []
trim_before b (c ∷ t) = b ∷ c ∷ t

abbrev pub trim_end : Bytes → Bytes
trim_end [] = []
trim_end (b ∷ s) = trim_before b (trim_end s)

abbrev pub read_line : List Bytes → Bytes × List Bytes
read_line [] = ([], [])
read_line (l ∷ ls) = (trim_end l, ls)

-- An answer that is empty is no password, and no user.
abbrev pub non_empty : Bytes → Option Bytes
non_empty [] = none
non_empty (b ∷ s) = some (b ∷ s)

abbrev pub read_password : Option Bytes → List Bytes → Option Bytes × List Bytes
read_password (some p) ls = (some p, ls)
read_password none ls = let (p, rest) = read_line ls in (non_empty p, rest)

-- The credentials of a proxy: those of the file, or those typed in.
unfoldable pub credentials :
    Option Bytes → Option Bytes → List Bytes → Option Bytes × Option Bytes × List Bytes
credentials (some user) password ls = (non_empty user, password, ls)
credentials none password ls =
    let (user, ls1) = read_line ls in
    let (p, ls2) = read_password password ls1 in (non_empty user, p, ls2)

-- `for layer in &proxy_protocol[0..len - 1]` and the last part; `none` is a panic of `main`.
abbrev pub panics {ℓ} : {A : Type ℓ} → Result A → Option A
panics (ok a) = some a
panics (err e) = none

abbrev pub push_server : (Bytes → Bytes) → ProxyConfig → Bytes → Option Outbound
push_server base64 conf name =
    if bytes_eq name (codes "http")
    then Option.map (λ p. server (http p)) (panics (Http.new base64 conf))
    else if bytes_eq name (codes "socks4")
    then Option.map (λ p. server (socks4 p)) (panics (Socks4.new conf))
    else if bytes_eq name (codes "socks5")
    then Option.map (λ p. server (socks5 p)) (panics (Socks5.new conf))
    else none

abbrev pub push_layer : Bytes → Option (List Outbound) → Option (List Outbound)
push_layer name rest =
    if bytes_eq name (codes "tls") then Option.map (λ os. tls_client ∷ os) rest else none

abbrev pub push_parts : (Bytes → Bytes) → ProxyConfig → List Bytes → Option (List Outbound)
push_parts base64 conf [] = none
push_parts base64 conf (name ∷ []) = Option.map (λ o. o ∷ []) (push_server base64 conf name)
push_parts base64 conf (name ∷ n ∷ names) = push_layer name (push_parts base64 conf (n ∷ names))

unfoldable pub push_proxy : (Bytes → Bytes) → ProxyConfig → Option (List Outbound)
push_proxy base64 conf = push_parts base64 conf (split b'+' conf.protocol)

-- The loop over the proxies, each with the credentials that it gets.
unfoldable pub push_proxies :
    (Bytes → Bytes) → List ProxyConfig → List Bytes → Option (List Outbound)
push_proxies base64 [] ls = some []
push_proxies base64 (conf ∷ confs) ls =
    let (user, password, rest) = credentials conf.user conf.password ls in
    let more = push_proxies base64 confs rest in
    and_then (push_proxy base64 (record conf { user = user; password = password }))
      (λ os. Option.map (λ more. os ++ more) more)

-- `if let Some(2..) | None = config.fragment`.
abbrev pub fragments_all : Option ℕ → Bool
fragments_all none = true
fragments_all (some n) = leb 2 n

abbrev pub or_no_proxies : Option (List ProxyConfig) → List ProxyConfig
or_no_proxies none = []
or_no_proxies (some confs) = confs

abbrev pub fragment_last : Option ℕ → List Outbound
fragment_last n = if fragments_all n then fragment ∷ [] else []

-- `proxy_stack` of `main`, from the bottom; `ls` are the lines typed in.
unfoldable pub proxy_stack : (Bytes → Bytes) → Config → List Bytes → Option (List Outbound)
proxy_stack base64 config ls =
    Option.map (λ os. (raw ∷ os) ++ fragment_last config.fragment)
      (push_proxies base64 (or_no_proxies config.proxies) ls)

-- `Vec::pop`.
abbrev pub pop : List Outbound → List Outbound
pop [] = []
pop (o ∷ []) = []
pop (o ∷ p ∷ os) = o ∷ pop (p ∷ os)

-- The stack for one request of `send_request`, by the settings and the request's own wish.
unfoldable pub request_stack : Option ℕ → Option Bool → List Outbound → List Outbound
request_stack config none proxies = proxies
request_stack config (some wish) proxies =
    if fragments_all config
    then (if wish then proxies else pop proxies)
    else (if wish then proxies ++ (fragment ∷ []) else proxies)
