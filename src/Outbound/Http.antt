-- ===== src/Outbound/Http.antt =====
-- local_proxy/src/outbound/http.rs: the settings of an HTTP proxy, and the CONNECT request for it.
use local_proxy_rs.Base.{
  List, [], ◌∷◌, ◌++◌, Option, none, some, Bytes, codes, length, ltb, if◌then◌else◌, Result, map_ok,
}
use local_proxy_rs.Addr.{SocketAddr, addr_to_string, addr_from_str}
use local_proxy_rs.Config.{ProxyConfig}

pub record HttpProxy : Type 0 where
  pub addr : SocketAddr
  pub auth : Option Bytes

-- `if let Some(user) = … { auth += user }`.
abbrev pub push_opt : Option Bytes → Bytes → Bytes
push_opt none s = s
push_opt (some t) s = s ++ t

-- `HttpProxy::new`; `base64` is the standard encoding of the crate of that name.
unfoldable pub new : (Bytes → Bytes) → ProxyConfig → Result HttpProxy
new base64 conf =
    let auth = push_opt conf.password (push_opt conf.user [] ++ codes ":") in
    map_ok
      (λ a. record { addr = a; auth = if ltb 1 (length auth) then some (base64 auth) else none })
      (addr_from_str conf.server)

pub record ConnectRequest : Type 0 where
  pub uri : Bytes
  pub headers : List (Bytes × Bytes)

abbrev pub authorization : Option Bytes → List (Bytes × Bytes)
authorization none = []
authorization (some auth) = (codes "proxy-authorization", codes "Basic " ++ auth) ∷ []

-- The request of `connect`, whose method is CONNECT and whose body is empty.
unfoldable pub connect_request : HttpProxy → SocketAddr → ConnectRequest
connect_request p a =
    let addr_str = addr_to_string a in
    record {
      uri = addr_str;
      headers =
          ((codes "host", addr_str)
            ∷ (codes "connection", codes "keep-alive")
            ∷ (codes "proxy-connection", codes "keep-alive")
            ∷ [])
          ++ authorization p.auth;
    }
