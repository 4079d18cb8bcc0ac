-- ===== src/Inbound/Http.antt =====
-- local_proxy/src/inbound/http: the server for HTTP clients, `handle` of mod.rs and `run` of
-- connect.rs. The page static/error.html is a parameter.
pub mod Handled
use local_proxy_rs.Base.{
  ℕ, Bool, List, [], ◌∷◌, Option, none, some, Bytes, codes, bytes_eq, if◌then◌else◌, Error, Result,
  ok, err, bind,
}
use local_proxy_rs.Addr.{SocketAddr, addr_from_str}
use local_proxy_rs.Main.{ProxyState}
use local_proxy_rs.Outbound.Conn.{Conn}
use local_proxy_rs.Outbound.Stack.{rev}
use local_proxy_rs.Outbound.Exchange.{Env, Exchanged, happy_eyeballs}
use local_proxy_rs.Request.{Headers, Request, insert, remove}
use local_proxy_rs.Inbound.Send.{run}

-- A client's request; the text of its URI is what hyper prints.
pub record ClientRequest : Type 0 where
  pub method : Bytes
  pub uri_text : Bytes
  pub request : Request

pub record HttpResponse : Type 0 where
  pub status : ℕ
  pub headers : Headers
  pub body : Bytes

-- What comes of a request: the response; the connection to the server that the task of
-- `connect::run` copies to the client and back; and what the task of an upgrade comes to.
pub record Handling : Type 0 where
  pub response : Result HttpResponse
  pub tunnel : Option Conn
  pub upgrade : Option (Result (Conn × Conn))

-- `connect::run` up to the spawned task.
unfoldable pub open_tunnel : {R : Type 0} → Env R → ProxyState → Bytes → Result Conn
open_tunnel e state uri_text = bind (addr_from_str uri_text) (λ server.
    happy_eyeballs e.network e.doh (e.answers server.hostname) e.first (rev state.proxy_stack)
      server)

-- `Response::new(Body::new(Empty::<Bytes>::new()))`
abbrev pub empty_response : HttpResponse
empty_response = record { status = 200; headers = []; body = [] }

abbrev pub tunnelled : Result Conn → Handling
tunnelled (ok c) = record { response = ok empty_response; tunnel = some c; upgrade = none }
tunnelled (err e) = record { response = err e; tunnel = none; upgrade = none }

unfoldable pub keep_alive : HttpResponse → HttpResponse
keep_alive r = record r {
  headers =
      remove (codes "keep-alive") (insert (codes "connection") (codes "keep-alive") r.headers);
}

-- `if let Ok(response) = &mut response { … }`
abbrev pub relayed : Result (Exchanged HttpResponse) → Handling
relayed (ok x) = record { response = ok (keep_alive x.response); tunnel = none; upgrade = x.task }
relayed (err e) = record { response = err e; tunnel = none; upgrade = none }

-- The builder is given a status and headers that it always accepts.
abbrev pub bad_gateway : Bytes → HttpResponse
bad_gateway error_html = record {
  status = 502;
  headers =
      (codes "connection", codes "keep-alive")
      ∷ (codes "content-type", codes "text/html; charset=utf-8")
      ∷ [];
  body = error_html;
}

-- `if response.is_err() { … }`
abbrev pub or_page : Bytes → Result HttpResponse → Result HttpResponse
or_page error_html (ok r) = ok r
or_page error_html (err e) = ok (bad_gateway error_html)

abbrev pub is_connect : ClientRequest → Bool
is_connect r = bytes_eq r.method (codes "CONNECT")

unfoldable pub handle : Bytes → Env HttpResponse → ProxyState → ClientRequest → Handling
handle error_html e state r =
    let h =
      if is_connect r
      then tunnelled (open_tunnel e state r.uri_text)
      else relayed (run e state r.request) in
    record h { response = or_page error_html h.response }
