-- ===== src/Inbound/Http/Handled.antt =====
-- Every client gets a response, and which one.
use local_proxy_rs.Base.{
  true, false, none, some, Bytes, codes, bytes_eq, err-ne-ok, Result, ok, err, Bool-cases, inl, inr,
  ◌≡◌, ◌≢◌, refl, sym, ◌∙◌,
}
use local_proxy_rs.Main.{ProxyState}
use local_proxy_rs.Outbound.Conn.{Conn}
use local_proxy_rs.Outbound.Exchange.{Env, Exchanged}
use local_proxy_rs.Request.{get, remove}
use local_proxy_rs.Request.Headers.{get-remove_same, get-remove_other}
use local_proxy_rs.Inbound.Send.{run}
use local_proxy_rs.Inbound.Http.{
  ClientRequest, HttpResponse, Handling, open_tunnel, empty_response, tunnelled, relayed,
  keep_alive, bad_gateway, or_page, is_connect, handle,
}

-- The response of a server as it is passed on: only what it says of the connection is replaced.
pub record IsKept (r out : HttpResponse) : Type 0 where
  pub status : out.status ≡ r.status
  pub body : out.body ≡ r.body
  pub connection : get (codes "connection") out.headers ≡ some (codes "keep-alive")
  pub keep : get (codes "keep-alive") out.headers ≡ none
  pub others :
      (n : Bytes)
      → bytes_eq (codes "connection") n ≡ false
      → bytes_eq (codes "keep-alive") n ≡ false
      → get n out.headers ≡ get n r.headers

pub data IsAnswered (html : Bytes) (e : Env HttpResponse) (state : ProxyState) (r : ClientRequest)
    (h : Handling) : Type 0 where
  -- CONNECT: a connection to the server was opened, and it is tunnelled
  tunnel :
      (c : Conn)
      → is_connect r ≡ true
      → open_tunnel e state r.uri_text ≡ ok c
      → h.response ≡ ok empty_response
      → h.tunnel ≡ some c
      → h.upgrade ≡ none
      → IsAnswered html e state r h
  -- any other method: the server's response, and the task of its upgrade
  relay :
      (from : Exchanged HttpResponse) (out : HttpResponse)
      → is_connect r ≡ false
      → run e state r.request ≡ ok from
      → IsKept from.response out
      → h.response ≡ ok out
      → h.tunnel ≡ none
      → h.upgrade ≡ from.task
      → IsAnswered html e state r h
  -- either one failed: the page
  page :
      ((c : Conn) → is_connect r ≡ true → open_tunnel e state r.uri_text ≢ ok c)
      → ((x : Exchanged HttpResponse) → is_connect r ≡ false → run e state r.request ≢ ok x)
      → h.response ≡ ok (bad_gateway html)
      → h.tunnel ≡ none
      → h.upgrade ≡ none
      → IsAnswered html e state r h

keep_alive-IsKept : (r : HttpResponse) → IsKept r (keep_alive r)
unfolding keep_alive
keep_alive-IsKept r = record {
  status = refl;
  body = refl;
  connection = refl;
  keep = get-remove_same (codes "keep-alive") (remove (codes "connection") r.headers);
  others = λ n a b. rw a (
      get-remove_other n (codes "keep-alive") (remove (codes "connection") r.headers) b
      ∙ get-remove_other n (codes "connection") r.headers a);
}

clash : true ≡ false → ⊥
clash x = cc

-- Every request is answered: CONNECT with an empty 200 response exactly if a connection to the
-- server could be opened, which is then tunnelled; any other method with the server's response, of
-- which only `connection` and `keep-alive` are replaced, and with the task of its upgrade; and where
-- that fails, with the page and status 502, and neither tunnel nor task.
pub handle-IsAnswered :
    (html : Bytes) (e : Env HttpResponse) (state : ProxyState) (r : ClientRequest)
    → IsAnswered html e state r (handle html e state r)
unfolding handle
handle-IsAnswered html e state r = elim (Bool-cases (is_connect r)) [
  | inl t ↦ rw t (by_connect (open_tunnel e state r.uri_text) refl t)
  | inr f ↦ rw f (by_request (run e state r.request) refl f)
]
  where
    by_connect :
        (opened : Result Conn)
        → open_tunnel e state r.uri_text ≡ opened
        → is_connect r ≡ true
        → IsAnswered html e state r
            (record (tunnelled opened) { response = or_page html (tunnelled opened).response })
    by_connect (ok c) o t = tunnel c t o refl refl refl
    by_connect (err x) o t =
        page (λ c _ k. err-ne-ok (sym o ∙ k)) (λ y f _. clash (sym t ∙ f)) refl refl refl

    by_request :
        (got : Result (Exchanged HttpResponse))
        → run e state r.request ≡ got
        → is_connect r ≡ false
        → IsAnswered html e state r
            (record (relayed got) { response = or_page html (relayed got).response })
    by_request (ok x) o f =
        relay x (keep_alive x.response) f o (keep_alive-IsKept x.response) refl refl refl
    by_request (err x) o f =
        page (λ c t _. clash (sym t ∙ f)) (λ y _ k. err-ne-ok (sym o ∙ k)) refl refl refl
