-- ===== src/Outbound/Exchange/Plain.antt =====
-- A plain request is never fragmented.
use local_proxy_rs.Base.{
  Bool, true, false, List, [], ◌∷◌, ◌++◌, append-nil, Option, Bytes, codes, some, ◌≡◌, ap, ◌∙◌,
}
use local_proxy_rs.Config.{Config}
use local_proxy_rs.Doh.{RequestConfig}
use local_proxy_rs.Request.{Request}
use local_proxy_rs.Outbound.Stack.{
  Outbound, raw, fragment, rev, or_no_proxies, push_proxies, proxy_stack, request_stack,
}
use local_proxy_rs.Outbound.Stack.Route.{rev-append}
use local_proxy_rs.Outbound.Stack.Policy.{fragmented, layer_if, request_stack-proxy_stack}
use local_proxy_rs.Outbound.Exchange.{Env, http_proxy}

http_proxy-layer_if :
    {R : Type 0} (e : Env R) (os : List Outbound) (b : Bool) (conf : RequestConfig) (r : Request)
    → http_proxy e (rev (os ++ layer_if b)) (codes "http") conf r
      ≡ http_proxy e (rev os) (codes "http") conf r
unfolding http_proxy
http_proxy-layer_if e os true conf r =
    ap (λ s. http_proxy e s (codes "http") conf r) (rev-append os (fragment ∷ []))
http_proxy-layer_if e os false conf r =
    ap (λ s. http_proxy e (rev s) (codes "http") conf r) (append-nil os)

-- A plain HTTP request through the stack that `main` has built comes back as it does through the
-- proxies alone, whatever the settings and the request say of fragmentation.
pub http_proxy-plain :
    {R : Type 0} (e : Env R) (base64 : Bytes → Bytes) (config : Config) (ls : List Bytes)
    (wish : Option Bool) (stack : List Outbound) (conf : RequestConfig) (r : Request)
    → proxy_stack base64 config ls ≡ some stack
    → (os : List Outbound) × (push_proxies base64 (or_no_proxies config.proxies) ls ≡ some os)
      × (http_proxy e (rev (request_stack config.fragment wish stack)) (codes "http") conf r
          ≡ http_proxy e (rev (raw ∷ os)) (codes "http") conf r)
http_proxy-plain e base64 config ls wish stack conf r h =
    let (os, found, same) = request_stack-proxy_stack base64 config ls wish stack h in
    (
      os,
      found,
      ap (λ s. http_proxy e (rev s) (codes "http") conf r) same
          ∙ http_proxy-layer_if e (raw ∷ os) (fragmented config.fragment wish) conf r,
    )
