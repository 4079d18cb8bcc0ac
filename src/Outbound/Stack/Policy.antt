-- ===== src/Outbound/Stack/Policy.antt =====
-- Which requests go through the fragmenting layer.
use local_proxy_rs.Base.{
  ℕ, Bool, true, false, List, [], ◌∷◌, ◌++◌, append-nil, Option, none, some, Bytes, leb,
  if◌then◌else◌, ◌≡◌, refl, sym, ap, ◌∙◌, Bool-cases, map-eq-some, inl, inr,
}
use local_proxy_rs.Config.{Config}
use local_proxy_rs.Outbound.Stack.{
  Outbound, raw, fragment, fragments_all, fragment_last, or_no_proxies, push_proxies, proxy_stack,
  pop, request_stack,
}

-- The wish of the request, or else the settings, which fragment everything unless the number that
-- they have is below 2.
abbrev pub fragmented : Option ℕ → Option Bool → Bool
fragmented none none = true
fragmented (some n) none = leb 2 n
fragmented config (some wish) = wish

abbrev pub layer_if : Bool → List Outbound
layer_if b = if b then fragment ∷ [] else []

pop-snoc : (os : List Outbound) (o : Outbound) → pop (os ++ (o ∷ [])) ≡ os
pop-snoc [] o = refl
pop-snoc (p ∷ []) o = refl
pop-snoc (p ∷ q ∷ os) o = ap (λ t. p ∷ t) (pop-snoc (q ∷ os) o)

request_stack-fragmented :
    (n : Option ℕ) (wish : Option Bool) (os : List Outbound)
    → request_stack n wish (os ++ fragment_last n) ≡ os ++ layer_if (fragmented n wish)
unfolding request_stack
request_stack-fragmented none none os = refl
request_stack-fragmented (some n) none os = refl
request_stack-fragmented n (some true) os = elim (Bool-cases (fragments_all n)) [
  | inl t ↦ rw t refl
  | inr t ↦ rw (t, append-nil) refl
]
request_stack-fragmented n (some false) os = elim (Bool-cases (fragments_all n)) [
  | inl t ↦ rw (t, append-nil) (pop-snoc os fragment)
  | inr t ↦ rw t refl
]

-- Of the stack that `main` has built, a request uses the proxies, and on top of them the
-- fragmenting layer just once if it asks for it, or if it does not say and the settings have no
-- number for `fragment` or one of 2 and more; and else not at all, also where it asks for none and
-- the settings fragment everything.
pub request_stack-proxy_stack :
    (base64 : Bytes → Bytes) (config : Config) (ls : List Bytes) (wish : Option Bool)
    (stack : List Outbound)
    → proxy_stack base64 config ls ≡ some stack
    → (os : List Outbound) × (push_proxies base64 (or_no_proxies config.proxies) ls ≡ some os)
      × (request_stack config.fragment wish stack
          ≡ raw ∷ (os ++ layer_if (fragmented config.fragment wish)))
unfolding proxy_stack
request_stack-proxy_stack base64 config ls wish stack h =
    let (os, e, same) =
      map-eq-some (λ os. (raw ∷ os) ++ fragment_last config.fragment)
        (push_proxies base64 (or_no_proxies config.proxies) ls) h in
    (
      os,
      e,
      ap (request_stack config.fragment wish) (sym same)
          ∙ request_stack-fragmented config.fragment wish (raw ∷ os),
    )
