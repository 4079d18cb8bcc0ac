-- ===== src/Inbound/Listeners/Bound.antt =====
-- When the listeners of a kind are all there.
use local_proxy_rs.Base.{
  List, [], ◌∷◌, ◌++◌, Option, none, some, Bytes, Result, ok, err, err-ne-ok, ◌≡◌, ok-eq, some-eq,
  none-ne-some, ◌↔◌, refl, sym, ap, ◌∙◌,
}
use mathlib.Core.Path.{subst}
use local_proxy_rs.Addr.{StdSocketAddr}
use local_proxy_rs.Config.{TproxyConfig}
use local_proxy_rs.Redir.{Platform, RedirType}
use local_proxy_rs.Redir.Listen.{TcpSocket, System, Binder, bind_redir}
use local_proxy_rs.Inbound.Listeners.{
  returned, sleeping, after_bind, bind_each, sleep_or_return, start, redir_type_of, start_redir,
  start_listed, start_tproxy, Accept, accepted, accept_loop,
}

-- Binding to each address gave the listener at the same place.
abbrev pub BindsEach :
    {L : Type 0} → (StdSocketAddr → Result L) → List StdSocketAddr → List L → Type 0
BindsEach bind [] [] = Unit
BindsEach bind (a ∷ rest) (l ∷ ls) = (bind a ≡ ok l) × BindsEach bind rest ls
BindsEach bind _ _ = ⊥

-- There is an address, and each one was bound.
abbrev pub Listens :
    {L : Type 0} → (StdSocketAddr → Result L) → List StdSocketAddr → List L → Type 0
Listens bind [] ls = ⊥
Listens bind (a ∷ rest) ls = BindsEach bind (a ∷ rest) ls

after_bind-eq-ok :
    {L : Type 0} (first : Result L) (rest : List L × Result (Unit {0})) (ls : List L)
    → after_bind first rest ≡ (ls, ok tt)
    → (l : L) × (ls' : List L) × (first ≡ ok l) × (rest ≡ (ls', ok tt)) × (ls ≡ l ∷ ls')
after_bind-eq-ok (ok l) (ls', ok u) ls h = (l, ls', refl, refl, sym (ap (λ x. x.0) h))
after_bind-eq-ok (ok l) (ls', err e) ls h = absurd (err-ne-ok (ap (λ x. x.1) h))
after_bind-eq-ok (err e) rest ls h = absurd (err-ne-ok (ap (λ x. x.1) h))

bind_each-BindsEach :
    {L : Type 0} (bind : StdSocketAddr → Result L) (addrs : List StdSocketAddr) (ls : List L)
    → bind_each bind addrs ≡ (ls, ok tt)
    → BindsEach bind addrs ls
unfolding bind_each
bind_each-BindsEach bind [] [] h = tt
bind_each-BindsEach {L} bind [] (l ∷ ls) h = absurd (not_cons (ap (λ x. x.0) h))
  where
    not_cons : [] ≡ l ∷ ls → ⊥
    not_cons x = cc
bind_each-BindsEach bind (a ∷ rest) ls h =
    let (l, ls', e, k, same) = after_bind-eq-ok (bind a) (bind_each bind rest) ls h in
    subst (BindsEach bind (a ∷ rest)) (sym same) (e, bind_each-BindsEach bind rest ls' k)

BindsEach-bind_each :
    {L : Type 0} (bind : StdSocketAddr → Result L) (addrs : List StdSocketAddr) (ls : List L)
    → BindsEach bind addrs ls
    → bind_each bind addrs ≡ (ls, ok tt)
unfolding bind_each
BindsEach-bind_each bind [] [] h = refl
BindsEach-bind_each bind [] (l ∷ ls) h = absurd h
BindsEach-bind_each bind (a ∷ rest) [] h = absurd h
BindsEach-bind_each bind (a ∷ rest) (l ∷ ls) (e, k) =
    rw e (ap (after_bind (ok l)) (BindsEach-bind_each bind rest ls k))

sleep-eq :
    {L : Type 0} (x : List L × Result (Unit {0})) (ls : List L)
    → sleep_or_return x ≡ sleeping ls
    → x ≡ (ls, ok tt)
sleep-eq {L} (ls', ok u) ls h =
    ap {A = List L} {B = List L × Result (Unit {0})} (λ x. (x, ok tt)) (cc)
sleep-eq (ls', err e) ls h = absurd (other h)
  where
    other : returned (err e) ls' ≡ sleeping ls → ⊥
    other x = cc

returned-ne-sleeping :
    {L : Type 0} {r : Result (Unit {0})} {ls ls' : List L} → returned r ls ≡ sleeping ls' → ⊥
returned-ne-sleeping h = cc

each_iff :
    {L : Type 0} (bind : StdSocketAddr → Result L) (a : StdSocketAddr) (rest : List StdSocketAddr)
    (ls : List L)
    → (sleep_or_return (bind_each bind (a ∷ rest)) ≡ sleeping ls) ↔ Listens bind (a ∷ rest) ls
each_iff bind a rest ls = (
  λ h. bind_each-BindsEach bind (a ∷ rest) ls (sleep-eq (bind_each bind (a ∷ rest)) ls h),
  λ h. ap sleep_or_return (BindsEach-bind_each bind (a ∷ rest) ls h),
)

-- `http::start` and `dns::start` sleep just where the settings have addresses for them and each
-- could be bound.
pub start_sleeps :
    {L : Type 0} (bind : StdSocketAddr → Result L) (listen : Option (List StdSocketAddr))
    (ls : List L)
    → (start bind listen ≡ sleeping ls)
      ↔ ((addrs : List StdSocketAddr) × (listen ≡ some addrs) × Listens bind addrs ls)
unfolding start
start_sleeps bind none ls = (λ h. absurd (returned-ne-sleeping h), λ x. absurd (none-ne-some x.1))
start_sleeps bind (some []) ls = (
  λ h. absurd (returned-ne-sleeping h),
  λ (addrs, e, l). absurd (subst (λ a. Listens bind a ls) (sym (some-eq e)) l),
)
start_sleeps bind (some (a ∷ rest)) ls = (
  λ h. (a ∷ rest, refl, (each_iff bind a rest ls).0 h),
  λ (addrs, e, l). (each_iff bind a rest ls).1 (subst (λ x. Listens bind x ls) (sym (some-eq e)) l),
)

module _ (p : Platform) (k : System) (bind_tcp : Binder) where
  -- The listeners of the settings for redirected connections, of the type that they say.
  abbrev pub Redirects : TproxyConfig → List TcpSocket → Type 0
  Redirects config ls =
      (t : RedirType) × (redir_type_of p config.redir_type ≡ ok t)
      × Listens (bind_redir p k bind_tcp t) config.listen ls

  start_listed_sleeps :
      (name : Option Bytes) (listen : List StdSocketAddr) (ls : List TcpSocket)
      → (start_listed p k bind_tcp name listen ≡ sleeping ls) ↔ (
          (t : RedirType) × (redir_type_of p name ≡ ok t)
          × Listens (bind_redir p k bind_tcp t) listen ls)
  start_listed_sleeps name [] ls = (λ h. absurd (returned-ne-sleeping h), λ x. absurd x.2)
  start_listed_sleeps name (a ∷ rest) ls = typed (redir_type_of p name)
    where
      typed :
          (r : Result RedirType)
          → (start_redir p k bind_tcp (a ∷ rest) r ≡ sleeping ls)
            ↔ ((t : RedirType) × (r ≡ ok t) × Listens (bind_redir p k bind_tcp t) (a ∷ rest) ls)
      typed (err e) = (λ h. absurd (returned-ne-sleeping h), λ x. absurd (err-ne-ok x.1))
      typed (ok t) = (
        λ h. (t, refl, (each_iff (bind_redir p k bind_tcp t) a rest ls).0 h),
        λ (t', e, l).
            (each_iff (bind_redir p k bind_tcp t) a rest ls).1
              (subst (λ x. Listens (bind_redir p k bind_tcp x) (a ∷ rest) ls) (sym (ok-eq e)) l),
      )

  -- `tproxy::start` sleeps just where the type is one of the platform's or absent, there are
  -- addresses, and each could be bound.
  pub start_tproxy_sleeps :
      (setting : Option TproxyConfig) (ls : List TcpSocket)
      → (start_tproxy p k bind_tcp setting ≡ sleeping ls)
        ↔ ((config : TproxyConfig) × (setting ≡ some config) × Redirects config ls)
  unfolding start_tproxy
  start_tproxy_sleeps none ls =
      (λ h. absurd (returned-ne-sleeping h), λ x. absurd (none-ne-some x.1))
  start_tproxy_sleeps (some config) ls = (
    λ h. (config, refl, (start_listed_sleeps config.redir_type config.listen ls).0 h),
    λ (c, e, l).
        (start_listed_sleeps config.redir_type config.listen ls).1
          (subst (λ x. Redirects x ls) (sym (some-eq e)) l),
  )

accepted-append :
    {S : Type 0} (client : Result S) (nodelay : Result (Unit {0})) (rest more : List S)
    → accepted client nodelay (rest ++ more) ≡ accepted client nodelay rest ++ more
accepted-append (ok s) (ok u) rest more = refl
accepted-append (ok s) (err e) rest more = refl
accepted-append (err e) nodelay rest more = refl

-- A loop goes on after a failure: the clients of later rounds are served as well.
accept_loop-append :
    {S : Type 0} (xs ys : List (Accept S))
    → accept_loop (xs ++ ys) ≡ accept_loop xs ++ accept_loop ys
unfolding accept_loop
accept_loop-append [] ys = refl
accept_loop-append (x ∷ xs) ys =
    ap (accepted x.client x.nodelay) (accept_loop-append xs ys)
    ∙ accepted-append x.client x.nodelay (accept_loop xs) (accept_loop ys)
