-- ===== src/Main/Servers.antt =====
-- local_proxy/src/main.rs, the end of `main`: the three servers are started at once, and `main` ends
-- when all three have returned; the loops of listeners that are there by then end with it.
mod Tests
use local_proxy_rs.Base.{
  List, [], ◌∷◌, Option, none, some, none-ne-some, Result, ◌≡◌, ◌⊎◌, inl, inr, ◌↔◌, refl, sym, ap,
  ◌∙◌,
}
use local_proxy_rs.Addr.{StdSocketAddr}
use local_proxy_rs.Config.{TproxyConfig, Config}
use local_proxy_rs.Redir.{Platform}
use local_proxy_rs.Redir.Listen.{TcpSocket, System, Binder}
use local_proxy_rs.Inbound.Listeners.{Started, returned, sleeping, start, start_tproxy}
use local_proxy_rs.Inbound.Listeners.Bound.{Listens, Redirects, start_sleeps, start_tproxy_sleeps}

-- What binds the sockets: `TcpListener::bind` and `UdpSocket::bind`, and the system's calls.
pub record Sockets (H D : Type 0) : Type 0 where
  pub bind_http : StdSocketAddr → Result H
  pub bind_dns : StdSocketAddr → Result D
  pub platform : Platform
  pub system : System
  pub bind_tcp : Binder

abbrev pub listeners : {L : Type 0} → Started L → List L
listeners (returned r ls) = ls
listeners (sleeping ls) = ls

-- `tokio::join!`: `none` where `main` ends.
abbrev pub join :
    {H T D : Type 0} → Started H → Started T → Started D → Option (List H × List T × List D)
join (returned r hs) (returned r' ts) (returned r'' ds) = none
join (sleeping hs) t d = some (hs, listeners t, listeners d)
join (returned r hs) (sleeping ts) d = some (hs, ts, listeners d)
join (returned r hs) (returned r' ts) (sleeping ds) = some (hs, ts, ds)

unfoldable pub run_servers :
    {H D : Type 0} → Sockets H D → Config → Option (List H × List TcpSocket × List D)
run_servers b config =
    join (start b.bind_http config.http_listen)
      (start_tproxy b.platform b.system b.bind_tcp config.tproxy_listen)
      (start b.bind_dns config.dns_listen)

abbrev pub Sleeps : {L : Type 0} → Started L → Type 0
Sleeps {L} s = (ls : List L) × (s ≡ sleeping ls)

awake : {L : Type 0} {r : Result (Unit {0})} {ls ls' : List L} → returned r ls ≡ sleeping ls' → ⊥
awake h = cc

join_iff :
    {H T D : Type 0} (h : Started H) (t : Started T) (d : Started D)
    → ((x : List H × List T × List D) × (join h t d ≡ some x)) ↔ (Sleeps h ⊎ (Sleeps t ⊎ Sleeps d))
join_iff (returned r hs) (returned r' ts) (returned r'' ds) = (
  λ x. absurd (none-ne-some x.1),
  λ x. elim x [
    | inl s ↦ absurd (awake s.1)
    | inr (inl s) ↦ absurd (awake s.1)
    | inr (inr s) ↦ absurd (awake s.1)
  ],
)
join_iff (sleeping hs) t d = (λ x. inl (hs, refl), λ x. (_, refl))
join_iff (returned r hs) (sleeping ts) d = (λ x. inr (inl (ts, refl)), λ x. (_, refl))
join_iff (returned r hs) (returned r' ts) (sleeping ds) =
    (λ x. inr (inr (ds, refl)), λ x. (_, refl))

-- The sockets of a kind, one for each of the addresses in the settings, of which there is at least
-- one.
abbrev pub IsListening :
    {L : Type 0} → (StdSocketAddr → Result L) → Option (List StdSocketAddr) → List L → Type 0
IsListening bind listen ls =
    (addrs : List StdSocketAddr) × (listen ≡ some addrs) × Listens bind addrs ls

abbrev pub IsRedirecting :
    {H D : Type 0} → Sockets H D → Option TproxyConfig → List TcpSocket → Type 0
IsRedirecting b setting ls =
    (config : TproxyConfig) × (setting ≡ some config)
    × Redirects b.platform b.system b.bind_tcp config ls

-- `main` goes on for ever exactly if for one of the three servers the settings have addresses and
-- each of them could be bound, with a known type where it is the one for redirected connections.
-- A server of which one address fails does not keep `main` from ending, though others of it listen.
pub run_servers_lasts :
    {H D : Type 0} (b : Sockets H D) (config : Config)
    → ((x : List H × List TcpSocket × List D) × (run_servers b config ≡ some x)) ↔ (
        ((ls : List H) × IsListening b.bind_http config.http_listen ls)
        ⊎ (((ls : List TcpSocket) × IsRedirecting b config.tproxy_listen ls)
            ⊎ ((ls : List D) × IsListening b.bind_dns config.dns_listen ls)))
unfolding run_servers
run_servers_lasts b config =
    let http = start_sleeps b.bind_http config.http_listen in
    let redir = start_tproxy_sleeps b.platform b.system b.bind_tcp config.tproxy_listen in
    let dns = start_sleeps b.bind_dns config.dns_listen in
    let joined =
      join_iff (start b.bind_http config.http_listen)
        (start_tproxy b.platform b.system b.bind_tcp config.tproxy_listen)
        (start b.bind_dns config.dns_listen) in
    (
      λ x. elim (joined.0 x) [
        | inl (ls, e) ↦ inl (ls, (http ls).0 e)
        | inr (inl (ls, e)) ↦ inr (inl (ls, (redir ls).0 e))
        | inr (inr (ls, e)) ↦ inr (inr (ls, (dns ls).0 e))
      ],
      λ x. joined.1 (elim x [
        | inl (ls, e) ↦ inl (ls, (http ls).1 e)
        | inr (inl (ls, e)) ↦ inr (inl (ls, (redir ls).1 e))
        | inr (inr (ls, e)) ↦ inr (inr (ls, (dns ls).1 e))
      ]),
    )
