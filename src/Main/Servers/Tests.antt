-- ===== src/Main/Servers/Tests.antt =====
-- The start of the servers at concrete settings.
use local_proxy_rs.Base.{true, List, [], ◌∷◌, none, some, codes, ok, err, io, ◌≡◌, ◌⊎◌, ◌↔◌, refl}
use local_proxy_rs.Net.{v4_octets, v4}
use local_proxy_rs.Addr.{StdSocketAddr}
use local_proxy_rs.Config.{Config}
use local_proxy_rs.Redir.{linux, redir_from_str}
use local_proxy_rs.Redir.Listen.{TcpSocket}
use local_proxy_rs.Inbound.Listeners.{start, start_tproxy, bind_each, redir_type_of}
use local_proxy_rs.Main.Servers.{
  Sockets, run_servers, IsListening, IsRedirecting, run_servers_lasts,
}

abbrev http_addr : StdSocketAddr
http_addr = record { ip = v4 (v4_octets 127 0 0 1); port = 8080 }

abbrev dns_addr : StdSocketAddr
dns_addr = record { ip = v4 (v4_octets 127 0 0 1); port = 53 }

-- A system that gives TCP sockets, here their addresses, and no socket for DNS.
abbrev sockets : Sockets StdSocketAddr StdSocketAddr
sockets = record {
  bind_http = λ a. ok a;
  bind_dns = λ a. err io;
  platform = linux;
  system = record {
    opens = λ l. true;
    sets_option = λ l o s. true;
    binds = λ s a. true;
    listens = λ s n. true;
  };
  bind_tcp = λ a. err io;
}

abbrev settings : Config
settings = record {
  proxies = none;
  doh = none;
  fragment = none;
  http_listen = some (http_addr ∷ []);
  tproxy_listen = some (record { listen = http_addr ∷ []; redir_type = some (codes "pf") });
  dns_listen = some (dns_addr ∷ []);
}

run_servers_lasts_example :
    ((x : List StdSocketAddr × List TcpSocket × List StdSocketAddr) × (run_servers sockets settings
        ≡ some x))
    ↔ (((ls : List StdSocketAddr) × IsListening sockets.bind_http settings.http_listen ls)
        ⊎ (((ls : List TcpSocket) × IsRedirecting sockets settings.tproxy_listen ls)
            ⊎ ((ls : List StdSocketAddr) × IsListening sockets.bind_dns settings.dns_listen ls)))
run_servers_lasts_example = run_servers_lasts sockets settings

-- The HTTP server is the one that lasts.
lasting : run_servers sockets settings ≡ some (http_addr ∷ [], [], [])
unfolding run_servers start start_tproxy bind_each redir_type_of redir_from_str
lasting = refl
