-- ===== src/Inbound/Tproxy/Tests.antt =====
-- A redirected connection at concrete settings.
use local_proxy_rs.Base.{
  ℕ, false, true, List, [], ◌∷◌, none, some, Bytes, codes, ok, err, io, ◌≡◌, ◌≢◌, refl,
}
use local_proxy_rs.Net.{v4_octets, v4}
use local_proxy_rs.Addr.{StdSocketAddr}
use local_proxy_rs.Config.{TproxyConfig, Config}
use local_proxy_rs.Main.{ProxyState, proxy_state}
use local_proxy_rs.Redir.{linux, redirect, redir_from_str}
use local_proxy_rs.Redir.Pf.{unreachable}
use local_proxy_rs.Redir.Pf.Natlook.{PfCalls}
use local_proxy_rs.Redir.Pf.Device.{untouched}
use local_proxy_rs.Redir.Listen.{
  PfStatic, ip_level, TcpSocket, System, Binder, bind_redir, TcpStream, destination_addr,
  get_original_destination_addr,
}
use local_proxy_rs.Outbound.Conn.{Conn}
use local_proxy_rs.Outbound.Stack.{
  raw, fragment, Network, connect, or_no_proxies, push_proxies, proxy_stack,
}
use local_proxy_rs.Outbound.Stack.Route.{Hop, whole_way}
use local_proxy_rs.Outbound.Stack.Built.{ServesAll}
use local_proxy_rs.Inbound.Listeners.{bind_each, redir_type_of, start_tproxy, sleeping}
use local_proxy_rs.Inbound.Tproxy.{opened, run}
use local_proxy_rs.Inbound.Tproxy.Route.{IsRouted, run_routed}

abbrev fresh : Conn
fresh = record { incoming = []; sent = [] }

abbrev open_network : Network
open_network = record {
  dial = λ t. ok fresh;
  set_nodelay = λ c. ok c;
  tls = λ name c. ok c;
  tunnel = λ r c. ok c;
  fragment_layer = λ c. c;
}

abbrev willing : System
willing = record {
  opens = λ l. true;
  sets_option = λ l o s. true;
  binds = λ s a. true;
  listens = λ s n. true;
}

abbrev listener : TcpSocket
listener = record { family = ip_level; options = []; bound = none; backlog = none }

abbrev tcp_binder : Binder
tcp_binder a = ok listener

abbrev no_calls : ℕ → PfCalls
no_calls fd = record { ioc_natlook = λ pnl. err io; ioc_getstates = []; state_size = 328 }

abbrev no_filter : PfStatic
no_filter = record {
  libc = record { open_device = λ fs. none; sets_flags = λ fs fd. false };
  files = [];
  cell = untouched;
  calls = no_calls;
}

abbrev local_addr : StdSocketAddr
local_addr = record { ip = v4 (v4_octets 0 0 0 0); port = 1081 }

abbrev site : StdSocketAddr
site = record { ip = v4 (v4_octets 93 184 216 34); port = 443 }

abbrev setting : TproxyConfig
setting = record { listen = local_addr ∷ []; redir_type = some (codes "redirect") }

abbrev settings : Config
settings = record {
  proxies = none;
  doh = none;
  fragment = none;
  http_listen = none;
  tproxy_listen = some setting;
  dns_listen = none;
}

abbrev state : ProxyState
state = record { config = settings; dns_cache = 0; proxy_stack = raw ∷ fragment ∷ [] }

abbrev same_text : Bytes → Bytes
same_text s = s

-- A client that the system has redirected from the site.
abbrev client : TcpStream
client = record { peer_addr = err io; local_addr = ok local_addr; original = λ l. some (some site) }

built : proxy_state same_text settings [] ≡ some state
unfolding proxy_state proxy_stack push_proxies
built = refl

typed : redir_type_of linux setting.redir_type ≡ ok redirect
unfolding redir_type_of redir_from_str
typed = refl

started :
    start_tproxy linux willing tcp_binder state.config.tproxy_listen ≡ sleeping (listener ∷ [])
unfolding start_tproxy redir_type_of redir_from_str bind_each bind_redir
started = refl

run_routed_example :
    (hops : List Hop) × ServesAll (or_no_proxies settings.proxies) hops
    × (destination_addr linux no_filter client redirect ≢ unreachable)
    × IsRouted
        (whole_way open_network none hops)
        (destination_addr linux no_filter client redirect)
        (run linux no_filter open_network state client redirect)
run_routed_example =
    run_routed linux willing tcp_binder no_filter open_network same_text settings setting [] state
      (listener ∷ []) client redirect built refl typed started

connected : run linux no_filter open_network state client redirect ≡ opened (ok fresh)
unfolding run destination_addr get_original_destination_addr connect
connected = refl
