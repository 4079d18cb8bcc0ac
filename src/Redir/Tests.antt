-- ===== src/Redir/Tests.antt =====
-- The theorems on redirection at concrete input.
use local_proxy_rs.Base.{
  ℕ, true, List, Option, if◌then◌else◌, ◌==◌, ◌≡◌, ◌≢◌, refl, [], ◌∷◌, none, some, ok, err, io,
  arith,
}
use local_proxy_rs.Net.{v4_octets, v6_segments, v4, v6}
use local_proxy_rs.Addr.{StdSocketAddr}
use local_proxy_rs.Redir.{linux, tproxy}
use local_proxy_rs.Redir.Listen.{
  PfStatic, Level, SockOpt, TcpSocket, System, Binder, bind_redir, TcpStream, destination_addr,
  create_tproxy_listener, set_ip_transparent,
}
use local_proxy_rs.Redir.Pf.{unreachable, returns, Ioctl, to_be, tcp_natlook}
use local_proxy_rs.Redir.Pf.Natlook.{PfCalls}
use local_proxy_rs.Redir.Pf.Udp.{PfState, pf_addr, udp_natlook, udp_natlook-misses}
use local_proxy_rs.Redir.Pf.Answer.{answer, family, tcp_natlook-answer}
use local_proxy_rs.Redir.Pf.Device.{
  OpenFile, Libc, untouched, GivesNew, IsClean, open_filter, open_filter-IsClean,
}
use local_proxy_rs.Redir.Reach.{
  bind_redir-destination_addr, create_tproxy_listener-levels, family_of, levels,
}

abbrev willing : System
willing = record {
  opens = λ l. true;
  sets_option = λ l o s. true;
  binds = λ s a. true;
  listens = λ s n. true;
}

abbrev any_addr : StdSocketAddr
any_addr = record { ip = v6 (v6_segments 0 0 0 0 0 0 0 0); port = 1081 }

abbrev no_binder : Binder
no_binder a = err io

abbrev gateway : StdSocketAddr
gateway = record { ip = v4 (v4_octets 10 0 0 1); port = 8081 }

abbrev guest : StdSocketAddr
guest = record { ip = v4 (v4_octets 10 0 0 7); port = 40000 }

abbrev site : StdSocketAddr
site = record { ip = v4 (v4_octets 93 184 216 34); port = 443 }

-- A filter that answers every question with one site.
abbrev one_site : Ioctl
one_site pnl = ok (answer gateway guest site)

-- The same filter, whose table outgrows the first buffer once.
abbrev one_filter : PfCalls
one_filter = record {
  ioc_natlook = one_site;
  ioc_getstates = ok (9840, []) ∷ ok (9840, []) ∷ [];
  state_size = 328;
}

-- A process with the descriptor 3 open, which is given 4 for the device.
abbrev one_file : OpenFile
one_file = record { fd = 3; cloexec = true }

abbrev give_four : List OpenFile → Option ℕ
give_four fs = elim fs [
  | [] ↦ none
  | f ∷ rest ↦ elim rest [ [] ↦ if f.fd == 4 then none else some 4 | g ∷ more ↦ none ]
]

abbrev one_device : Libc
one_device = record { open_device = give_four; sets_flags = λ fs fd. true }

abbrev one_static : PfStatic
one_static = record {
  libc = one_device;
  files = one_file ∷ [];
  cell = untouched;
  calls = λ fd. one_filter;
}

abbrev accepted : TcpStream
accepted = record {
  peer_addr = err io;
  local_addr = ok (record { ip = v4 (v4_octets 93 184 216 34); port = 443 });
  original = λ l. none;
}

abbrev transparent_socket : TcpSocket
transparent_socket = record {
  family = Level.ipv6_level;
  options =
      (Level.ipv6_level, SockOpt.ipv6_transparent) ∷ (Level.ip_level, SockOpt.ip_transparent) ∷ [];
  bound = some any_addr;
  backlog = some 1024;
}

listening : create_tproxy_listener willing any_addr ≡ ok transparent_socket
unfolding create_tproxy_listener set_ip_transparent
listening = refl

bound : bind_redir linux willing no_binder tproxy any_addr ≡ ok transparent_socket
unfolding bind_redir
bound = listening

bind_redir-destination_addr_example :
    destination_addr linux one_static accepted tproxy ≢ unreachable
bind_redir-destination_addr_example =
    bind_redir-destination_addr linux willing no_binder one_static tproxy any_addr
      transparent_socket accepted bound

create_tproxy_listener-levels_example :
    (transparent_socket.family ≡ family_of any_addr.ip)
    × (transparent_socket.options ≡ levels any_addr.ip)
    × (transparent_socket.bound ≡ some any_addr)
    × (transparent_socket.backlog ≡ some 1024)
create_tproxy_listener-levels_example =
    create_tproxy_listener-levels willing any_addr transparent_socket listening

tcp_natlook-answer_example : tcp_natlook one_site gateway guest ≡ returns (ok site)
tcp_natlook-answer_example = tcp_natlook-answer one_site gateway guest site refl (omega arith) refl

-- The state that the filter keeps for a packet of the guest.
abbrev guest_state : PfState
guest_state = record {
  proto = 17;
  lan_addr = pf_addr gateway.ip;
  lan_port = to_be gateway.port;
  ext_addr = pf_addr guest.ip;
  ext_port = to_be guest.port;
  gwy_addr = pf_addr site.ip;
  gwy_port = to_be site.port;
  af_gwy = family site.ip;
}

ports_differ : to_be guest.port ≢ guest.port
ports_differ e = omega arith

udp_natlook-misses_example :
    udp_natlook 328 (ok (328, guest_state ∷ []) ∷ []) gateway guest ≡ returns (err io)
udp_natlook-misses_example =
    udp_natlook-misses 328 328 (guest_state ∷ []) gateway guest (omega arith) ports_differ
      (refl, tt)

one_device-GivesNew : GivesNew one_device
one_device-GivesNew [] fd e = cc
one_device-GivesNew (f ∷ []) fd e = (ground arith, tt)
one_device-GivesNew (f ∷ g ∷ more) fd e = cc

open_filter-IsClean_example : IsClean (one_file ∷ []) (open_filter one_device (one_file ∷ []))
open_filter-IsClean_example = open_filter-IsClean one_device (one_file ∷ []) one_device-GivesNew
