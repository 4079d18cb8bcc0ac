-- ===== src/Lib.antt =====
-- local_proxy_rs: a local proxy that forwards connections and HTTP requests through a chain of
-- upstream proxies, cuts TLS ClientHellos into small records, and resolves names by DNS over HTTPS.
--
-- How the parts work together. The program's start (local_proxy/src/main.rs) reads the settings and
-- builds a stack of outbounds: the plain TCP dialler, then the TLS layers and the proxy of each entry,
-- then the fragmenting layer. A connection (inbound/http/connect.rs, inbound/tproxy.rs) is asked of the
-- top of the stack, which asks the one below for its own server. A request (inbound/http/http_proxy.rs)
-- is rewritten first and may change the top of the stack. A DNS query (utils/dns.rs) is such a request.
-- The servers of inbound take these from clients: inbound/http/mod.rs tells CONNECT from other requests,
-- inbound/tproxy.rs has connections that the system redirected, and inbound/dns.rs a socket for queries.
--
-- The files and what they model:
--   Base       lists, options, results, decimal numbers and byte strings over the native numbers
--   Net        the IP addresses of the standard library, as it prints and parses them; Net/V4 and
--              Net/V6 read each back from its text
--   Addr       local_proxy/src/utils/addr.rs: HostName and SocketAddr; Addr/RoundTrip and Addr/Header
--              have the theorems on printing, parsing and Host headers
--   Body       local_proxy/src/utils/http.rs: a body behind hidden types; Body/Same compares it with the
--              body inside
--   Config     local_proxy/src/config.rs
--   Fragment   local_proxy/src/outbound/layer/fragment.rs: State with its five states, Header, Buffer and
--              what poll_write does to them; Fragment/Send has the loops of poll_flush, Fragment/Layer
--              poll_read, poll_write, poll_flush and poll_shutdown as a whole, Fragment/Inner the stream
--              below, which answers each poll by the next reply of a script. Chunk, Message, Round, Loop
--              and Flush follow a message through the loops; Pays and Ready count the replies;
--              Accumulate is about the writes before; Hello puts these together; Raw is about buffers
--              that are sent unfragmented, Close about the shutdown of a layer that still waits, Through
--              about a layer that passes on
--   Outbound   local_proxy/src/outbound: Conn is a connection as a handshake sees it, Socks5 and Socks4
--              are socks5.rs and socks4.rs, each with a decoder of the protocol for the server's side,
--              Http is the CONNECT request of http.rs, Stack the stack of main.rs with raw.rs,
--              layer/mod.rs and layer/tls.rs, and the change of the stack in http_proxy.rs; Exchange is
--              happy_eyeballs and http_proxy of mod.rs, layer/mod.rs and http.rs, Exchange/Upgrade the
--              tasks of its 101 responses
--   Request    local_proxy/src/inbound/http/http_proxy.rs, send_request up to the choice of the stack,
--              and local_proxy/src/utils/uri_parse.rs, Request/UriParse, where Text and Percent are
-- --              about percent-encoded text in UTF-8, and RoundTrip has the round trip
--   Inbound    local_proxy/src/inbound: Send is send_request as a whole, and the proxy as the client of
--              its own DNS queries; Http is handle of http/mod.rs with connect.rs; Dns the socket of
--              dns.rs as a step relation, in which Sound and Reached have the invariant, Drain and Idle
--              the end of the work, and Alone a task that nothing interrupts; Listeners the start
--              functions and accept loops, and Tproxy the task of tproxy.rs
--   Main       local_proxy/src/main.rs: the state that main keeps, and in Main/Servers when main ends
--   Doh        local_proxy/src/utils/dns.rs, doh_query, and RequestConfig; Doh/Resolve is dns_resolve
--              of local_proxy/src/utils/addr.rs
--   Redir      tproxy_tokio/src/lib.rs, RedirType, and tproxy_tokio/src/tcp, whose cfg conditions are
--              tests on a Platform; Redir/Listen binds and looks up, Redir/Pf is tcp/bsd/pf.rs,
--              Redir/Pf/Udp its lookup for UDP, which nothing in the repository calls,
--              Redir/Pf/Natlook the choice between the two, Redir/Pf/Ends says that they end, and
--              Redir/Pf/Device is the opening and dropping of the device
--
-- How code becomes definitions. A mutable object is passed and returned; an error is the err of Result;
-- ready!, ? and early returns are helpers by clauses named for what follows. A poll is pending, ready,
-- failed, panicked or out_of_fuel, so that panics and loops that do not end are values that the theorems
-- exclude. The loop over a chunk has fuel for each byte left of it, the loop over a message for each byte
-- left and one round more; send_chunk-Sends and send_message-Progress show that these are enough. The
-- loop over a raw buffer is recursion on the stream's script, from which each round takes a reply, that
-- for the table of states on the device's answers; natlook_ends shows that two of these are enough. The
-- calls from dns_resolve to send_request and back are nested to a depth, of which resolver_ends shows that
-- one is enough. Tasks interleave at their awaits, as steps in any order; the cache may change in between.
--
-- Parameters. Code of other libraries is a field of a record that the definitions take: Network (tokio,
-- rustls and hyper under the stack), Library and Env (hyper, percent-encoding and base64 for a request),
-- DnsParser, Client and Cache (the server and the cache of DNS answers), System, Libc and PfCalls (the
-- socket calls, the opening of the packet filter's device, and the calls on it), BodyMethods and
-- BufMethods (hyper's bodies). A stream takes a first part of what it is offered, and a flush is one
-- reply.
--
-- Not modelled: the generated bindings of tproxy_tokio/src/tcp/bsd; the copying of bytes between two
-- connections, which is tokio's; the exchange of HTTP messages, which is hyper's.
pub mod Base
pub mod Net
pub mod Addr
pub mod Body
pub mod Config
pub mod Outbound
pub mod Doh
pub mod Request
pub mod Redir
pub mod Fragment
pub mod Main
pub mod Inbound
