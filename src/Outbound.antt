-- ===== src/Outbound.antt =====
-- local_proxy/src/outbound: the ways to a server, through proxies and layers.
pub mod Conn
pub mod Socks5
pub mod Socks4
pub mod Http
pub mod Stack
pub mod Exchange
