-- ===== src/Inbound.antt =====
-- local_proxy/src/inbound: what the proxy does for its own clients.
pub mod Send
pub mod Http
pub mod Dns
pub mod Listeners
pub mod Tproxy
mod Tests
