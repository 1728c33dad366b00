-- ===== src/Tunnel.antt =====
-- src/tunnel: the protocols that the local side of a tunnel takes.
pub mod Tls
pub mod Rmux
pub mod Ws
pub mod Http
pub mod Socks5
pub mod Relay
pub mod Local
