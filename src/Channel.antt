-- ===== src/Channel.antt =====
-- src/channel: the client's side of a tunnel.
pub mod Rmux
pub mod Handshake
pub mod Opening
pub mod Routine
pub mod Url
