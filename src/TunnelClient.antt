-- ===== src/TunnelClient.antt =====
-- src/TunnelClient.hpp and src/TunnelClient.cpp: the client of the tunnel.
pub mod State
pub mod Session
pub mod Tunnel
pub mod Build
pub mod Parts
pub mod Plain
pub mod Secure
pub mod Unanswered
pub mod Forwarding
