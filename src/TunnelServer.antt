-- ===== src/TunnelServer.antt =====
-- src/TunnelServer.hpp and src/TunnelServer.cpp: the server of the tunnel.
pub mod State
pub mod Handshake
pub mod Loop
pub mod TunRead
pub mod Build
pub mod Replies
pub mod Plain
pub mod Refused
pub mod Wrapped
pub mod Secure
pub mod Forwarding
pub mod Ending
pub mod Stopping
pub mod Routing
pub mod Observed
pub mod Exhausted
pub mod Leases
pub mod Threads
