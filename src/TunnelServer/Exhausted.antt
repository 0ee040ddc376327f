-- ===== src/TunnelServer/Exhausted.antt =====
-- src/TunnelServer.cpp, `case CLIENT_HELLO`, when the pool has no address left.
use mqtt_tunnel.IpPool.{IpPool}
use mqtt_tunnel.Messages.{client_hello_serializable}
use mqtt_tunnel.Libraries.{Libraries}
use mqtt_tunnel.TunnelServer.State.{TunnelServer}
