-- ===== src/TunnelServer/Stopping.antt =====
-- src/TunnelServer.cpp: the shutdown by `stop_server`, which the destructor calls again.
use mqtt_tunnel.Base.{false, ◌≡◌, arith}
use mqtt_tunnel.Libraries.Calls.{log}
use mqtt_tunnel.TunnelServer.State.{TunnelServer, server_log}
use mqtt_tunnel.TunnelServer.Loop.{join_thread, disconnect_command, disconnect_data}
use mqtt_tunnel.TunnelServer.Leases.Frames.{SameCore}

-- The statements of the shutdown leave pool, sessions and handshakes alone.
pub join_thread-core : (s : TunnelServer) → SameCore s (join_thread s)
unfolding join_thread log
join_thread-core s = ground arith

pub disconnect_command-core : (s : TunnelServer) → SameCore s (disconnect_command s)
unfolding disconnect_command log
disconnect_command-core s = ground arith

pub disconnect_data-core : (s : TunnelServer) → SameCore s (disconnect_data s)
unfolding disconnect_data log
disconnect_data-core s = ground arith

-- Both channels are disconnected, no thread runs, and what the clients hold is as it was.
pub record IsStopped (s t : TunnelServer) : Type 0 where
  pub command_closed : t.command_channel_connected ≡ false
  pub data_closed : t.data_channel_connected ≡ false
  pub joined : t.thread_running ≡ false
  pub inactive : t.tunnel_active ≡ false
  pub same_active : t.active_clients ≡ s.active_clients
  pub same_pool : t.ip_pool ≡ s.ip_pool
