-- ===== src/TunnelServer/Threads/Flags.antt =====
-- The flags that the shutdown of src/TunnelServer.cpp goes by, and that a message leaves them alone.
use mqtt_tunnel.Base.{Bool, refl}
use mqtt_tunnel.TunnelServer.State.{TunnelServer, server_log}
use mqtt_tunnel.Libraries.Calls.{log}
use mqtt_tunnel.TunnelServer.Observed.{Ignores}

-- The flag of the TUN thread, whether it can be joined, and which clients are connected.
abbrev pub flags : TunnelServer → Bool × Bool × Bool × Bool
flags s = (s.tunnel_active, s.thread_running, s.command_channel_connected, s.data_channel_connected)

pub flags-Ignores : Ignores flags
unfolding log
flags-Ignores = record {
  logs = λ e s q. refl;
  crypto = λ m s. refl;
  pool = λ p s. refl;
  clients = λ m s. refl;
  handshakes = λ m s. refl;
}
