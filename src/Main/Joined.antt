-- ===== src/Main/Joined.antt =====
-- src/main.cpp: whatever a run of the program does, its threads are joined.
use mqtt_tunnel.Base.{ℕ, false, ◌≡◌, some, List, Result}
use mqtt_tunnel.Libraries.{Libraries, Effect}
use mqtt_tunnel.TunnelClient.State.{TunnelClient}
use mqtt_tunnel.TunnelClient.Build as ClientBuild
use mqtt_tunnel.TunnelServer.State.{TunnelServer}
use mqtt_tunnel.TunnelServer.Build as ServerBuild
use mqtt_tunnel.Main.ThreadLog.{thread_after}
use mqtt_tunnel.Main.ServerThread as OfServer
use mqtt_tunnel.Main.ClientThread as OfClient

abbrev Joined : Result ℕ × List Effect → Type 0
Joined r = thread_after r.1 ≡ some false
