-- ===== src/TunnelServer/Threads/Shutdown.antt =====
-- The shutdown of src/TunnelServer.cpp in every interleaving of its two threads: what `stop_server`
-- waits for.
use mqtt_tunnel.Base.{Bool, true, false, ◌≡◌, ◌≢◌, refl}
use mqtt_tunnel.Base.Text.{Str}
use mqtt_tunnel.Libraries.{Libraries}
use mqtt_tunnel.TunnelServer.State.{TunnelServer, server_log}
use mqtt_tunnel.TunnelServer.Threads.{
  Reader, exited, Main, serving, leaving, joining, command_closing, data_closing, finished,
  undefined, Threads, Reach, here, later, started,
}
use mqtt_tunnel.TunnelServer.Threads.Flags.{flags}
use mqtt_tunnel.TunnelServer.Threads.Phases.{Phase, InPhase, turn-InPhase}

-- The server as `start_server` hands it to the threads.
pub record IsStarted (s : TunnelServer) : Type 0 where
  pub active : s.tunnel_active ≡ true
  pub running : s.thread_running ≡ true
  pub connected : s.data_channel_connected ≡ true

Reach-InPhase : {lib : Libraries} {s t : Threads} → InPhase s → Reach lib s t → InPhase t
Reach-InPhase p here = p
Reach-InPhase {lib} p (later x {t} r) = turn-InPhase lib x t (Reach-InPhase p r)

started-InPhase : (s : TunnelServer) (buffer : Str) → IsStarted s → InPhase (started s buffer)
started-InPhase s buffer i = (i.active, i.running, i.connected, λ e. cc)

closed_at_end :
    (m : Main) (r : Reader) (f : Bool × Bool × Bool × Bool)
    → Phase m r f
    → m ≢ undefined
    → f.3 ≡ false
    → (r ≡ exited) × (m ≡ finished)
closed_at_end serving r f p n e = cc
closed_at_end leaving r f p n e = cc
closed_at_end joining r f p n e = cc
closed_at_end command_closing r f p n e = cc
closed_at_end data_closing r f p n e = cc
closed_at_end finished r f p n e = (p.4, refl)
closed_at_end undefined r f p n e = absurd (n refl)

-- In every interleaving of a started server's threads without undefined behaviour, the data client is
-- disconnected only at the end of the shutdown, and then the TUN thread, which publishes on it, has
-- left its loop.
pub Reach-closed_last :
    {lib : Libraries} {t : Threads} (s : TunnelServer) (buffer : Str)
    → IsStarted s
    → Reach lib (started s buffer) t
    → t.main ≢ undefined
    → t.server.data_channel_connected ≡ false
    → (t.reader ≡ exited) × (t.main ≡ finished)
Reach-closed_last {lib} {t} s buffer i r n e =
    closed_at_end t.main t.reader (flags t.server) (Reach-InPhase (started-InPhase s buffer i) r) n
      e
