-- ===== src/TunnelServer/Threads/Rounds.antt =====
-- The steps of the TUN thread of src/TunnelServer.cpp against the round of its loop as one function, and
-- what no interleaving of the threads breaks.
use mqtt_tunnel.TunnelServer.Stopping.{disconnect_command-core, disconnect_data-core}
use mqtt_tunnel.Base.{
  ℕ, zero, suc, Bool, true, false, ◌≡◌, ◌≢◌, Option, none, some, [], Result, ok, throw, fault,
  arith, if◌then◌else◌,
}
use mqtt_tunnel.Base.Text.{Str}
use mqtt_tunnel.Base.Dict.{lookup}
use mqtt_tunnel.Types.{SessionConfig}
use mqtt_tunnel.Libraries.{Libraries, Moment, data_channel}
use mqtt_tunnel.Libraries.Calls.{log}
use mqtt_tunnel.TunnelServer.State.{TunnelServer, server_log}
use mqtt_tunnel.TunnelServer.Loop.{handle_message, join_thread}
use mqtt_tunnel.TunnelServer.Leases.Frames.{
  SameCore, core_refl, IsServing, IsServing-core, Frame-publish,
}
use mqtt_tunnel.TunnelServer.Leases.Runs.{handle_message-IsServing, distinct_addresses}
use mqtt_tunnel.TunnelServer.Threads.{
  Reader, testing, reading, looking, sealing, publishing, exited, crashed, published_by,
  reader_step, Main, serving, leaving, joining, command_closing, data_closing, finished, undefined,
  served, loop_step, join_step, main_step, Threads, Turn, main_turn, reader_turn, turn, Reach, here,
  later, started, ended,
}

-- `n` steps of the TUN thread with nobody in between.
abbrev pub alone : Libraries → ℕ → Option Str → ℕ → Reader × TunnelServer → Reader × TunnelServer
alone lib entropy packet zero q = q
alone lib entropy packet (suc n) (r, s) =
    alone lib entropy packet n (reader_step lib entropy packet r s)

-- The thread is where a round with this outcome leaves it, on the same server.
abbrev pub Ends : Reader × TunnelServer → Result Str × TunnelServer → Type 0
Ends (r, t) (ok buffer, u) = (r ≡ testing buffer) × (t ≡ u)
Ends (r, t) (throw e, u) = (r ≡ crashed) × (t ≡ u)
Ends (r, t) (fault, u) = (r ≡ crashed) × (t ≡ u)

-- Steps of the TUN thread leave pool, sessions and handshakes alone.
published_by-core :
    (buffer : Str) (s : TunnelServer) (r : Result (Unit {0}) × TunnelServer)
    → SameCore s r.1
    → SameCore s (published_by buffer r).1
unfolding published_by
published_by-core buffer s (ok _, t) c = c
published_by-core buffer s (throw e, t) c = c
published_by-core buffer s (fault, t) c = c

reader_step-core :
    (lib : Libraries) (entropy : ℕ) (packet : Option Str) (r : Reader) (s : TunnelServer)
    → SameCore s (reader_step lib entropy packet r s).1
unfolding reader_step
reader_step-core lib entropy packet (testing b) s = core_refl
reader_step-core lib entropy none (reading b) s = core_refl
reader_step-core lib entropy (some p) (reading b) s = core_refl
reader_step-core lib entropy packet (looking b p) s = core_refl
reader_step-core lib entropy packet (sealing b p c) s = core_refl
reader_step-core lib entropy packet (publishing b topic payload) s =
    published_by-core b s _ (Frame-publish lib data_channel topic payload 0 s)
reader_step-core lib entropy packet exited s = core_refl
reader_step-core lib entropy packet crashed s = core_refl

served-IsServing : (r : Result (Unit {0}) × TunnelServer) → IsServing r.1 → IsServing (served r).1
unfolding served
served-IsServing (ok _, t) v = v
served-IsServing (throw e, t) v = v
served-IsServing (fault, t) v = v

join_step-core : (r : Reader) (s : TunnelServer) → SameCore s (join_step r s).1
unfolding join_step join_thread log
join_step-core r s = ground arith

main_step-IsServing :
    (lib : Libraries) (found : Option (Moment × Str)) (r : Reader) (m : Main) (s : TunnelServer)
    → IsServing s
    → IsServing (main_step lib found r m s).1
unfolding main_step loop_step
main_step-IsServing lib none r serving s v = v
main_step-IsServing lib (some (at, payload)) r serving s v =
    served-IsServing (handle_message lib at payload s) (handle_message-IsServing lib at payload s v)
main_step-IsServing lib found r leaving s v = v
main_step-IsServing lib found r joining s v = IsServing-core s _ (join_step-core r s) v
main_step-IsServing lib found r command_closing s v =
    IsServing-core s _ (disconnect_command-core s) v
main_step-IsServing lib found r data_closing s v = IsServing-core s _ (disconnect_data-core s) v
main_step-IsServing lib found r finished s v = v
main_step-IsServing lib found r undefined s v = v

turned :
    (t : Threads) (b : Bool) (q : Main × TunnelServer)
    → IsServing t.server
    → IsServing q.1
    → IsServing (if b then t else record { server = q.1; main = q.0; reader = t.reader }).server
turned t true q v w = v
turned t false q v w = w

turn-IsServing :
    (lib : Libraries) (x : Turn) (t : Threads)
    → IsServing t.server
    → IsServing (turn lib x t).server
unfolding turn
turn-IsServing lib (reader_turn entropy packet) t v =
    IsServing-core t.server _ (reader_step-core lib entropy packet t.reader t.server) v
turn-IsServing lib (main_turn found) t v =
    turned t (ended t.reader) (main_step lib found t.reader t.main t.server) v
      (main_step-IsServing lib found t.reader t.main t.server v)

Reach-IsServing :
    {lib : Libraries} {s t : Threads} → IsServing s.server → Reach lib s t → IsServing t.server
Reach-IsServing v here = v
Reach-IsServing {lib} v (later x {t} r) = turn-IsServing lib x t (Reach-IsServing v r)

-- In every interleaving of the threads of a server with the lease invariant, two sessions with one
-- address that is not empty are the same session.
pub Reach-distinct_addresses :
    {lib : Libraries} {t : Threads} (s : TunnelServer) (buffer j k : Str) (c d : SessionConfig)
    → IsServing s
    → Reach lib (started s buffer) t
    → lookup j t.server.active_clients ≡ some c
    → lookup k t.server.active_clients ≡ some d
    → c.client_address ≡ d.client_address
    → c.client_address ≢ []
    → j ≡ k
Reach-distinct_addresses {lib} {t} s buffer j k c d v r hj hk same ne =
    distinct_addresses t.server j k c d (Reach-IsServing v r) hj hk same ne
