-- ===== src/TunnelServer/Threads.antt =====
-- The two threads of src/TunnelServer.cpp over one server: the main thread in the loop of
-- `start_server` and then in `stop_server`, and the TUN thread in `async_tun_read`. A step of the main
-- thread is a message or one statement of the shutdown, a step of the TUN thread one statement of its
-- loop. A message is one step, since what it shares with the TUN thread (the sessions behind their
-- mutex, and the keys) it writes at most once.
pub mod Flags
pub mod Phases
pub mod Shutdown
pub mod Distance
pub mod Progress
pub mod Rounds
use mqtt_tunnel.Base.{
  ℕ, Bool, true, false, Option, none, some, List, [], ◌∷◌, if◌then◌else◌, Result, ok, throw, fault,
}
use mqtt_tunnel.Base.Text.{Str}
use mqtt_tunnel.Types.{SessionConfig, empty_config}
use mqtt_tunnel.Helpers.{ip_to_string}
use mqtt_tunnel.SessionMap.{get_session_by_ip}
use mqtt_tunnel.Libraries.{Libraries, Moment, data_channel}
use mqtt_tunnel.Libraries.Calls.{publish}
use mqtt_tunnel.TunnelServer.State.{TunnelServer, server_log}
use mqtt_tunnel.TunnelServer.Loop.{handle_message, join_thread, disconnect_command, disconnect_data}
use mqtt_tunnel.TunnelServer.TunRead.{overwrite, daddr, payload_for}

-- Where the TUN thread is, with its buffer: at the test of the loop, at `read`, at the lookup of a
-- packet, at the encryption for a session, at `publish`, behind the loop, or ended by an exception that
-- nothing catches, which ends the program.
pub data Reader : Type 0 where
  testing : Str → Reader
  reading : Str → Reader
  looking : Str → Str → Reader
  sealing : Str → Str → SessionConfig → Reader
  publishing : Str → Str → Str → Reader
  exited : Reader
  crashed : Reader

unfoldable pub looked_up : Str → Str → Bool × SessionConfig → Reader
looked_up buffer packet (true, session) = sealing buffer packet session
looked_up buffer packet (false, _) = testing buffer

unfoldable pub sealed : Str → SessionConfig → Result (Option Str) → Reader
sealed buffer session (ok (some payload)) = publishing buffer session.topic_inbound payload
sealed buffer session (ok none) = testing buffer
sealed buffer session (throw e) = crashed
sealed buffer session fault = crashed

unfoldable pub published_by : Str → Result (Unit {0}) × TunnelServer → Reader × TunnelServer
published_by buffer (ok _, s) = (testing buffer, s)
published_by buffer (throw e, s) = (crashed, s)
published_by buffer (fault, s) = (crashed, s)

-- A step of the TUN thread: `packet` is what `read` finds, `none` for an error or nothing there.
unfoldable pub reader_step :
    Libraries → ℕ → Option Str → Reader → TunnelServer → Reader × TunnelServer
unfolding looked_up sealed published_by payload_for publish
reader_step lib entropy packet (testing buffer) s =
    (if s.tunnel_active then reading buffer else exited, s)
reader_step lib entropy none (reading buffer) s = (testing buffer, s)
reader_step lib entropy (some packet) (reading buffer) s =
    (looking (overwrite buffer packet) packet, s)
reader_step lib entropy _ (looking buffer packet) s = (
  looked_up buffer packet
      (get_session_by_ip s.active_clients (ip_to_string lib.helpers (daddr buffer)) empty_config),
  s,
)
reader_step lib entropy _ (sealing buffer packet session) s =
    (sealed buffer session (payload_for lib entropy packet session s), s)
reader_step lib entropy _ (publishing buffer topic payload) s =
    published_by buffer (publish lib data_channel topic payload 0 s)
reader_step lib entropy _ exited s = (exited, s)
reader_step lib entropy _ crashed s = (crashed, s)

-- Where the main thread is: in the loop, before the statements of `stop_server` (clear the flag, join,
-- disconnect the one and the other client), behind it, or in undefined behaviour.
pub data Main : Type 0 where
  serving leaving joining command_closing data_closing finished undefined : Main

unfoldable pub served : Result (Unit {0}) × TunnelServer → Main × TunnelServer
served (ok _, s) = (serving, s)
served (throw e, s) = (leaving, s)
served (fault, s) = (undefined, s)

-- What a round of the loop finds: a message, or a cleared run flag.
unfoldable pub loop_step : Libraries → Option (Moment × Str) → TunnelServer → Main × TunnelServer
unfolding served handle_message
loop_step lib none s = (leaving, s)
loop_step lib (some (at, payload)) s = served (handle_message lib at payload s)

-- `join` waits until the TUN thread has ended.
unfoldable pub join_step : Reader → TunnelServer → Main × TunnelServer
unfolding join_thread
join_step exited s = (command_closing, join_thread s)
join_step _ s = (joining, s)

-- A step of the main thread. An exception leaves the loop too: the destructor then stops the server.
unfoldable pub main_step :
    Libraries → Option (Moment × Str) → Reader → Main → TunnelServer → Main × TunnelServer
unfolding loop_step join_step disconnect_command disconnect_data
main_step lib found reader serving s = loop_step lib found s
main_step lib found reader leaving s = (joining, record s { tunnel_active = false })
main_step lib found reader joining s = join_step reader s
main_step lib found reader command_closing s = (data_closing, disconnect_command s)
main_step lib found reader data_closing s = (finished, disconnect_data s)
main_step lib found reader finished s = (finished, s)
main_step lib found reader undefined s = (undefined, s)

pub record Threads : Type 0 where
  pub server : TunnelServer
  pub main : Main
  pub reader : Reader

-- Whose turn it is, with what it finds.
pub data Turn : Type 0 where
  main_turn : Option (Moment × Str) → Turn
  reader_turn : ℕ → Option Str → Turn

abbrev pub ended : Reader → Bool
ended crashed = true
ended _ = false

unfoldable pub turn : Libraries → Turn → Threads → Threads
unfolding main_step reader_step
turn lib (main_turn found) t =
    if ended t.reader
    then t
    else let (main, s) = main_step lib found t.reader t.main t.server in
      record { server = s; main = main; reader = t.reader }
turn lib (reader_turn entropy packet) t =
    let (reader, s) = reader_step lib entropy packet t.reader t.server in
    record { server = s; main = t.main; reader = reader }

pub data Reach (lib : Libraries) (s : Threads) : Threads → Type 0 where
  here : Reach lib s s
  later : (x : Turn) {t : Threads} → Reach lib s t → Reach lib s (turn lib x t)

-- A schedule is run turn by turn.
unfoldable pub run : Libraries → List Turn → Threads → Threads
unfolding turn
run lib [] t = t
run lib (x ∷ turns) t = run lib turns (turn lib x t)

-- The threads when `start_server` enters its loop.
abbrev pub started : TunnelServer → Str → Threads
started s buffer = record { server = s; main = serving; reader = testing buffer }
