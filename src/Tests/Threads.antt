-- ===== src/Tests/Threads.antt =====
-- Schedules of the server's two threads, and the objects that the program starts with.
use mqtt_tunnel.Base.{
  ◌≡◌, ◌≢◌, ◌⊎◌, ◌↔◌, refl, false, none, some, List, [], ◌∷◌, ◌++◌, replicate, arith,
}
use mqtt_tunnel.Base.Text.{Str, codes, str_eq}
use mqtt_tunnel.Base.Dict.{lookup}
use mqtt_tunnel.Libraries.Calls.{log}
use mqtt_tunnel.TunnelServer.Loop.{join_thread, disconnect_command, disconnect_data}
use mqtt_tunnel.TunnelServer.Threads.{
  reading, exited, crashed, joining, finished, Threads, Turn, main_turn, reader_turn, turn, Reach,
  here, later, run, started, main_step, reader_step, loop_step, join_step,
}
use mqtt_tunnel.TunnelServer.Threads.Shutdown.{Reach-closed_last}
use mqtt_tunnel.TunnelServer.Threads.Progress.{run-finished}
use mqtt_tunnel.TunnelServer.Threads.Rounds.{Reach-distinct_addresses}
use mqtt_tunnel.MqttChannels as MqttChannels
use mqtt_tunnel.MqttChannels.Ids.{Apart, create-Apart_iff}
use mqtt_tunnel.Tests.Server.{served-IsServing}
use mqtt_tunnel.Fixtures.{lib, serving_server, session}

abbrev buffer : Str
buffer = replicate 32 0

abbrev started_threads : Threads
started_threads = started serving_server buffer

-- The loop is left, the flag cleared, the TUN thread leaves its loop and is joined, and both clients are
-- disconnected.
abbrev closing : List Turn
closing =
    main_turn none
    ∷ main_turn none
    ∷ reader_turn 7 none
    ∷ main_turn none
    ∷ main_turn none
    ∷ main_turn none
    ∷ []

reached :
    {s : Threads} (turns : List Turn) (t : Threads) → Reach lib s t → Reach lib s (run lib turns t)
unfolding run
reached [] t r = r
reached (x ∷ turns) t r = reached turns (turn lib x t) (later x r)

Reach-closed_last_example :
    ((run lib closing started_threads).reader ≡ exited)
    × ((run lib closing started_threads).main ≡ finished)
unfolding run main_step reader_step loop_step join_step join_thread disconnect_command
    disconnect_data log
Reach-closed_last_example =
    Reach-closed_last serving_server buffer
      (record { active = refl; running = refl; connected = refl })
      (reached closing started_threads here) (λ e. cc) refl

abbrev waiting : Threads
waiting = record {
  server = record serving_server { tunnel_active = false };
  main = joining;
  reader = reading buffer;
}

abbrev reads : List Turn
reads =
    reader_turn 7 (some (codes "packet"))
    ∷ main_turn none
    ∷ reader_turn 7 none
    ∷ reader_turn 7 none
    ∷ reader_turn 7 none
    ∷ reader_turn 7 none
    ∷ []

abbrev closes : List Turn
closes = main_turn none ∷ main_turn none ∷ main_turn none ∷ []

run-finished_example :
    ((run lib (reads ++ closes) waiting).main ≡ finished)
    ⊎ ((run lib (reads ++ closes) waiting).reader ≡ crashed)
run-finished_example = run-finished lib reads closes waiting refl refl (omega arith) (omega arith)

Reach-distinct_addresses_example : codes "a" ≡ codes "a"
unfolding lookup str_eq turn
Reach-distinct_addresses_example =
    Reach-distinct_addresses {lib = lib} serving_server buffer (codes "a") (codes "a") session
      session served-IsServing (later (reader_turn 7 none) here) refl refl refl (λ e. cc)

create-Apart_iff_example :
    Apart
      (MqttChannels.create (codes "broker") (codes "ch"))
      (MqttChannels.create (codes "broker") (codes "a"))
    ↔ (codes "ch" ≢ codes "a")
create-Apart_iff_example =
    create-Apart_iff (codes "broker") (codes "broker") (codes "ch") (codes "a")
