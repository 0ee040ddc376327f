-- ===== src/TunnelServer/Threads/Distance.antt =====
-- How far each of the two threads of src/TunnelServer.cpp has to go once the flag of the TUN thread is
-- cleared, and that each of its steps brings it nearer.
use mqtt_tunnel.Base.{
  ℕ, suc, ◌-◌, ◌≤◌, Bool, true, false, ◌≡◌, refl, Option, none, some, List, [], ◌∷◌, Result, ok,
  throw, fault, arith,
}
use mqtt_tunnel.Base.Text.{Str}
use mqtt_tunnel.Types.{SessionConfig}
use mqtt_tunnel.Libraries.{Libraries, Moment}
use mqtt_tunnel.Libraries.Calls.{log}
use mqtt_tunnel.TunnelServer.State.{TunnelServer, server_log}
use mqtt_tunnel.TunnelServer.Loop.{join_thread, disconnect_command, disconnect_data}
use mqtt_tunnel.TunnelServer.Threads.{
  Reader, testing, reading, looking, sealing, publishing, exited, crashed, looked_up, sealed,
  published_by, reader_step, Main, serving, leaving, joining, command_closing, data_closing,
  finished, undefined, join_step, main_step, Threads, Turn, main_turn, reader_turn,
}

-- How many steps the TUN thread has before it at most, once the flag is cleared.
abbrev pub steps_left : Reader → ℕ
steps_left (testing b) = 1
steps_left (publishing b t p) = 2
steps_left (sealing b p c) = 3
steps_left (looking b p) = 4
steps_left (reading b) = 5
steps_left exited = 0
steps_left crashed = 0

looked_up-le : (b p : Str) (r : Bool × SessionConfig) → steps_left (looked_up b p r) ≤ 3
unfolding looked_up
looked_up-le b p (true, c) = omega arith
looked_up-le b p (false, c) = omega arith

sealed-le : (b : Str) (c : SessionConfig) (r : Result (Option Str)) → steps_left (sealed b c r) ≤ 2
unfolding sealed
sealed-le b c (ok (some p)) = omega arith
sealed-le b c (ok none) = omega arith
sealed-le b c (throw x) = omega arith
sealed-le b c fault = omega arith

published_by-le :
    (b : Str) (r : Result (Unit {0}) × TunnelServer) → steps_left (published_by b r).0 ≤ 1
unfolding published_by
published_by-le b (ok _, t) = omega arith
published_by-le b (throw x, t) = omega arith
published_by-le b (fault, t) = omega arith

pub reader_step-le :
    (lib : Libraries) (entropy : ℕ) (packet : Option Str) (r : Reader) (s : TunnelServer)
    → s.tunnel_active ≡ false
    → steps_left (reader_step lib entropy packet r s).0 ≤ steps_left r - 1
unfolding reader_step
reader_step-le lib entropy packet (testing b) s off = rw off (omega arith)
reader_step-le lib entropy none (reading b) s off = omega arith
reader_step-le lib entropy (some p) (reading b) s off = omega arith
reader_step-le lib entropy packet (looking b p) s off = looked_up-le b p _
reader_step-le lib entropy packet (sealing b p c) s off = sealed-le b c _
reader_step-le lib entropy packet (publishing b t p) s off = published_by-le b _
reader_step-le lib entropy packet exited s off = omega arith
reader_step-le lib entropy packet crashed s off = omega arith

abbrev pub main_left : Main → ℕ
main_left joining = 3
main_left command_closing = 2
main_left data_closing = 1
main_left _ = 0

-- The turns of each thread in a schedule.
abbrev pub reader_turns : List Turn → ℕ
reader_turns [] = 0
reader_turns (reader_turn e p ∷ turns) = suc (reader_turns turns)
reader_turns (main_turn f ∷ turns) = reader_turns turns

abbrev pub main_turns : List Turn → ℕ
main_turns [] = 0
main_turns (reader_turn e p ∷ turns) = main_turns turns
main_turns (main_turn f ∷ turns) = suc (main_turns turns)

abbrev pub AfterClear : Main → Type 0
AfterClear joining = Unit
AfterClear command_closing = Unit
AfterClear data_closing = Unit
AfterClear finished = Unit
AfterClear _ = ⊥

pub record IsStopping (t : Threads) : Type 0 where
  pub cleared : t.server.tunnel_active ≡ false
  pub place : AfterClear t.main

-- A step of the main thread after the flag was cleared.
pub record Stops (r : Reader) (m : Main) (s : TunnelServer) (q : Main × TunnelServer) : Type 0 where
  pub still : q.1.tunnel_active ≡ s.tunnel_active
  pub place : AfterClear q.0
  pub falls : main_left q.0 ≤ main_left m
  pub nearer : r ≡ exited → main_left q.0 ≤ main_left m - 1

pub main_step-Stops :
    (lib : Libraries) (found : Option (Moment × Str)) (m : Main) (r : Reader) (s : TunnelServer)
    → AfterClear m
    → Stops r m s (main_step lib found r m s)
unfolding main_step join_step join_thread disconnect_command disconnect_data log
main_step-Stops lib found serving r s h = elim h [ ]
main_step-Stops lib found leaving r s h = elim h [ ]
main_step-Stops lib found undefined r s h = elim h [ ]
main_step-Stops lib found joining exited s h = record {
  still = ground arith;
  place = tt;
  falls = omega arith;
  nearer = λ e. omega arith;
}
main_step-Stops lib found joining _ s h = record {
  still = refl;
  place = tt;
  falls = omega arith;
  nearer = λ e. cc;
}
main_step-Stops lib found command_closing r s h = record {
  still = ground arith;
  place = tt;
  falls = omega arith;
  nearer = λ e. omega arith;
}
main_step-Stops lib found data_closing r s h = record {
  still = ground arith;
  place = tt;
  falls = omega arith;
  nearer = λ e. omega arith;
}
main_step-Stops lib found finished r s h = record {
  still = refl;
  place = tt;
  falls = omega arith;
  nearer = λ e. omega arith;
}
