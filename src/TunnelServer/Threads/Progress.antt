-- ===== src/TunnelServer/Threads/Progress.antt =====
-- The shutdown of src/TunnelServer.cpp comes to an end: schedules after the flag of the TUN thread was
-- cleared.
use mqtt_tunnel.Base.{
  ℕ, ◌+◌, ◌-◌, ◌≤◌, Bool, true, false, ◌≡◌, ◌⊎◌, inl, inr, refl, ap, ◌∙◌, Option, List, [], ◌∷◌,
  ◌++◌, arith, if◌then◌else◌,
}
use mqtt_tunnel.Base.Text.{Str}
use mqtt_tunnel.Libraries.{Libraries, Moment}
use mqtt_tunnel.TunnelServer.State.{TunnelServer, server_log}
use mqtt_tunnel.TunnelServer.Threads.{
  Reader, exited, crashed, reader_step, Main, serving, leaving, joining, command_closing,
  data_closing, finished, undefined, main_step, Threads, Turn, main_turn, reader_turn, turn, run,
  ended,
}
use mqtt_tunnel.TunnelServer.Threads.Phases.{reader_step-flags, reader_step-exited}
use mqtt_tunnel.TunnelServer.Threads.Distance.{
  steps_left, reader_step-le, main_left, reader_turns, main_turns, AfterClear, IsStopping, Stops,
  main_step-Stops,
}

-- A turn after the flag was cleared, with what it leaves of the steps of the thread that has it.
record Falls (t u : Threads) (by_reader by_main : ℕ) : Type 0 where
  stopping : IsStopping u
  reader_left : steps_left u.reader ≤ steps_left t.reader - by_reader
  main_falls :
      t.reader ≡ exited → (u.reader ≡ exited) × (main_left u.main ≤ main_left t.main - by_main)
  still_crashed : t.reader ≡ crashed → u.reader ≡ crashed

turned-Falls :
    (t : Threads) (b : Bool) (q : Main × TunnelServer)
    → ended t.reader ≡ b
    → IsStopping t
    → Stops t.reader t.main t.server q
    → Falls t (if b then t else record { server = q.1; main = q.0; reader = t.reader }) 0 1
turned-Falls t true q e s w = record {
  stopping = s;
  reader_left = omega arith;
  main_falls = λ h. cc (ap ended h);
  still_crashed = λ h. h;
}
turned-Falls t false q e s w = record {
  stopping = record { cleared = w.still ∙ s.cleared; place = w.place };
  reader_left = omega arith;
  main_falls = λ h. (h, w.nearer h);
  still_crashed = λ h. h;
}

main_turn-Falls :
    (lib : Libraries) (found : Option (Moment × Str)) (t : Threads)
    → IsStopping t
    → Falls t (turn lib (main_turn found) t) 0 1
unfolding turn
main_turn-Falls lib found t s =
    turned-Falls t (ended t.reader) (main_step lib found t.reader t.main t.server) refl s
      (main_step-Stops lib found t.main t.reader t.server s.place)

crashed_stays :
    (lib : Libraries) (entropy : ℕ) (packet : Option Str) (r : Reader) (s : TunnelServer)
    → r ≡ crashed
    → (reader_step lib entropy packet r s).0 ≡ crashed
unfolding reader_step
crashed_stays lib entropy packet crashed s e = refl
crashed_stays lib entropy packet _ s e = cc

reader_turn-Falls :
    (lib : Libraries) (entropy : ℕ) (packet : Option Str) (t : Threads)
    → IsStopping t
    → Falls t (turn lib (reader_turn entropy packet) t) 1 0
unfolding turn
reader_turn-Falls lib entropy packet t s = record {
  stopping = record {
    cleared = ap (λ f. f.0) (reader_step-flags lib entropy packet t.reader t.server) ∙ s.cleared;
    place = s.place;
  };
  reader_left = reader_step-le lib entropy packet t.reader t.server s.cleared;
  main_falls = λ e. (reader_step-exited lib entropy packet t.reader t.server e, omega arith);
  still_crashed = crashed_stays lib entropy packet t.reader t.server;
}

Falls-trans :
    {t u v : Threads} (a b c d n m : ℕ)
    → n ≡ a + c
    → m ≡ b + d
    → Falls t u a b
    → Falls u v c d
    → Falls t v n m
Falls-trans a b c d n m p q f g = record {
  stopping = g.stopping;
  reader_left = omega (arith, f.reader_left, g.reader_left);
  main_falls = λ e.
      let (at, low) = f.main_falls e in
      let (at', low') = g.main_falls at in (at', omega (arith, low, low'));
  still_crashed = λ e. g.still_crashed (f.still_crashed e);
}

-- A schedule after the flag was cleared.
run-Falls :
    (lib : Libraries) (turns : List Turn) (t : Threads)
    → IsStopping t
    → Falls t (run lib turns t) (reader_turns turns) (main_turns turns)
unfolding run
run-Falls lib [] t s = record {
  stopping = s;
  reader_left = omega arith;
  main_falls = λ e. (e, omega arith);
  still_crashed = λ e. e;
}
run-Falls lib (main_turn found ∷ turns) t s =
    let f = main_turn-Falls lib found t s in
    Falls-trans 0 1 (reader_turns turns) (main_turns turns) _ _ (omega arith) (omega arith) f
      (run-Falls lib turns _ f.stopping)
run-Falls lib (reader_turn entropy packet ∷ turns) t s =
    let f = reader_turn-Falls lib entropy packet t s in
    Falls-trans 1 0 (reader_turns turns) (main_turns turns) _ _ (omega arith) (omega arith) f
      (run-Falls lib turns _ f.stopping)

run-append :
    (lib : Libraries) (a b : List Turn) (t : Threads) → run lib (a ++ b) t ≡ run lib b (run lib a t)
unfolding run
run-append lib [] b t = refl
run-append lib (x ∷ a) b t = run-append lib a b (turn lib x t)

no_steps_left : (r : Reader) → steps_left r ≡ 0 → (r ≡ exited) ⊎ (r ≡ crashed)
no_steps_left exited e = inl refl
no_steps_left crashed e = inr refl
no_steps_left _ e = absurd (omega arith)

nothing_left : (m : Main) → AfterClear m → main_left m ≡ 0 → m ≡ finished
nothing_left finished h e = refl
nothing_left joining h e = absurd (omega arith)
nothing_left command_closing h e = absurd (omega arith)
nothing_left data_closing h e = absurd (omega arith)
nothing_left serving h e = elim h [ ]
nothing_left leaving h e = elim h [ ]
nothing_left undefined h e = elim h [ ]

-- Once `stop_server` has cleared the flag and waits for the TUN thread, the shutdown comes to its end:
-- wherever the TUN thread is and whatever it still reads, after a schedule with five turns of the TUN
-- thread and then one with three turns of the main thread the main thread is behind `stop_server`,
-- unless an exception of `publish` has ended the program.
pub run-finished :
    (lib : Libraries) (a b : List Turn) (t : Threads)
    → t.main ≡ joining
    → t.server.tunnel_active ≡ false
    → 5 ≤ reader_turns a
    → 3 ≤ main_turns b
    → ((run lib (a ++ b) t).main ≡ finished) ⊎ ((run lib (a ++ b) t).reader ≡ crashed)
run-finished lib a b t waits cleared more enough =
    rw (run-append lib a b t)
      (elim (no_steps_left (run lib a t).reader (omega (arith, first.reader_left, few t.reader))) [
        | inr e ↦ inr (second.still_crashed e)
        | inl e ↦ inl (
            nothing_left _ second.stopping.place
              (omega (arith, (second.main_falls e).1, few_main (run lib a t).main)))
      ])
  where
    few : (r : Reader) → steps_left r ≤ 5
    few r = ground arith

    few_main : (m : Main) → main_left m ≤ 3
    few_main m = ground arith

    first : Falls t (run lib a t) (reader_turns a) (main_turns a)
    first = run-Falls lib a t (record { cleared = cleared; place = rw waits tt })

    second : Falls (run lib a t) (run lib b (run lib a t)) (reader_turns b) (main_turns b)
    second = run-Falls lib b (run lib a t) first.stopping
