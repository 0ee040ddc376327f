-- ===== src/TunnelServer/Threads/Phases.antt =====
-- Where the two threads of src/TunnelServer.cpp can be together, and that each of their steps keeps to it.
use mqtt_tunnel.Base.{
  ℕ, Bool, true, false, ◌≡◌, ◌≢◌, refl, ap, ◌∙◌, Option, none, some, Result, ok, throw, fault,
  arith, if◌then◌else◌,
}
use mqtt_tunnel.Base.Text.{Str}
use mqtt_tunnel.Types.{SessionConfig}
use mqtt_tunnel.Libraries.{Libraries, Moment, data_channel}
use mqtt_tunnel.Libraries.Calls.{log, publish}
use mqtt_tunnel.TunnelServer.State.{TunnelServer, server_log}
use mqtt_tunnel.TunnelServer.Loop.{join_thread, disconnect_command, disconnect_data}
use mqtt_tunnel.TunnelServer.Threads.{
  Reader, testing, reading, looking, sealing, publishing, exited, crashed, looked_up, sealed,
  published_by, reader_step, Main, serving, leaving, joining, command_closing, data_closing,
  finished, undefined, served, loop_step, join_step, main_step, Threads, Turn, main_turn,
  reader_turn, turn, ended,
}
use mqtt_tunnel.Libraries.Observations.{publish-Keeps}
use mqtt_tunnel.TunnelServer.Observed.{handle_message-Keeps}
use mqtt_tunnel.TunnelServer.Threads.Flags.{flags, flags-Ignores}

-- What holds at each place of the main thread.
abbrev pub Phase : Main → Reader → Bool × Bool × Bool × Bool → Type 0
Phase serving r f = (f.0 ≡ true) × (f.1 ≡ true) × (f.3 ≡ true) × (r ≢ exited)
Phase leaving r f = (f.0 ≡ true) × (f.1 ≡ true) × (f.3 ≡ true) × (r ≢ exited)
Phase joining r f = (f.0 ≡ false) × (f.1 ≡ true) × (f.3 ≡ true)
Phase command_closing r f = (f.0 ≡ false) × (f.1 ≡ false) × (f.3 ≡ true) × (r ≡ exited)
Phase data_closing r f = (f.0 ≡ false) × (f.1 ≡ false) × (f.3 ≡ true) × (f.2 ≡ false) × (r ≡ exited)
Phase finished r f = (f.0 ≡ false) × (f.1 ≡ false) × (f.2 ≡ false) × (f.3 ≡ false) × (r ≡ exited)
Phase undefined r f = Unit

abbrev pub InPhase : Threads → Type 0
InPhase t = Phase t.main t.reader (flags t.server)

-- The TUN thread leaves the flags alone.
published_by-flags :
    (buffer : Str) (s : TunnelServer) (r : Result (Unit {0}) × TunnelServer)
    → flags r.1 ≡ flags s
    → flags (published_by buffer r).1 ≡ flags s
unfolding published_by
published_by-flags buffer s (ok _, t) e = e
published_by-flags buffer s (throw x, t) e = e
published_by-flags buffer s (fault, t) e = e

pub reader_step-flags :
    (lib : Libraries) (entropy : ℕ) (packet : Option Str) (r : Reader) (s : TunnelServer)
    → flags (reader_step lib entropy packet r s).1 ≡ flags s
unfolding reader_step
reader_step-flags lib entropy packet (testing buffer) s = refl
reader_step-flags lib entropy none (reading buffer) s = refl
reader_step-flags lib entropy (some p) (reading buffer) s = refl
reader_step-flags lib entropy packet (looking buffer p) s = refl
reader_step-flags lib entropy packet (sealing buffer p c) s = refl
reader_step-flags lib entropy packet (publishing buffer topic payload) s =
    published_by-flags buffer s (publish lib data_channel topic payload 0 s)
      ((publish-Keeps flags-Ignores.logs lib data_channel topic payload 0).kept s)
reader_step-flags lib entropy packet exited s = refl
reader_step-flags lib entropy packet crashed s = refl

looked_up-ne : (buffer p : Str) (r : Bool × SessionConfig) → looked_up buffer p r ≢ exited
unfolding looked_up
looked_up-ne buffer p (true, c) e = cc
looked_up-ne buffer p (false, c) e = cc

sealed-ne :
    (buffer : Str) (c : SessionConfig) (r : Result (Option Str)) → sealed buffer c r ≢ exited
unfolding sealed
sealed-ne buffer c (ok (some p)) e = cc
sealed-ne buffer c (ok none) e = cc
sealed-ne buffer c (throw x) e = cc
sealed-ne buffer c fault e = cc

published_by-ne :
    (buffer : Str) (r : Result (Unit {0}) × TunnelServer) → (published_by buffer r).0 ≢ exited
unfolding published_by
published_by-ne buffer (ok _, t) e = cc
published_by-ne buffer (throw x, t) e = cc
published_by-ne buffer (fault, t) e = cc

-- While the flag is set the TUN thread stays in its loop.
reader_step-ne :
    (lib : Libraries) (entropy : ℕ) (packet : Option Str) (r : Reader) (s : TunnelServer)
    → s.tunnel_active ≡ true
    → r ≢ exited
    → (reader_step lib entropy packet r s).0 ≢ exited
unfolding reader_step
reader_step-ne lib entropy packet (testing buffer) s on n e = ground (arith, on)
reader_step-ne lib entropy none (reading buffer) s on n e = cc
reader_step-ne lib entropy (some p) (reading buffer) s on n e = cc
reader_step-ne lib entropy packet (looking buffer p) s on n e = looked_up-ne buffer p _ e
reader_step-ne lib entropy packet (sealing buffer p c) s on n e = sealed-ne buffer c _ e
reader_step-ne lib entropy packet (publishing buffer topic payload) s on n e =
    published_by-ne buffer _ e
reader_step-ne lib entropy packet exited s on n e = n refl
reader_step-ne lib entropy packet crashed s on n e = cc

pub reader_step-exited :
    (lib : Libraries) (entropy : ℕ) (packet : Option Str) (r : Reader) (s : TunnelServer)
    → r ≡ exited
    → (reader_step lib entropy packet r s).0 ≡ exited
unfolding reader_step
reader_step-exited lib entropy packet exited s e = refl
reader_step-exited lib entropy packet _ s e = cc

-- A phase with another reader, where the flags are the same.
Phase-reader :
    (m : Main) (q r : Reader) (f g : Bool × Bool × Bool × Bool)
    → g ≡ f
    → (f.0 ≡ true → r ≢ exited → q ≢ exited)
    → (r ≡ exited → q ≡ exited)
    → Phase m r f
    → Phase m q g
Phase-reader serving q r f g e stay done (a, b, c, n) =
    (ap (λ x. x.0) e ∙ a, ap (λ x. x.1) e ∙ b, ap (λ x. x.3) e ∙ c, stay a n)
Phase-reader leaving q r f g e stay done (a, b, c, n) =
    (ap (λ x. x.0) e ∙ a, ap (λ x. x.1) e ∙ b, ap (λ x. x.3) e ∙ c, stay a n)
Phase-reader joining q r f g e stay done (a, b, c) =
    (ap (λ x. x.0) e ∙ a, ap (λ x. x.1) e ∙ b, ap (λ x. x.3) e ∙ c)
Phase-reader command_closing q r f g e stay done (a, b, c, n) =
    (ap (λ x. x.0) e ∙ a, ap (λ x. x.1) e ∙ b, ap (λ x. x.3) e ∙ c, done n)
Phase-reader data_closing q r f g e stay done (a, b, c, d, n) =
    (ap (λ x. x.0) e ∙ a, ap (λ x. x.1) e ∙ b, ap (λ x. x.3) e ∙ c, ap (λ x. x.2) e ∙ d, done n)
Phase-reader finished q r f g e stay done (a, b, c, d, n) =
    (ap (λ x. x.0) e ∙ a, ap (λ x. x.1) e ∙ b, ap (λ x. x.2) e ∙ c, ap (λ x. x.3) e ∙ d, done n)
Phase-reader undefined q r f g e stay done h = tt

served-Phase :
    (r : Reader) (s : TunnelServer) (m : Result (Unit {0}) × TunnelServer)
    → flags m.1 ≡ flags s
    → Phase serving r (flags s)
    → Phase (served m).0 r (flags (served m).1)
unfolding served
served-Phase r s (ok _, t) e p =
    Phase-reader serving r r (flags s) (flags t) e (λ _ n. n) (λ h. h) p
served-Phase r s (throw x, t) e p =
    Phase-reader leaving r r (flags s) (flags t) e (λ _ n. n) (λ h. h) p
served-Phase r s (fault, t) e p = tt

main_step-Phase :
    (lib : Libraries) (found : Option (Moment × Str)) (m : Main) (r : Reader) (s : TunnelServer)
    → Phase m r (flags s)
    → Phase (main_step lib found r m s).0 r (flags (main_step lib found r m s).1)
unfolding main_step loop_step join_step join_thread disconnect_command disconnect_data log
main_step-Phase lib none serving r s p = p
main_step-Phase lib (some (at, payload)) serving r s p =
    served-Phase r s _ ((handle_message-Keeps flags-Ignores lib at payload).kept s) p
main_step-Phase lib found leaving r s (a, b, c, n) = (refl, b, c)
main_step-Phase lib found joining exited s (a, b, c) = ground (arith, a, b, c)
main_step-Phase lib found joining _ s p = p
main_step-Phase lib found command_closing r s (a, b, c, e) = ground (arith, a, b, c, e)
main_step-Phase lib found data_closing r s (a, b, c, d, e) = ground (arith, a, b, c, d, e)
main_step-Phase lib found finished r s p = p
main_step-Phase lib found undefined r s p = tt

turned-InPhase :
    (t : Threads) (b : Bool) (q : Main × TunnelServer)
    → InPhase t
    → Phase q.0 t.reader (flags q.1)
    → InPhase (if b then t else record { server = q.1; main = q.0; reader = t.reader })
turned-InPhase t true q p w = p
turned-InPhase t false q p w = w

pub turn-InPhase : (lib : Libraries) (x : Turn) (t : Threads) → InPhase t → InPhase (turn lib x t)
unfolding turn
turn-InPhase lib (reader_turn entropy packet) t p =
    Phase-reader t.main (reader_step lib entropy packet t.reader t.server).0 t.reader
      (flags t.server) _ (reader_step-flags lib entropy packet t.reader t.server)
      (reader_step-ne lib entropy packet t.reader t.server)
      (reader_step-exited lib entropy packet t.reader t.server) p
turn-InPhase lib (main_turn found) t p =
    turned-InPhase t (ended t.reader) (main_step lib found t.reader t.main t.server) p
      (main_step-Phase lib found t.main t.reader t.server p)
