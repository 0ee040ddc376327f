-- ===== src/Main/ServerThread.antt =====
-- The thread of src/TunnelServer.cpp in the log of a run of `start_server` and the destructor.
use mqtt_tunnel.MqttChannels.{set_tun_callback}
use mqtt_tunnel.Base.{
  Bool, true, false, ◌≡◌, refl, ap, ◌∙◌, Option, none, some, List, [], ◌∷◌, ◌++◌, if◌then◌else◌,
  Result, fault,
}
use mqtt_tunnel.Base.Text.{Str}
use mqtt_tunnel.Base.State.{◌>>=◌, modify}
use mqtt_tunnel.Base.Leads.{Leads, then-Leads, Post-always}
use mqtt_tunnel.Libraries.{
  Libraries, Moment, Effect, thread_started, thread_joined, callback_set, command, data_channel,
  disconnected,
}
use mqtt_tunnel.Libraries.Calls.{log}
use mqtt_tunnel.Libraries.Observations.{
  Keeps, is_quiet, then-Keeps, bind-Keeps, get-Keeps, modify-Keeps, self-Keeps, run_command-Keeps,
  connect-Keeps, subscribe-Keeps,
}
use mqtt_tunnel.TunnelServer.State.{TunnelServer, server_log}
use mqtt_tunnel.TunnelServer.Loop.{
  set_up, serve, run_loop, start_server, stop_server, join_thread, disconnect_command,
  disconnect_data, connect_command_channel, connect_data_channel, attach_callback,
}
use mqtt_tunnel.TunnelServer.Observed.{Ignores, handle_message-Keeps}
use mqtt_tunnel.Main.ThreadLog.{
  thread_after, thread_after-quiet, thread_after-started, thread_after-joined, Idle, Sound,
  Idle-Sound, Keeps-Leads,
}

abbrev pub thread_of : TunnelServer → Bool × Option Bool
thread_of s = (s.thread_running, thread_after s.effects)

thread_of-log :
    (e : Effect) (s : TunnelServer) → is_quiet e ≡ true → thread_of (log e s) ≡ thread_of s
unfolding log
thread_of-log e s q = ap (λ b. (s.thread_running, b)) (thread_after-quiet s.effects e q)

thread_of-Ignores : Ignores thread_of
thread_of-Ignores = record {
  logs = thread_of-log;
  crypto = λ m s. refl;
  pool = λ p s. refl;
  clients = λ m s. refl;
  handshakes = λ m s. refl;
}

serve-Keeps :
    (lib : Libraries) (rounds : List (Moment × Option Str)) → Keeps thread_of (serve lib rounds)
unfolding serve ◌>>=◌
serve-Keeps lib [] = record { kept = λ s. refl }
serve-Keeps lib ((at, none) ∷ rounds) = record { kept = (serve-Keeps lib rounds).kept }
serve-Keeps lib ((at, some payload) ∷ rounds) =
    then-Keeps (handle_message-Keeps thread_of-Ignores lib at payload) (serve-Keeps lib rounds)

-- One of two objects.
either :
    (b : Bool) (s t : TunnelServer) (v : Bool × Option Bool)
    → thread_of s ≡ v
    → thread_of t ≡ v
    → thread_of (if b then s else t) ≡ v
either true s t v e f = e
either false s t v e f = f

run_loop-Keeps :
    (lib : Libraries) (rounds : List (Moment × Option Str)) → Keeps thread_of (run_loop lib rounds)
unfolding run_loop
run_loop-Keeps lib rounds = self-Keeps _ (λ s. chosen s.global_run_flag)
  where
    chosen : (b : Bool) → Keeps thread_of (λ s. if b then serve lib rounds s else (fault, s))
    chosen true = record { kept = (serve-Keeps lib rounds).kept }
    chosen false = record { kept = λ s. refl }

connect_command-Keeps : (lib : Libraries) → Keeps thread_of (connect_command_channel lib)
unfolding connect_command_channel
connect_command-Keeps lib = then-Keeps (connect-Keeps thread_of-log lib command) (
    bind-Keeps (get-Keeps _) (λ topic.
      then-Keeps (subscribe-Keeps thread_of-log lib command topic 1) (modify-Keeps _ (λ s. refl))))

connect_data-Keeps : (lib : Libraries) → Keeps thread_of (connect_data_channel lib)
unfolding connect_data_channel
connect_data-Keeps lib =
    then-Keeps (connect-Keeps thread_of-log lib data_channel) (modify-Keeps _ (λ s. refl))

attach-Keeps : Keeps thread_of (modify attach_callback)
unfolding attach_callback
attach-Keeps = modify-Keeps _ (λ s.
    thread_of-log callback_set
      (record s {
        mqtt_channels = set_tun_callback s.tun_device.tun_fd s.encryption_enabled s.mqtt_channels;
      })
      refl)

-- A step of the set-up before the thread, and one after it.
abbrev IsIdle : TunnelServer → Type 0
IsIdle s = Idle (thread_of s)

abbrev IsSound : TunnelServer → Type 0
IsSound s = Sound (thread_of s)

before :
    {m : TunnelServer → Result (Unit {0}) × TunnelServer}
    → Keeps thread_of m
    → Leads IsIdle IsIdle IsSound m
before k = Keeps-Leads Idle Sound k Idle-Sound

after :
    {m : TunnelServer → Result (Unit {0}) × TunnelServer}
    → Keeps thread_of m
    → Leads IsSound IsSound IsSound m
after k = Keeps-Leads Sound Sound k (λ v h. h)

starts :
    Leads IsIdle IsSound IsSound
      (modify (λ s. log thread_started (record s { tunnel_active = true; thread_running = true })))
unfolding log
starts = record { leads = λ s i. thread_after-started s.effects (ap (λ v. v.1) i) }

set_up-Leads : (lib : Libraries) → Leads IsIdle IsSound IsSound (set_up lib)
unfolding set_up
set_up-Leads lib =
    let c = run_command-Keeps thread_of-log in
    then-Leads (before (modify-Keeps _ (λ s. refl))) (
      then-Leads (before (self-Keeps _ (λ s. c _))) (
        then-Leads (before (c _)) (
          then-Leads (before (c _)) (
            then-Leads (before (self-Keeps _ (λ s. c _))) (
              then-Leads (before (self-Keeps _ (λ s. c _))) (
                then-Leads (before (connect_command-Keeps lib)) (
                  then-Leads (before (connect_data-Keeps lib))
                    (then-Leads (before attach-Keeps) (then-Leads starts (after (c _)))))))))))

join_thread-IsIdle : (s : TunnelServer) → IsSound s → IsIdle (join_thread s)
unfolding join_thread log
join_thread-IsIdle s i = joined s.thread_running refl
  where
    joined :
        (b : Bool)
        → s.thread_running ≡ b
        → IsIdle (
            if b
            then record s { thread_running = false; effects = s.effects ++ thread_joined ∷ [] }
            else s)
    joined true e = ap (λ b. (false, b)) (thread_after-joined s.effects (i ∙ ap some e))
    joined false e = cc (i ∙ ap some e)

thread_of-disconnect_command : (s : TunnelServer) → thread_of (disconnect_command s) ≡ thread_of s
unfolding disconnect_command
thread_of-disconnect_command s =
    either s.command_channel_connected _ s (thread_of s)
      (thread_of-log (disconnected command) s refl) refl

thread_of-disconnect_data : (s : TunnelServer) → thread_of (disconnect_data s) ≡ thread_of s
unfolding disconnect_data
thread_of-disconnect_data s =
    either s.data_channel_connected _ s (thread_of s)
      (thread_of-log (disconnected data_channel) s refl) refl

-- The shutdown joins the thread, if there is one.
pub stop_server-IsIdle : (s : TunnelServer) → Sound (thread_of s) → Idle (thread_of (stop_server s))
unfolding stop_server
stop_server-IsIdle s i =
    let joined = join_thread (record s { tunnel_active = false }) in
    thread_of-disconnect_data (disconnect_command joined)
    ∙ thread_of-disconnect_command joined
    ∙ join_thread-IsIdle (record s { tunnel_active = false }) i

-- However `start_server` ends, the log agrees with the member.
pub start_server-IsSound :
    (lib : Libraries) (rounds : List (Moment × Option Str)) (s : TunnelServer)
    → Idle (thread_of s)
    → Sound (thread_of (start_server lib rounds s).1)
unfolding start_server
start_server-IsSound lib rounds s i = Post-always IsSound _ (
    (then-Leads (set_up-Leads lib) (
        then-Leads (after (run_loop-Keeps lib rounds)) (record {
          leads = λ t h. Idle-Sound (thread_of (stop_server t)) (stop_server-IsIdle t h);
        }))).leads
      s i)
