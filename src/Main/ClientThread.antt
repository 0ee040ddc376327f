-- ===== src/Main/ClientThread.antt =====
-- The thread of src/TunnelClient.cpp in the log of a run of `start_tunnel` and `stop_tunnel`.
use mqtt_tunnel.Base.{
  ℕ, Bool, true, false, ◌≡◌, refl, ap, ◌∙◌, Option, none, some, [], ◌∷◌, ◌++◌, if◌then◌else◌,
}
use mqtt_tunnel.Base.Text.{Str, codes}
use mqtt_tunnel.Base.State.{Method, ◌>>◌, modify}
use mqtt_tunnel.Base.Leads.{Leads, then-Leads, bind-Leads}
use mqtt_tunnel.CryptoManager.{FileSystem, CryptoManager}
use mqtt_tunnel.Messages.{ClientHello, ServerHello}
use mqtt_tunnel.Libraries.{
  Libraries, Effect, thread_started, thread_joined, callback_set, disconnected, command,
  data_channel,
}
use mqtt_tunnel.Libraries.Calls.{log}
use mqtt_tunnel.Libraries.Observations.{
  Keeps, is_quiet, then-Keeps, bind-Keeps, get-Keeps, call-Keeps, modify-Keeps, self-Keeps,
  run_command-Keeps, connect-Keeps, subscribe-Keeps, publish-Keeps,
}
use mqtt_tunnel.MqttChannels.{set_tun_callback}
use mqtt_tunnel.TunnelClient.State.{TunnelClient, Client, client_log, with_crypto, wait_for}
use mqtt_tunnel.TunnelClient.Session.{
  Draws, send, wrap_if, wrapped, unwrap_if, unwrapped, answer, exchange_keys, configure,
  own_address_command, route_command, greet_server, acknowledge_server, configure_device,
  setup_session,
}
use mqtt_tunnel.TunnelClient.Tunnel.{
  connect_command_channel, connect_data_channel, attach_callback, start_tunnel, join_thread,
  stop_tunnel,
}
use mqtt_tunnel.Main.ThreadLog.{
  thread_after, thread_after-quiet, thread_after-started, thread_after-joined, Idle, Sound,
  Keeps-Leads,
}

abbrev pub thread_of : TunnelClient → Bool × Option Bool
thread_of s = (s.thread_running, thread_after s.effects)

logs : (e : Effect) (s : TunnelClient) → is_quiet e ≡ true → thread_of (log e s) ≡ thread_of s
unfolding log
logs e s q = ap (λ b. (s.thread_running, b)) (thread_after-quiet s.effects e q)

crypto-Keeps : {A : Type 0} (f : Method CryptoManager A) → Keeps thread_of (with_crypto f)
unfolding with_crypto
crypto-Keeps f = record { kept = λ s. refl }

send-Keeps : (lib : Libraries) (payload : Str) → Keeps thread_of (send lib payload)
unfolding send
send-Keeps lib payload =
    self-Keeps _
      (λ s. publish-Keeps logs lib command (s.command_channel_name ++ codes "_RX") payload 1)

wrapped-Keeps :
    (lib : Libraries) (entropy : ℕ) (payload : Str) → Keeps thread_of (wrapped lib entropy payload)
unfolding wrapped wrap_if
wrapped-Keeps lib entropy payload = self-Keeps _ (λ s. by_flag s.encryption_enabled)
  where
    by_flag : (b : Bool) → Keeps thread_of (wrap_if lib entropy payload b)
    by_flag false = record { kept = λ s. refl }
    by_flag true =
        bind-Keeps (call-Keeps _)
          (λ packet. bind-Keeps (get-Keeps _) (λ id. record { kept = λ s. refl }))

unwrapped-Keeps : (lib : Libraries) (payload : Str) → Keeps thread_of (unwrapped lib payload)
unfolding unwrapped unwrap_if
unwrapped-Keeps lib payload = self-Keeps _ (λ s. by_flag s.encryption_enabled)
  where
    by_flag : (b : Bool) → Keeps thread_of (unwrap_if lib payload b)
    by_flag false = record { kept = λ s. refl }
    by_flag true = bind-Keeps (call-Keeps _) (λ wrapper. call-Keeps _)

answer-Keeps : (response : Option Str) → Keeps thread_of (answer response)
unfolding answer wait_for
answer-Keeps response = bind-Keeps (record { kept = λ s. refl }) (λ found. call-Keeps _)

exchange_keys-Keeps :
    (lib : Libraries) (draws : Draws) (fs : FileSystem) (b : Bool)
    → Keeps thread_of (exchange_keys lib draws fs b)
unfolding exchange_keys
exchange_keys-Keeps lib draws fs false = record { kept = λ s. refl }
exchange_keys-Keeps lib draws fs true = bind-Keeps (get-Keeps _) (λ id.
    bind-Keeps (crypto-Keeps _) (λ hello. then-Keeps (send-Keeps lib _) (
      bind-Keeps (answer-Keeps none) (λ response.
        bind-Keeps (call-Keeps _)
          (λ reply. then-Keeps (crypto-Keeps _) (modify-Keeps _ (λ s. refl)))))))

greet_server-Keeps :
    (lib : Libraries) (draws : Draws) (hello : ClientHello)
    → Keeps thread_of (greet_server lib draws hello)
unfolding greet_server configure
greet_server-Keeps lib draws hello = bind-Keeps (wrapped-Keeps lib _ _) (λ text.
    then-Keeps (send-Keeps lib text) (
      bind-Keeps (answer-Keeps none) (λ response.
        bind-Keeps (unwrapped-Keeps lib response) (λ payload.
          bind-Keeps (call-Keeps _)
            (λ reply. then-Keeps (modify-Keeps _ (λ s. refl)) (record { kept = λ s. refl }))))))

acknowledge_server-Keeps :
    (lib : Libraries) (draws : Draws) (hello : ClientHello) (response : Str) (reply : ServerHello)
    → Keeps thread_of (acknowledge_server lib draws hello response reply)
unfolding acknowledge_server
acknowledge_server-Keeps lib draws hello response reply = bind-Keeps (get-Keeps _) (λ id.
    bind-Keeps (wrapped-Keeps lib _ _) (λ text. then-Keeps (send-Keeps lib text) (
      bind-Keeps (answer-Keeps (some response)) (λ last.
        bind-Keeps (unwrapped-Keeps lib last)
          (λ payload. bind-Keeps (call-Keeps _) (λ ack. call-Keeps _))))))

configure_device-Keeps : Keeps thread_of configure_device
unfolding configure_device
configure_device-Keeps =
    let c = run_command-Keeps logs in
    then-Keeps (self-Keeps _ (λ s. c (own_address_command s.session_config))) (
      then-Keeps (c (codes "ip link set dev tun0 mtu 1400")) (
        then-Keeps (c (codes "ip link set tun0 up")) (
          then-Keeps (self-Keeps _ (λ s. c (route_command s.tunnel_mode s.session_config)))
            (modify-Keeps _ (λ s. refl)))))

setup_session-Keeps :
    (lib : Libraries) (draws : Draws) (fs : FileSystem)
    → Keeps thread_of (setup_session lib draws fs)
unfolding setup_session
setup_session-Keeps lib draws fs =
    then-Keeps (self-Keeps _ (λ s. exchange_keys-Keeps lib draws fs s.encryption_enabled)) (
      bind-Keeps (get-Keeps _) (λ hello. bind-Keeps (greet_server-Keeps lib draws hello) (λ greeted.
        then-Keeps (acknowledge_server-Keeps lib draws hello greeted.0 greeted.1)
          configure_device-Keeps)))

connect_command-Keeps : (lib : Libraries) → Keeps thread_of (connect_command_channel lib)
unfolding connect_command_channel
connect_command-Keeps lib =
    then-Keeps (connect-Keeps logs lib command)
      (bind-Keeps (get-Keeps _) (λ topic. subscribe-Keeps logs lib command topic 1))

connect_data-Keeps : (lib : Libraries) → Keeps thread_of (connect_data_channel lib)
unfolding connect_data_channel
connect_data-Keeps lib =
    then-Keeps (connect-Keeps logs lib data_channel)
      (bind-Keeps (get-Keeps _) (λ topic. subscribe-Keeps logs lib data_channel topic 1))

attach-Keeps : Keeps thread_of (modify attach_callback)
unfolding attach_callback
attach-Keeps = modify-Keeps _ (λ s.
    logs callback_set
      (record s {
        mqtt_channels = set_tun_callback s.tun_device.tun_fd s.encryption_enabled s.mqtt_channels;
      })
      refl)

abbrev IsIdle : TunnelClient → Type 0
IsIdle s = Idle (thread_of s)

abbrev IsSound : TunnelClient → Type 0
IsSound s = Sound (thread_of s)

quietly : {A : Type 0} {m : Client A} → Keeps thread_of m → Leads IsIdle IsIdle IsIdle m
quietly k = Keeps-Leads Idle Idle k (λ v h. h)

starts :
    Leads IsIdle IsSound IsIdle
      (modify (λ s. log thread_started (record s { tunnel_active = true; thread_running = true })))
unfolding log
starts = record { leads = λ s i. thread_after-started s.effects (ap (λ v. v.1) i) }

-- An exception in the set-up leaves no thread behind.
start_tunnel-Leads :
    (lib : Libraries) (draws : Draws) (fs : FileSystem)
    → Leads IsIdle IsSound IsIdle (start_tunnel lib draws fs)
unfolding start_tunnel
start_tunnel-Leads lib draws fs = then-Leads (quietly (connect_command-Keeps lib)) (
    then-Leads (quietly (setup_session-Keeps lib draws fs))
      (then-Leads (quietly (connect_data-Keeps lib)) (then-Leads (quietly attach-Keeps) starts)))

join_thread-IsIdle : (s : TunnelClient) → IsSound s → IsIdle (join_thread s)
unfolding join_thread log
join_thread-IsIdle s i = joined s.thread_running refl
  where
    joined :
        (b : Bool)
        → s.thread_running ≡ b
        → IsIdle (
            if b
            then record s { thread_running = false; effects = s.effects ++ thread_joined ∷ [] }
            else s)
    joined true e = ap (λ b. (false, b)) (thread_after-joined s.effects (i ∙ ap some e))
    joined false e = cc (i ∙ ap some e)

-- An exception in the stop leaves none behind either.
stop_tunnel-Leads : (lib : Libraries) → Leads IsSound IsIdle IsIdle (stop_tunnel lib)
unfolding stop_tunnel
stop_tunnel-Leads lib =
    then-Leads (record { leads = λ s i. join_thread-IsIdle (record s { tunnel_active = false }) i })
      (bind-Leads (quietly (get-Keeps _)) (λ text.
        then-Leads (quietly (self-Keeps _ (λ s. publish-Keeps logs lib command _ text 1)))
          (quietly (modify-Keeps _ (λ s. logs (disconnected data_channel) s refl)))))

pub session-Leads :
    (lib : Libraries) (draws : Draws) (fs : FileSystem)
    → Leads
        (λ s. Idle (thread_of s))
        (λ s. Idle (thread_of s))
        (λ s. Idle (thread_of s))
        (start_tunnel lib draws fs >> stop_tunnel lib)
session-Leads lib draws fs = then-Leads (start_tunnel-Leads lib draws fs) (stop_tunnel-Leads lib)
