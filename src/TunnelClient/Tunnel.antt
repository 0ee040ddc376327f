-- ===== src/TunnelClient/Tunnel.antt =====
-- src/TunnelClient.cpp: the start and the end of the tunnel, and the body of the loop of
-- `async_tun_read`.
use mqtt_tunnel.Base.{ℕ, Bool, true, false, Option, none, some, ◌++◌, if◌then◌else◌, Result, ok}
use mqtt_tunnel.Base.Text.{Str, codes}
use mqtt_tunnel.Base.State.{◌>>=◌, ◌>>◌, return, call, modify, get}
use mqtt_tunnel.Messages.{
  session_termination, to_string, SessionTermination, session_termination_serializable,
}
use mqtt_tunnel.CryptoManager.{FileSystem, encrypt_data}
use mqtt_tunnel.Libraries.{
  Libraries, command, data_channel, disconnected, callback_set, thread_started, thread_joined,
}
use mqtt_tunnel.Libraries.Calls.{log, connect, subscribe, publish}
use mqtt_tunnel.MqttChannels.{set_tun_callback}
use mqtt_tunnel.TunnelClient.State.{TunnelClient, Client, client_log}
use mqtt_tunnel.TunnelClient.Session.{Draws, setup_session}

unfoldable pub connect_command_channel : Libraries → Client (Unit {0})
unfolding connect subscribe
connect_command_channel lib = do
  connect lib command
  topic ← get (λ s. s.command_channel_name ++ codes "_TX")
  subscribe lib command topic 1

unfoldable pub connect_data_channel : Libraries → Client (Unit {0})
unfolding connect subscribe
connect_data_channel lib = do
  connect lib data_channel
  topic ← get (λ s. s.session_config.topic_inbound)
  subscribe lib data_channel topic 1

-- `mqtt_channels_.set_tun_callback(tun_device_.fd(), encryption_enabled, crypto_manager_)`
unfoldable pub attach_callback : TunnelClient → TunnelClient
unfolding log set_tun_callback
attach_callback s = log callback_set (record s {
  mqtt_channels = set_tun_callback s.tun_device.tun_fd s.encryption_enabled s.mqtt_channels;
})

-- `start_tunnel`
unfoldable pub start_tunnel : Libraries → Draws → FileSystem → Client (Unit {0})
unfolding connect_command_channel connect_data_channel attach_callback log
start_tunnel lib draws fs = do
  connect_command_channel lib
  setup_session lib draws fs
  connect_data_channel lib
  modify attach_callback
  modify (λ s. log thread_started (record s { tunnel_active = true; thread_running = true }))

unfoldable pub join_thread : TunnelClient → TunnelClient
unfolding log
join_thread s =
    if s.thread_running then log thread_joined (record s { thread_running = false }) else s

abbrev pub termination_message : TunnelClient → SessionTermination
termination_message s = record {
  message_identifier = session_termination;
  client_id = s.session_config.client_id;
  session_id = s.session_config.session_id;
  reason = codes "Client request";
}

-- `stop_tunnel`
unfoldable pub stop_tunnel : Libraries → Client (Unit {0})
unfolding join_thread publish log
stop_tunnel lib = do
  modify (λ s. join_thread (record s { tunnel_active = false }))
  text ← get (λ s. to_string lib.cereal (termination_message s))
  (λ s. publish lib command (s.command_channel_name ++ codes "_RX") text 1 s)
  modify (log (disconnected data_channel))

unfoldable pub payload_if : Libraries → ℕ → Str → Bool → TunnelClient → Result Str
payload_if lib entropy packet false s = ok packet
payload_if lib entropy packet true s =
    encrypt_data lib.sodium entropy s.crypto_manager packet s.client_base_id

-- A round of the loop: `none` is a failed read. An exception of the encryption is not caught.
unfoldable pub tun_round : Libraries → ℕ → Option Str → Client (Unit {0})
unfolding payload_if publish
tun_round lib entropy none = return tt
tun_round lib entropy (some packet) = do
  payload ← call (λ s. payload_if lib entropy packet s.encryption_enabled s)
  (λ s. publish lib data_channel s.session_config.topic_outbound payload 0 s)
