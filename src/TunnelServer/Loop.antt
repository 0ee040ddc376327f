-- ===== src/TunnelServer/Loop.antt =====
-- src/TunnelServer.cpp: the set-up, the loop over the command channel, and the shutdown.
use mqtt_tunnel.Base.{
  ℕ, Bool, true, false, Option, none, some, List, [], ◌∷◌, ◌++◌, if◌then◌else◌, Result, ok, throw,
  fault,
}
use mqtt_tunnel.Base.Text.{Str, codes}
use mqtt_tunnel.Base.State.{next, ◌>>=◌, ◌>>◌, return, call, modify, get}
use mqtt_tunnel.Helpers.{c_string}
use mqtt_tunnel.Types.{SessionConfig, empty_config, is_gateway}
use mqtt_tunnel.IpPool.{IpPool, release_ip}
use mqtt_tunnel.SessionMap.{get_session, remove_session}
use mqtt_tunnel.Messages.{
  MessageIdentifier, session_termination, encrypted_wrapper, identifier_of_int, from_string,
  header_from_string, SessionTermination, EncryptedWrapper, session_termination_serializable,
  encrypted_wrapper_serializable,
}
use mqtt_tunnel.CryptoManager.{decrypt_data}
use mqtt_tunnel.Libraries.{
  Libraries, Moment, command, data_channel, disconnected, callback_set, thread_started,
  thread_joined, snprintf,
}
use mqtt_tunnel.Libraries.Calls.{log, connect, subscribe, run_command}
use mqtt_tunnel.MqttChannels.{set_tun_callback}
use mqtt_tunnel.TunnelServer.State.{TunnelServer, Server, server_log}
use mqtt_tunnel.TunnelServer.Handshake.{handle_client_handshake}

abbrev pub remove_masquerade_command : Str → Str → Str
remove_masquerade_command address interface =
    codes "iptables -t nat -D POSTROUTING -s "
    ++ address
    ++ codes "/24 -o "
    ++ interface
    ++ codes " -j MASQUERADE"

unfoldable pub remove_masquerade_if : Bool → Str → Server (Unit {0})
unfolding run_command
remove_masquerade_if true address s =
    run_command (remove_masquerade_command address s.interface_name) s
remove_masquerade_if false address s = (ok tt, s)

-- The result of `release_ip` is not looked at, but its exceptions pass.
unfoldable pub released : TunnelServer → Result (ℕ × IpPool) → Result (Unit {0}) × TunnelServer
released s (ok (_, pool)) = (ok tt, record s { ip_pool = pool })
released s (throw e) = (throw e, s)
released s fault = (fault, s)

unfoldable pub release : Str → Server (Unit {0})
unfolding released
release address s = released s (release_ip s.ip_pool address)

unfoldable pub end_session : Str → Bool × SessionConfig → Server (Unit {0})
unfolding remove_masquerade_if release
end_session client_id (false, _) = return tt
end_session client_id (true, c) = do
  remove_masquerade_if (is_gateway c.tunnel_mode) c.client_address
  modify (λ s. record s { active_clients = remove_session s.active_clients client_id })
  release c.client_address

-- `case SESSION_TERMINATION`
unfoldable pub on_session_termination : Libraries → Str → Server (Unit {0})
unfolding end_session
on_session_termination lib payload = do
  term ← call (λ s. from_string {M = SessionTermination} lib.cereal payload)
  session ← get (λ s. get_session s.active_clients term.client_id empty_config)
  end_session term.client_id session

-- `case ENCRYPTED_WRAPPER`
unfoldable pub on_encrypted_wrapper : Libraries → Moment → Str → Server (Unit {0})
on_encrypted_wrapper lib at payload = do
  wrapper ← call (λ s. from_string {M = EncryptedWrapper} lib.cereal payload)
  decrypted ←
      call
        (λ s. decrypt_data lib.sodium s.crypto_manager wrapper.encrypted_payload wrapper.client_id)
  header ← call (λ s. header_from_string lib.cereal decrypted)
  handle_client_handshake lib at decrypted (identifier_of_int header.type)

unfoldable pub dispatch : Libraries → Moment → Str → MessageIdentifier → Server (Unit {0})
unfolding on_session_termination on_encrypted_wrapper
dispatch lib at payload session_termination = on_session_termination lib payload
dispatch lib at payload encrypted_wrapper = on_encrypted_wrapper lib at payload
dispatch lib at payload kind = handle_client_handshake lib at payload kind

-- The body of the loop, at a message that was consumed.
unfoldable pub handle_message : Libraries → Moment → Str → Server (Unit {0})
unfolding dispatch
handle_message lib at payload = do
  header ← call (λ s. header_from_string lib.cereal payload)
  dispatch lib at payload (identifier_of_int header.type)

-- The loop: what each round of `try_consume_message` finds, until the run flag is cleared.
unfoldable pub serve : Libraries → List (Moment × Option Str) → Server (Unit {0})
serve lib [] s = (ok tt, s)
serve lib ((at, none) ∷ rounds) s = serve lib rounds s
serve lib ((at, some payload) ∷ rounds) s =
    next (λ _. serve lib rounds) (handle_message lib at payload s)

-- `connect_command_channel` and `connect_data_channel`: an exception is reported and thrown on.
unfoldable pub connect_command_channel : Libraries → Server (Unit {0})
unfolding connect subscribe
connect_command_channel lib = do
  connect lib command
  topic ← get (λ s. s.command_channel_name ++ codes "_RX")
  subscribe lib command topic 1
  modify (λ s. record s { command_channel_connected = true })

unfoldable pub connect_data_channel : Libraries → Server (Unit {0})
unfolding connect
connect_data_channel lib = do
  connect lib data_channel
  modify (λ s. record s { data_channel_connected = true })

abbrev forward_out : Str → Str
forward_out interface = codes "iptables -A FORWARD -i tun0 -o " ++ interface ++ codes " -j ACCEPT"

abbrev forward_in : Str → Str
forward_in interface =
    codes "iptables -A FORWARD -i "
    ++ interface
    ++ codes " -o tun0 -m state --state RELATED,ESTABLISHED -j ACCEPT"

-- `mqtt_channels_.set_tun_callback(tun_device_.fd(), encryption_enabled_, crypto_manager_)`
unfoldable pub attach_callback : TunnelServer → TunnelServer
unfolding log set_tun_callback
attach_callback s = log callback_set (record s {
  mqtt_channels = set_tun_callback s.tun_device.tun_fd s.encryption_enabled s.mqtt_channels;
})

-- `start_server` up to its loop.
unfoldable pub set_up : Libraries → Server (Unit {0})
unfolding connect_command_channel connect_data_channel attach_callback log
set_up lib = do
  modify (λ s. record s { own_ip_address = s.ip_pool.base_ip ++ codes "1" })
  (λ s.
      run_command
        (snprintf 100 (codes "ip addr add " ++ c_string s.own_ip_address ++ codes "/24 dev tun0"))
        s)
  run_command (codes "ip link set dev tun0 mtu 1400")
  run_command (codes "ip link set tun0 up")
  (λ s. run_command (forward_out s.interface_name) s)
  (λ s. run_command (forward_in s.interface_name) s)
  connect_command_channel lib
  connect_data_channel lib
  modify attach_callback
  modify (λ s. log thread_started (record s { tunnel_active = true; thread_running = true }))
  run_command (codes "sysctl -w net.ipv4.ip_forward=1")

unfoldable pub join_thread : TunnelServer → TunnelServer
unfolding log
join_thread s =
    if s.thread_running then log thread_joined (record s { thread_running = false }) else s

unfoldable pub disconnect_command : TunnelServer → TunnelServer
unfolding log
disconnect_command s =
    if s.command_channel_connected
    then record (log (disconnected command) s) { command_channel_connected = false }
    else s

unfoldable pub disconnect_data : TunnelServer → TunnelServer
unfolding log
disconnect_data s =
    if s.data_channel_connected
    then record (log (disconnected data_channel) s) { data_channel_connected = false }
    else s

-- `stop_server`, which the destructor calls too.
unfoldable pub stop_server : TunnelServer → TunnelServer
unfolding join_thread disconnect_command disconnect_data
stop_server s =
    disconnect_data (disconnect_command (join_thread (record s { tunnel_active = false })))

-- The loop reads the run flag through the pointer.
unfoldable pub run_loop : Libraries → List (Moment × Option Str) → Server (Unit {0})
unfolding serve
run_loop lib rounds s = if s.global_run_flag then serve lib rounds s else (fault, s)

-- `start_server`
unfoldable pub start_server : Libraries → List (Moment × Option Str) → Server (Unit {0})
unfolding set_up run_loop stop_server
start_server lib rounds = do set_up lib; run_loop lib rounds; modify stop_server
