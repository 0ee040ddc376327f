-- ===== src/TunnelServer/Handshake.antt =====
-- src/TunnelServer.cpp: `handle_client_handshake`, one function for each case of its `switch`.
use mqtt_tunnel.Base.{
  Bool, true, false, Option, none, some, ◌++◌, if◌then◌else◌, Result, ok, throw, runtime_error,
}
use mqtt_tunnel.Base.Text.{Str, codes, str_eq}
use mqtt_tunnel.Base.Dict.{Dict, lookup, insert, erase, emplace}
use mqtt_tunnel.Base.Decimal.{to_string as decimal}
use mqtt_tunnel.Base.State.{◌>>=◌, ◌>>◌, return, call, modify, get}
use mqtt_tunnel.Types.{
  SessionConfig, SessionState, empty_config, handshake_client_hello, handshake_client_ack,
  is_client_hello, is_client_ack, is_gateway,
}
use mqtt_tunnel.IpPool.{allocate_ip}
use mqtt_tunnel.SessionMap.{add_session}
use mqtt_tunnel.Helpers.{c_string, get_sha256_string}
use mqtt_tunnel.Messages.{
  EncryptedWrapper, ServerAck, MessageIdentifier, client_hello_crypto, client_hello, client_ack,
  server_hello, server_ack, encrypted_wrapper, to_string, from_string, ClientHelloCrypto,
  ClientHello, ServerHello, ClientAck, client_hello_crypto_serializable,
  server_hello_crypto_serializable, client_hello_serializable, server_hello_serializable,
  client_ack_serializable, server_ack_serializable, encrypted_wrapper_serializable,
}
use mqtt_tunnel.CryptoManager.{establish_server_session, encrypt_data}
use mqtt_tunnel.Libraries.{Libraries, Moment, command, data_channel, snprintf}
use mqtt_tunnel.Libraries.Calls.{publish, subscribe, run_command}
use mqtt_tunnel.TunnelServer.State.{TunnelServer, Server, with_crypto, server_log}

-- An answer on the command channel.
unfoldable pub send : Libraries → Str → Server (Unit {0})
unfolding publish
send lib payload s = publish lib command (s.command_channel_name ++ codes "_TX") payload 1 s

-- The payload in an `EncryptedWrapper`, where encryption is on.
unfoldable pub wrap_if : Libraries → Moment → Str → Str → Bool → Server Str
wrap_if lib at client_id payload false = return payload
wrap_if lib at client_id payload true = do
  packet ← call (λ s. encrypt_data lib.sodium at.entropy s.crypto_manager payload client_id)
  return (
      to_string {M = EncryptedWrapper} lib.cereal (record {
        message_identifier = encrypted_wrapper;
        client_id = client_id;
        encrypted_payload = packet;
      }))

unfoldable pub wrapped : Libraries → Moment → Str → Str → Server Str
unfolding wrap_if
wrapped lib at client_id payload s = wrap_if lib at client_id payload s.encryption_enabled s

-- `handshake_states_[id].session_state = state`, on an entry that may be missing.
unfoldable pub set_state : Str → SessionState → Dict SessionConfig → Dict SessionConfig
set_state id state d = elim (lookup id d) [
  | none ↦ insert id (record empty_config { session_state = state }) d
  | some c ↦ insert id (record c { session_state = state }) d
]

unfoldable pub note_hello : Str → TunnelServer → TunnelServer
unfolding set_state
note_hello id s = record s {
  handshake_states = set_state id handshake_client_hello s.handshake_states;
}

-- `case CLIENT_HELLO_CRYPTO`
unfoldable pub on_client_hello_crypto : Libraries → Moment → Str → Server (Unit {0})
unfolding send with_crypto note_hello
on_client_hello_crypto lib at payload = do
  hello ← call (λ s. from_string {M = ClientHelloCrypto} lib.cereal payload)
  reply ← with_crypto (establish_server_session lib.sodium at.entropy at.now hello)
  send lib (to_string lib.cereal reply)
  modify (note_hello reply.unique_identifier)

-- The guard of `case CLIENT_HELLO`: no entry, or one that waits for this message.
unfoldable pub may_greet : Option SessionConfig → Bool
may_greet none = true
may_greet (some c) = is_client_hello c.session_state

unfoldable pub allocate : Server Str
allocate s = let (ip, pool) = allocate_ip s.ip_pool in (ok ip, record s { ip_pool = pool })

abbrev pub inbound_topic : Str → Str → Str
inbound_topic channel id = channel ++ codes "/" ++ id ++ codes "/A"

abbrev pub outbound_topic : Str → Str → Str
outbound_topic channel id = channel ++ codes "/" ++ id ++ codes "/B"

unfoldable pub session_config_for :
    Libraries → Moment → ClientHello → Str → TunnelServer → SessionConfig
session_config_for lib at hello assigned_ip s = record {
  client_id = hello.client_base_id;
  client_address = assigned_ip;
  server_address = s.own_ip_address;
  topic_inbound = inbound_topic s.command_channel_name hello.client_base_id;
  topic_outbound = outbound_topic s.command_channel_name hello.client_base_id;
  session_id = get_sha256_string lib.helpers (hello.client_base_id ++ codes "_" ++ decimal at.now);
  handshake_identifier = hello.handshake_identifier;
  session_state = handshake_client_ack;
  tunnel_mode = hello.tunnel_mode;
}

unfoldable pub server_hello_for : ClientHello → SessionConfig → ServerHello
server_hello_for hello c = record {
  message_identifier = server_hello;
  handshake_identifier = hello.handshake_identifier;
  assigned_client_id = hello.client_base_id;
  assigned_client_ip = c.client_address;
  server_address = c.server_address;
  assigned_inbound_topic = c.topic_inbound;
  assigned_outbound_topic = c.topic_outbound;
  session_id = c.session_id;
}

unfoldable pub set_handshake : Str → SessionConfig → TunnelServer → TunnelServer
set_handshake id c s = record s { handshake_states = insert id c s.handshake_states }

unfoldable pub greet : Libraries → Moment → ClientHello → Bool → Server (Unit {0})
unfolding allocate wrapped send set_handshake
greet lib at hello false = return tt
greet lib at hello true = do
  assigned_ip ← allocate
  config ← get (session_config_for lib at hello assigned_ip)
  payload ←
      wrapped lib at hello.client_base_id (to_string lib.cereal (server_hello_for hello config))
  send lib payload
  modify (set_handshake hello.client_base_id config)

-- `case CLIENT_HELLO`
unfoldable pub on_client_hello : Libraries → Moment → Str → Server (Unit {0})
unfolding greet may_greet
on_client_hello lib at payload = do
  hello ← call (λ s. from_string {M = ClientHello} lib.cereal payload)
  expected ← get (λ s. may_greet (lookup hello.client_base_id s.handshake_states))
  greet lib at hello expected

-- The guard of `case CLIENT_ACK`: the entry that waits for the acknowledgement.
unfoldable pub waiting_for_ack : Option SessionConfig → Option SessionConfig
waiting_for_ack none = none
waiting_for_ack (some c) = if is_client_ack c.session_state then some c else none

-- The commands of the acknowledgement.
abbrev pub route_command : Str → Str
route_command address =
    snprintf 256 (codes "ip route add " ++ c_string address ++ codes " dev tun0")

abbrev pub masquerade_command : Str → Str → Str
masquerade_command address interface =
    codes "iptables -t nat -A POSTROUTING -s "
    ++ address
    ++ codes "/32 -o "
    ++ interface
    ++ codes " -j MASQUERADE"

unfoldable pub masquerade_if : Bool → Str → Server (Unit {0})
unfolding run_command
masquerade_if true address s = run_command (masquerade_command address s.interface_name) s
masquerade_if false address s = (ok tt, s)

-- The session becomes active, and leaves the handshakes.
unfoldable pub activate : Str → SessionConfig → TunnelServer → TunnelServer
activate id c s = record s {
  active_clients = add_session s.active_clients c.client_id c;
  handshake_states = erase id s.handshake_states;
}

-- The last log line reads `handshake_states_[id]`, which makes an entry again.
unfoldable pub log_established : Str → TunnelServer → TunnelServer
log_established id s = record s { handshake_states = emplace id empty_config s.handshake_states }

unfoldable pub check_identifier : Str → Str → Result (Unit {0})
check_identifier received expected =
    if str_eq received expected
    then ok tt
    else throw (runtime_error (codes "Handshake identifier mismatch in Client ACK"))

unfoldable pub acknowledge :
    Libraries → Moment → ClientAck → Option SessionConfig → Server (Unit {0})
unfolding wrapped send run_command masquerade_if subscribe activate log_established check_identifier
acknowledge lib at ack none = return tt
acknowledge lib at ack (some c) = do
  call (λ s. check_identifier ack.handshake_identifier c.handshake_identifier)
  payload ← wrapped lib at ack.client_id (
      to_string {M = ServerAck} lib.cereal
        (record { message_identifier = server_ack; handshake_identifier = c.handshake_identifier }))
  send lib payload
  run_command (route_command c.client_address)
  masquerade_if (is_gateway c.tunnel_mode) c.client_address
  subscribe lib data_channel c.topic_outbound 1
  modify (activate ack.client_id c)
  modify (log_established ack.client_id)

-- `case CLIENT_ACK`
unfoldable pub on_client_ack : Libraries → Moment → Str → Server (Unit {0})
unfolding acknowledge waiting_for_ack
on_client_ack lib at payload = do
  ack ← call (λ s. from_string {M = ClientAck} lib.cereal payload)
  state ← get (λ s. waiting_for_ack (lookup ack.client_id s.handshake_states))
  acknowledge lib at ack state

-- `TunnelServer::handle_client_handshake`
unfoldable pub handle_client_handshake :
    Libraries → Moment → Str → MessageIdentifier → Server (Unit {0})
unfolding on_client_hello_crypto on_client_hello on_client_ack
handle_client_handshake lib at payload client_hello_crypto = on_client_hello_crypto lib at payload
handle_client_handshake lib at payload client_hello = on_client_hello lib at payload
handle_client_handshake lib at payload client_ack = on_client_ack lib at payload
handle_client_handshake lib at payload _ = return tt
