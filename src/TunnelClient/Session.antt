-- ===== src/TunnelClient/Session.antt =====
-- src/TunnelClient.cpp: `setup_session`, in the parts of its body.
use mqtt_tunnel.Base.{
  ℕ, zero, suc, ◌+◌, ◌/◌, ◌%◌, Bool, true, false, Option, none, some, [], ◌∷◌, ◌++◌, if◌then◌else◌,
  Result, ok, throw, runtime_error, process_exit, ltb,
}
use mqtt_tunnel.Base.Text.{Str, codes, str_eq}
use mqtt_tunnel.Base.State.{◌>>=◌, ◌>>◌, return, call, modify, get}
use mqtt_tunnel.Types.{SessionConfig, TunnelMode, is_gateway}
use mqtt_tunnel.Helpers.{c_string}
use mqtt_tunnel.Messages.{
  client_hello, client_ack, encrypted_wrapper, to_string, from_string, ServerHelloCrypto,
  ClientHello, ServerHello, ClientAck, ServerAck, EncryptedWrapper,
  client_hello_crypto_serializable, server_hello_crypto_serializable, client_hello_serializable,
  server_hello_serializable, client_ack_serializable, server_ack_serializable,
  encrypted_wrapper_serializable,
}
use mqtt_tunnel.CryptoManager.{
  FileSystem, generate_client_hello, establish_client_session, encrypt_data, decrypt_data,
}
use mqtt_tunnel.Libraries.{Libraries, command, snprintf}
use mqtt_tunnel.Libraries.Calls.{publish, run_command}
use mqtt_tunnel.TunnelClient.State.{TunnelClient, Client, client_log, with_crypto, wait_for}

-- The entropy of a handshake: the ephemeral key, the two halves of the identifier, and the nonces.
pub record Draws : Type 0 where
  pub key : ℕ
  pub id_high : ℕ
  pub id_low : ℕ
  pub hello_nonce : ℕ
  pub ack_nonce : ℕ

hex_digit : ℕ → ℕ
hex_digit n = if ltb n 10 then 48 + n else 87 + n

-- `std::hex << std::setw(w) << std::setfill('0')` of a number below 16 ^ w.
hex_padded : ℕ → ℕ → Str
unfolding hex_digit
hex_padded zero n = []
hex_padded (suc w) n = hex_padded w (n / 16) ++ hex_digit (n % 16) ∷ []

unfoldable pub handshake_identifier_of : Draws → Str
unfolding hex_padded
handshake_identifier_of d = hex_padded 16 d.id_high ++ hex_padded 16 d.id_low

-- A message on the command channel to the server.
unfoldable pub send : Libraries → Str → Client (Unit {0})
unfolding publish
send lib payload s = publish lib command (s.command_channel_name ++ codes "_RX") payload 1 s

unfoldable pub wrap_if : Libraries → ℕ → Str → Bool → Client Str
wrap_if lib entropy payload false = return payload
wrap_if lib entropy payload true = do
  packet ← call (λ s. encrypt_data lib.sodium entropy s.crypto_manager payload s.client_base_id)
  id ← get (λ s. s.client_base_id)
  return (
      to_string {M = EncryptedWrapper} lib.cereal (record {
        message_identifier = encrypted_wrapper;
        client_id = id;
        encrypted_payload = packet;
      }))

unfoldable pub wrapped : Libraries → ℕ → Str → Client Str
unfolding wrap_if
wrapped lib entropy payload s = wrap_if lib entropy payload s.encryption_enabled s

unfoldable pub unwrap_if : Libraries → Str → Bool → Client Str
unwrap_if lib payload false = return payload
unwrap_if lib payload true = do
  wrapper ← call (λ s. from_string {M = EncryptedWrapper} lib.cereal payload)
  call (λ s. decrypt_data lib.sodium s.crypto_manager wrapper.encrypted_payload s.client_base_id)

unfoldable pub unwrapped : Libraries → Str → Client Str
unfolding unwrap_if
unwrapped lib payload s = unwrap_if lib payload s.encryption_enabled s

-- `if (!response) exit(EXIT_FAILURE)`
unfoldable pub present : Option Str → Result Str
present (some response) = ok response
present none = throw (process_exit 1)

unfoldable pub answer : Option Str → Client Str
unfolding wait_for present
answer response = do found ← wait_for response; call (λ s. present found)

-- The exchange of keys, where encryption is on.
unfoldable pub exchange_keys : Libraries → Draws → FileSystem → Bool → Client (Unit {0})
unfolding with_crypto send answer
exchange_keys lib draws fs false = return tt
exchange_keys lib draws fs true = do
  id ← get (λ s. s.client_base_id)
  hello ← with_crypto (generate_client_hello lib.sodium draws.key id)
  send lib (to_string lib.cereal hello)
  response ← answer none
  reply ← call (λ s. from_string {M = ServerHelloCrypto} lib.cereal response)
  with_crypto (establish_client_session lib.sodium fs reply)
  modify (λ s. record s { client_base_id = reply.unique_identifier })

unfoldable pub client_hello_for : Draws → TunnelClient → ClientHello
unfolding handshake_identifier_of
client_hello_for draws s = record {
  message_identifier = client_hello;
  client_base_id = s.client_base_id;
  authentication = false;
  auth_data = [];
  handshake_identifier = handshake_identifier_of draws;
  tunnel_mode = s.tunnel_mode;
}

-- What the client takes from the server's hello.
unfoldable pub configure : ServerHello → TunnelClient → TunnelClient
configure hello s = record s {
  session_config = record s.session_config {
    client_id = hello.assigned_client_id;
    client_address = hello.assigned_client_ip;
    server_address = hello.server_address;
    topic_inbound = hello.assigned_inbound_topic;
    topic_outbound = hello.assigned_outbound_topic;
    session_id = hello.session_id;
  };
}

-- Hello: the client's message, and the answer that configures the client. The response is kept.
unfoldable pub greet_server : Libraries → Draws → ClientHello → Client (Str × ServerHello)
unfolding wrapped send answer unwrapped configure
greet_server lib draws hello = do
  text ← wrapped lib draws.hello_nonce (to_string lib.cereal hello)
  send lib text
  response ← answer none
  payload ← unwrapped lib response
  server_hello ← call (λ s. from_string {M = ServerHello} lib.cereal payload)
  modify (configure server_hello)
  return (response, server_hello)

unfoldable pub check_identifier : Str → Str → Result (Unit {0})
check_identifier received sent =
    if str_eq received sent
    then ok tt
    else throw (runtime_error (codes "Handshake identifier mismatch in Server ACK"))

-- Acknowledgement: `response` still holds the answer to the hello when the wait begins.
unfoldable pub acknowledge_server :
    Libraries → Draws → ClientHello → Str → ServerHello → Client (Unit {0})
unfolding wrapped send answer unwrapped check_identifier
acknowledge_server lib draws hello response server_hello = do
  id ← get (λ s. s.session_config.client_id)
  text ← wrapped lib draws.ack_nonce (
      to_string {M = ClientAck} lib.cereal (record {
        message_identifier = client_ack;
        client_id = id;
        handshake_identifier = server_hello.handshake_identifier;
      }))
  send lib text
  last ← answer (some response)
  payload ← unwrapped lib last
  ack ← call (λ s. from_string {M = ServerAck} lib.cereal payload)
  call (λ s. check_identifier ack.handshake_identifier hello.handshake_identifier)

abbrev pub own_address_command : SessionConfig → Str
own_address_command c =
    snprintf 100 (codes "ip addr add " ++ c_string c.client_address ++ codes "/24 dev tun0")

abbrev pub route_command : TunnelMode → SessionConfig → Str
route_command mode c =
    if is_gateway mode
    then snprintf 100
        (codes "ip route add default via " ++ c_string c.server_address ++ codes " dev tun0")
    else snprintf 100 (codes "ip route add " ++ c_string c.server_address ++ codes " dev tun0")

-- The configuration of the device and its routes.
unfoldable pub configure_device : Client (Unit {0})
unfolding run_command
configure_device = do
  (λ s. run_command (own_address_command s.session_config) s)
  run_command (codes "ip link set dev tun0 mtu 1400")
  run_command (codes "ip link set tun0 up")
  (λ s. run_command (route_command s.tunnel_mode s.session_config) s)
  modify (λ s. record s { session_configured = true })

-- `setup_session`
unfoldable pub setup_session : Libraries → Draws → FileSystem → Client (Unit {0})
unfolding exchange_keys greet_server acknowledge_server configure_device client_hello_for
setup_session lib draws fs = do
  (λ s. exchange_keys lib draws fs s.encryption_enabled s)
  hello ← get (client_hello_for draws)
  greeted ← greet_server lib draws hello
  acknowledge_server lib draws hello greeted.0 greeted.1
  configure_device
