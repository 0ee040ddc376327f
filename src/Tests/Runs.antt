-- ===== src/Tests/Runs.antt =====
-- Runs of server and client: a client says hello and acknowledges, and the server is stopped.
use mqtt_tunnel.TunnelServer.Routing.{serve-finds}
use mqtt_tunnel.Types.{empty_config}
use mqtt_tunnel.TunnelClient.State.{TunnelClient}
use mqtt_tunnel.TunnelClient.Plain.{set_up_client}
use mqtt_tunnel.TunnelClient.Session.{client_hello_for, setup_session}
use mqtt_tunnel.Base.{
  ◌≡◌, refl, true, false, List, Option, none, some, [], ◌∷◌, ◌++◌, ok, replicate,
}
use mqtt_tunnel.Base.Text.{Str, codes, str_eq, str_lt}
use mqtt_tunnel.Base.Dict.{lookup, insert, erase, emplace}
use mqtt_tunnel.Base.State.{◌>>=◌}
use mqtt_tunnel.Base.Decimal.{to_string as decimal}
use mqtt_tunnel.Cereal.Toy.{toy, toy_laws}
use mqtt_tunnel.Messages.{
  load_client_ack, load_client_hello, load_header, header_from_string, from_string, to_string,
  client_hello_serializable, client_ack_serializable, server_hello, ServerHello,
  server_hello_serializable,
}
use mqtt_tunnel.CryptoManager.{fresh, role_server, with_identity, FileSystem}
use mqtt_tunnel.Libraries.{Moment}
use mqtt_tunnel.Libraries.Calls.{run_command, subscribe, publish, connect}
use mqtt_tunnel.IpPool
use mqtt_tunnel.IpPool.{allocate_ip}
use mqtt_tunnel.CryptoManager
use mqtt_tunnel.Helpers.{get_sha256_string}
use mqtt_tunnel.SessionMap.{add_session, get_session_by_ip}
use mqtt_tunnel.Cereal.{load_str, load_int, load_enum, load_bool}
use mqtt_tunnel.TunnelServer.Handshake.{
  session_config_for, server_hello_for, handle_client_handshake, may_greet,
}
use mqtt_tunnel.TunnelServer.State.{TunnelServer}
use mqtt_tunnel.TunnelServer.Loop.{start_server, serve, handle_message}
use mqtt_tunnel.TunnelServer.Build.{TunnelServerBuilder, build}
use mqtt_tunnel.TunnelServer.Leases.Frames.{IsServing}
use mqtt_tunnel.TunnelServer.Leases.Runs.{handle_message-IsServing}
use mqtt_tunnel.TunnelServer.Leases.Started.{
  build-IsServing, start_server-IsServing, start_server_distinct_addresses,
}
use mqtt_tunnel.Handshake.{Agreement, handshake-Agreement, setup_session_without_ack}
use mqtt_tunnel.Fixtures.{
  lib, reliable-Delivers, no_files, moment, draws, new_server, new_client, hello_text, ack_text,
  session,
}

abbrev builder : TunnelServerBuilder
builder = record {
  run_flag = true;
  broker_address = codes "broker";
  command_channel_name = codes "ch";
  tun_device_name = codes "tun0";
  ip_pool_base = codes "10.0.0.0";
  ip_pool_size = 3;
  enable_encryption = false;
  interface_name = codes "eth0";
}

abbrev built : TunnelServer
built = record (new_server false) {
  own_ip_address = [];
  crypto_manager =
      with_identity (fresh role_server false false) (record {
        public_key_id = replicate 32 6;
        secret_key_id = replicate 32 6 ++ replicate 32 6;
      });
  command_channel_connected = false;
  data_channel_connected = false;
  tunnel_active = false;
  thread_running = false;
}

abbrev built_files : FileSystem
built_files = record no_files {
  content =
      (codes "ServerID.key", replicate 32 6 ++ replicate 32 6)
      ∷ (codes "ServerID.pub", replicate 32 6)
      ∷ [];
}

builds : build lib 6 no_files builder ≡ (ok built, built_files)
unfolding build IpPool.create CryptoManager.create CryptoManager.load_local_server_identity
    CryptoManager.store_server_identity lookup insert str_eq str_lt
builds = refl

abbrev rounds : List (Moment × Option Str)
rounds = (moment, some hello_text) ∷ (moment, none) ∷ (moment, some ack_text) ∷ []

serves : lookup (codes "a") (start_server lib rounds built).1.active_clients ≡ some session
unfolding start_server serve run_command handle_message header_from_string toy to_string from_string
    load_header load_client_hello load_client_ack load_str load_int load_enum load_bool lookup
    insert erase emplace str_eq str_lt ◌>>=◌ decimal allocate_ip session_config_for server_hello_for
    get_sha256_string add_session subscribe publish connect handle_client_handshake
serves = refl

pub built-IsServing : IsServing built
built-IsServing =
    build-IsServing lib 6 no_files built_files builder built (codes "10.0.0") (codes "0") refl
      (refl, tt) builds

start_server_distinct_addresses_example : codes "a" ≡ codes "a"
start_server_distinct_addresses_example =
    start_server_distinct_addresses lib 6 no_files built_files builder built (codes "10.0.0")
      (codes "0") rounds (codes "a") (codes "a") session session refl (refl, tt) builds serves
      serves refl (λ e. cc)

start_server-IsServing_example : IsServing (start_server lib rounds built).1
start_server-IsServing_example = start_server-IsServing lib rounds built built-IsServing

handle_message-IsServing_example : IsServing (handle_message lib moment hello_text built).1
handle_message-IsServing_example =
    handle_message-IsServing lib moment hello_text built built-IsServing

handshake-Agreement_example :
    Agreement lib draws no_files moment moment (new_server false) (new_client false)
unfolding lookup may_greet
handshake-Agreement_example =
    handshake-Agreement lib draws no_files moment moment (new_server false) (new_client false)
      toy_laws reliable-Delivers refl refl tt refl

abbrev lone_reply : ServerHello
lone_reply = record {
  message_identifier = server_hello;
  handshake_identifier = (client_hello_for draws (new_client false)).handshake_identifier;
  assigned_client_id = codes "a";
  assigned_client_ip = codes "10.0.0.2";
  server_address = codes "10.0.0.1";
  assigned_inbound_topic = codes "ch/a/A";
  assigned_outbound_topic = codes "ch/a/B";
  session_id = codes "a_5";
}

abbrev unanswered : TunnelClient
unanswered = record (new_client false) { inbox = some (to_string toy lone_reply) ∷ [] }

setup_session_without_ack_example :
    setup_session lib draws no_files unanswered
    ≡ (ok tt, set_up_client lib (client_hello_for draws unanswered) lone_reply unanswered)
unfolding client_hello_for
setup_session_without_ack_example =
    setup_session_without_ack lib draws no_files lone_reply unanswered toy_laws reliable-Delivers
      refl refl refl refl

serves_built :
    lookup (codes "a") (serve lib rounds (new_server false)).1.active_clients ≡ some session
unfolding serve run_command handle_message header_from_string toy to_string from_string load_header
    load_client_hello load_client_ack load_str load_int load_enum load_bool lookup insert erase
    emplace str_eq str_lt ◌>>=◌ decimal allocate_ip session_config_for server_hello_for
    get_sha256_string add_session subscribe publish handle_client_handshake
serves_built = refl

serve-finds_example :
    get_session_by_ip
      (serve lib rounds (new_server false)).1.active_clients
      (codes "10.0.0.2")
      empty_config
    ≡ (true, session)
serve-finds_example =
    serve-finds lib rounds (new_server false) (codes "a") session empty_config built-IsServing tt
      serves_built (λ e. cc)
