-- ===== src/Fixtures.antt =====
-- The libraries of the examples: stand-ins for cereal, libsodium, `inet_ntop` and the MQTT library that
-- meet what the theorems ask of them, and a server and a client that were just constructed.
use mqtt_tunnel.Messages.{
  ClientHello, client_hello, ClientAck, client_ack, to_string, client_hello_serializable,
  client_ack_serializable,
}
use mqtt_tunnel.Base.{refl, ℕ, ◌/◌, ◌%◌, ◌++◌, Bool, true, false, [], ◌∷◌, none}
use mqtt_tunnel.Base.Text.{Str, codes}
use mqtt_tunnel.Base.Decimal.{to_string as decimal}
use mqtt_tunnel.Cereal.Toy
use mqtt_tunnel.Sodium.Toy as SodiumToy
use mqtt_tunnel.Helpers.{HelperLibrary}
use mqtt_tunnel.CryptoManager.{
  CryptoManager, FileSystem, role_client, role_server, fresh, CryptoSessionConfig,
}
use mqtt_tunnel.MqttChannels.{MqttChannels}
use mqtt_tunnel.TunDevice.{Kernel, TunDevice}
use mqtt_tunnel.Base.Int.{pos}
use mqtt_tunnel.Types.{gateway, empty_config, SessionConfig, handshake_client_ack}
use mqtt_tunnel.IpPool.{IpPool}
use mqtt_tunnel.Libraries.{Libraries, Mqtt, Moment}
use mqtt_tunnel.TunnelServer.State.{TunnelServer}
use mqtt_tunnel.TunnelServer.Plain.{Delivers}
use mqtt_tunnel.TunnelClient.State.{TunnelClient}
use mqtt_tunnel.TunnelClient.Session.{Draws}

abbrev dotted_quad : ℕ → Str
dotted_quad n =
    decimal (n % 256)
    ++ codes "."
    ++ decimal (n / 256 % 256)
    ++ codes "."
    ++ decimal (n / 65536 % 256)
    ++ codes "."
    ++ decimal (n / 16777216)

abbrev pub helpers : HelperLibrary
helpers = record {
  crypto_hash_sha256 = λ s. s;
  sodium_bin2hex = λ s. s;
  inet_ntop = λ n. dotted_quad n;
}

abbrev pub reliable : Mqtt
reliable = record {
  connects = λ c. true;
  subscribes = λ c topic. true;
  publishes = λ c topic payload. true;
}

pub reliable-Delivers : Delivers reliable
reliable-Delivers = record {
  connects = λ c. refl;
  subscribes = λ c topic. refl;
  publishes = λ c topic payload. refl;
}

abbrev pub linux : Kernel
linux = record {
  open_tun = pos 7;
  tunsetiff = λ fd name flags. pos 0;
  get_flags = λ fd. pos 2;
  set_flags = λ fd flags. pos 0;
}

abbrev pub lib : Libraries
lib = record {
  cereal = Toy.toy;
  sodium = SodiumToy.toy;
  helpers = helpers;
  mqtt = reliable;
  kernel = linux;
}

abbrev pub no_files : FileSystem
no_files = record { content = []; can_open = λ name. true; can_write = λ name. true }

abbrev pub moment : Moment
moment = record { now = 5; entropy = 7 }

abbrev pub draws : Draws
draws = record { key = 3; id_high = 1; id_low = 2; hello_nonce = 8; ack_nonce = 9 }

abbrev pub new_pool : IpPool
new_pool = record {
  net_ip = codes "10.0.0.0";
  base_ip = codes "10.0.0.";
  pool_size = 3;
  ip_usage = false ∷ false ∷ false ∷ [];
}

abbrev pub channels : Str → MqttChannels
channels base = record {
  command_client = record { server_uri = codes "broker"; client_id = base ++ codes "_cmd" };
  data_client = record { server_uri = codes "broker"; client_id = base ++ codes "_data" };
  tun_callback = none;
  data_callback = none;
}

abbrev pub device : TunDevice
device = record { tun_fd = pos 7 }

abbrev pub new_server : Bool → TunnelServer
new_server encryption = record {
  mqtt_channels = channels (codes "ch");
  tun_device = device;
  ip_pool = new_pool;
  command_channel_name = codes "ch";
  active_clients = [];
  own_ip_address = codes "10.0.0.1";
  global_run_flag = true;
  crypto_manager = fresh role_server encryption false;
  command_channel_connected = true;
  data_channel_connected = true;
  encryption_enabled = encryption;
  interface_name = codes "eth0";
  tunnel_active = true;
  thread_running = true;
  handshake_states = [];
  effects = [];
}

abbrev pub new_client : Bool → TunnelClient
new_client encryption = record {
  mqtt_channels = channels (codes "a");
  tun_device = device;
  command_channel_name = codes "ch";
  client_base_id = codes "a";
  session_config = empty_config;
  session_configured = false;
  encryption_enabled = encryption;
  tunnel_active = false;
  thread_running = false;
  crypto_manager = fresh role_client encryption true;
  ignore_server_authentication = true;
  tunnel_mode = gateway;
  inbox = [];
  effects = [];
}

-- The messages of client "a", the session that it gets, and servers that wait for it or serve it.
abbrev pub hello : ClientHello
hello = record {
  message_identifier = client_hello;
  client_base_id = codes "a";
  authentication = false;
  auth_data = [];
  handshake_identifier = codes "12";
  tunnel_mode = gateway;
}

abbrev pub ack : ClientAck
ack = record {
  message_identifier = client_ack;
  client_id = codes "a";
  handshake_identifier = codes "12";
}

abbrev pub hello_text : Str
hello_text = to_string Toy.toy hello

abbrev pub ack_text : Str
ack_text = to_string Toy.toy ack

abbrev pub session : SessionConfig
session = record {
  client_id = codes "a";
  client_address = codes "10.0.0.2";
  server_address = codes "10.0.0.1";
  topic_inbound = codes "ch/a/A";
  topic_outbound = codes "ch/a/B";
  session_id = codes "a_5";
  handshake_identifier = codes "12";
  session_state = handshake_client_ack;
  tunnel_mode = gateway;
}

abbrev pub taken_pool : IpPool
taken_pool = record new_pool { ip_usage = false ∷ true ∷ false ∷ [] }

abbrev pub waiting_server : TunnelServer
waiting_server = record (new_server false) {
  ip_pool = taken_pool;
  handshake_states = (codes "a", session) ∷ [];
}

abbrev pub keys : CryptoSessionConfig
keys = record { rx = codes "k"; tx = codes "k"; signature_message = [] }

-- A server with encryption and one active session.
abbrev pub serving_server : TunnelServer
serving_server = record (new_server true) {
  ip_pool = taken_pool;
  active_clients = (codes "a", session) ∷ [];
  crypto_manager = record (fresh role_server true false) { session_map = (codes "a", keys) ∷ [] };
}

abbrev pub client_manager : CryptoManager
client_manager = record (fresh role_client true true) { session_map = (codes "a", keys) ∷ [] }
