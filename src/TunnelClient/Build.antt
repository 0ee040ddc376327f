-- ===== src/TunnelClient/Build.antt =====
-- src/TunnelClient.hpp: the builder of the client; src/TunnelClient.cpp: its constructor.
use mqtt_tunnel.Base.{
  ℕ, ◌||◌, Bool, true, false, List, Option, [], if◌then◌else◌, Result, ok, throw, fault,
  runtime_error,
}
use mqtt_tunnel.Base.Text.{Str, codes, empty}
use mqtt_tunnel.Types.{TunnelMode, connection, empty_config}
use mqtt_tunnel.CryptoManager.{CryptoManager, FileSystem, role_client}
use mqtt_tunnel.CryptoManager
use mqtt_tunnel.Libraries.{Libraries}
use mqtt_tunnel.MqttChannels
use mqtt_tunnel.TunDevice
use mqtt_tunnel.TunnelClient.State.{TunnelClient}

pub record TunnelClientBuilder : Type 0 where
  pub broker_address : Str
  pub command_channel_name : Str
  pub client_base_id : Str
  pub tun_device_name : Str
  pub enable_encryption : Bool
  pub ignore_server_authentication : Bool
  pub tunnel_mode : TunnelMode

abbrev pub new_builder : TunnelClientBuilder
new_builder = record {
  broker_address = [];
  command_channel_name = [];
  client_base_id = [];
  tun_device_name = codes "tun0";
  enable_encryption = true;
  ignore_server_authentication = false;
  tunnel_mode = connection;
}

abbrev pub set_broker_address : Str → TunnelClientBuilder → TunnelClientBuilder
set_broker_address v b = record b { broker_address = v }

abbrev pub set_command_channel_name : Str → TunnelClientBuilder → TunnelClientBuilder
set_command_channel_name v b = record b { command_channel_name = v }

abbrev pub set_client_base_id : Str → TunnelClientBuilder → TunnelClientBuilder
set_client_base_id v b = record b { client_base_id = v }

abbrev pub set_tun_device_name : Str → TunnelClientBuilder → TunnelClientBuilder
set_tun_device_name v b = record b { tun_device_name = v }

abbrev pub set_enable_encryption : Bool → TunnelClientBuilder → TunnelClientBuilder
set_enable_encryption v b = record b { enable_encryption = v }

abbrev pub set_ignore_server_authentication : Bool → TunnelClientBuilder → TunnelClientBuilder
set_ignore_server_authentication v b = record b { ignore_server_authentication = v }

abbrev pub set_tunnel_mode : TunnelMode → TunnelClientBuilder → TunnelClientBuilder
set_tunnel_mode v b = record b { tunnel_mode = v }

members : Libraries → TunnelClientBuilder → List (Option Str) → CryptoManager → TunnelClient
members lib b inbox crypto = record {
  mqtt_channels = MqttChannels.create b.broker_address b.client_base_id;
  tun_device = (TunDevice.create lib.kernel b.tun_device_name []).0;
  command_channel_name = b.command_channel_name;
  client_base_id = b.client_base_id;
  session_config = empty_config;
  session_configured = false;
  encryption_enabled = b.enable_encryption;
  tunnel_active = false;
  thread_running = false;
  crypto_manager = crypto;
  ignore_server_authentication = b.ignore_server_authentication;
  tunnel_mode = b.tunnel_mode;
  inbox = inbox;
  effects = [];
}

with_manager :
    Libraries
    → TunnelClientBuilder
    → List (Option Str)
    → Result CryptoManager × FileSystem
    → Result TunnelClient × FileSystem
unfolding members MqttChannels.create TunDevice.create
with_manager lib b inbox (ok crypto, fs) = (ok (members lib b inbox crypto), fs)
with_manager lib b inbox (throw e, fs) = (throw e, fs)
with_manager lib b inbox (fault, fs) = (fault, fs)

-- `TunnelClient::TunnelClient`, at what the builder hands to it. `inbox` is what the broker will
-- deliver.
unfoldable pub create :
    Libraries
    → ℕ
    → List (Option Str)
    → TunnelClientBuilder
    → FileSystem
    → Result TunnelClient × FileSystem
unfolding with_manager
create lib entropy inbox b fs = with_manager lib b inbox (
    CryptoManager.create lib.sodium entropy role_client b.enable_encryption
      b.ignore_server_authentication fs)

-- `TunnelClientBuilder::build`
unfoldable pub build :
    Libraries
    → ℕ
    → List (Option Str)
    → FileSystem
    → TunnelClientBuilder
    → Result TunnelClient × FileSystem
unfolding create
build lib entropy inbox fs b =
    if empty b.broker_address || empty b.command_channel_name || empty b.client_base_id
    then (
      throw (
          runtime_error
            (codes "Broker address, command channel name, and client base ID must be set")),
      fs,
    )
    else create lib entropy inbox b fs
