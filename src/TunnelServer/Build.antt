-- ===== src/TunnelServer/Build.antt =====
-- src/TunnelServer.hpp: the builder of the server; src/TunnelServer.cpp: its constructor.
use mqtt_tunnel.Base.{
  ℕ, ◌-◌, ◌^◌, ◌||◌, Bool, true, false, [], if◌then◌else◌, Result, ok, throw, fault, runtime_error,
  ltb,
}
use mqtt_tunnel.Base.Text.{Str, codes, empty}
use mqtt_tunnel.Base.Int.{ℤ, pos, negsuc}
use mqtt_tunnel.IpPool.{IpPool}
use mqtt_tunnel.IpPool
use mqtt_tunnel.CryptoManager.{CryptoManager, FileSystem, role_server}
use mqtt_tunnel.CryptoManager
use mqtt_tunnel.Libraries.{Libraries}
use mqtt_tunnel.MqttChannels
use mqtt_tunnel.TunDevice
use mqtt_tunnel.TunnelServer.State.{TunnelServer}

-- `run_flag` is whether the pointer is set.
pub record TunnelServerBuilder : Type 0 where
  pub run_flag : Bool
  pub broker_address : Str
  pub command_channel_name : Str
  pub tun_device_name : Str
  pub ip_pool_base : Str
  pub ip_pool_size : ℕ
  pub enable_encryption : Bool
  pub interface_name : Str

abbrev pub new_builder : TunnelServerBuilder
new_builder = record {
  run_flag = false;
  broker_address = [];
  command_channel_name = [];
  tun_device_name = codes "tun0";
  ip_pool_base = codes "10.0.0.0";
  ip_pool_size = 253;
  enable_encryption = true;
  interface_name = [];
}

abbrev pub set_broker_address : Str → TunnelServerBuilder → TunnelServerBuilder
set_broker_address v b = record b { broker_address = v }

abbrev pub set_command_channel_name : Str → TunnelServerBuilder → TunnelServerBuilder
set_command_channel_name v b = record b { command_channel_name = v }

abbrev pub set_tun_device_name : Str → TunnelServerBuilder → TunnelServerBuilder
set_tun_device_name v b = record b { tun_device_name = v }

abbrev pub set_ip_pool_base : Str → TunnelServerBuilder → TunnelServerBuilder
set_ip_pool_base v b = record b { ip_pool_base = v }

abbrev pub set_ip_pool_size : ℕ → TunnelServerBuilder → TunnelServerBuilder
set_ip_pool_size v b = record b { ip_pool_size = v }

abbrev pub set_global_run_flag : TunnelServerBuilder → TunnelServerBuilder
set_global_run_flag b = record b { run_flag = true }

abbrev pub set_enable_encryption : Bool → TunnelServerBuilder → TunnelServerBuilder
set_enable_encryption v b = record b { enable_encryption = v }

abbrev pub set_interface_name : Str → TunnelServerBuilder → TunnelServerBuilder
set_interface_name v b = record b { interface_name = v }

-- The `unsigned int` of the builder as the `int` of the pool.
abbrev pub to_int : ℕ → ℤ
to_int n = if ltb n (2 ^ 31) then pos n else negsuc (2 ^ 32 - 1 - n)

members : Libraries → TunnelServerBuilder → IpPool → CryptoManager → TunnelServer
members lib b pool crypto = record {
  mqtt_channels = MqttChannels.create b.broker_address b.command_channel_name;
  tun_device = (TunDevice.create lib.kernel b.tun_device_name []).0;
  ip_pool = pool;
  command_channel_name = b.command_channel_name;
  active_clients = [];
  own_ip_address = [];
  global_run_flag = b.run_flag;
  crypto_manager = crypto;
  command_channel_connected = false;
  data_channel_connected = false;
  encryption_enabled = b.enable_encryption;
  interface_name = b.interface_name;
  tunnel_active = false;
  thread_running = false;
  handshake_states = [];
  effects = [];
}

with_manager :
    Libraries
    → TunnelServerBuilder
    → IpPool
    → Result CryptoManager × FileSystem
    → Result TunnelServer × FileSystem
unfolding members MqttChannels.create TunDevice.create
with_manager lib b pool (ok crypto, fs) = (ok (members lib b pool crypto), fs)
with_manager lib b pool (throw e, fs) = (throw e, fs)
with_manager lib b pool (fault, fs) = (fault, fs)

with_pool :
    Libraries
    → ℕ
    → TunnelServerBuilder
    → FileSystem
    → Result IpPool
    → Result TunnelServer × FileSystem
unfolding with_manager
with_pool lib entropy b fs (ok pool) =
    with_manager lib b pool
      (CryptoManager.create lib.sodium entropy role_server b.enable_encryption false fs)
with_pool lib entropy b fs (throw e) = (throw e, fs)
with_pool lib entropy b fs fault = (fault, fs)

-- `TunnelServer::TunnelServer`, at what the builder hands to it: the members in the order of their
-- declaration, so the pool before the crypto manager.
unfoldable pub create :
    Libraries → ℕ → TunnelServerBuilder → FileSystem → Result TunnelServer × FileSystem
unfolding with_pool
create lib entropy b fs =
    with_pool lib entropy b fs (IpPool.create b.ip_pool_base (to_int b.ip_pool_size))

-- `TunnelServerBuilder::build`
unfoldable pub build :
    Libraries → ℕ → FileSystem → TunnelServerBuilder → Result TunnelServer × FileSystem
unfolding create
build lib entropy fs b =
    if empty b.broker_address || empty b.command_channel_name
    then (throw (runtime_error (codes "Broker address and command channel name must be set")), fs)
    else create lib entropy b fs
