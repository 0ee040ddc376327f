-- ===== src/MqttChannels.antt =====
-- src/MQTTChannels.hpp and src/MQTTChannels.cpp: the two clients of the MQTT library that client and
-- server hold. The library is a parameter: a client is what it was constructed with.
pub mod Ids
use mqtt_tunnel.Base.{ℕ, Bool, Option, none, some, ◌++◌}
use mqtt_tunnel.Base.Text.{Str, codes}
use mqtt_tunnel.Base.Int.{ℤ}
use mqtt_tunnel.TunCallback.{TunCallback, new_callback}

pub record MqttClient : Type 0 where
  pub server_uri : Str
  pub client_id : Str

-- `tun_callback` is the member that keeps the callback alive, `data_callback` the one that the data
-- client was given.
pub record MqttChannels : Type 0 where
  pub command_client : MqttClient
  pub data_client : MqttClient
  pub tun_callback : Option TunCallback
  pub data_callback : Option TunCallback

-- `MQTTChannels::MQTTChannels`
unfoldable pub create : Str → Str → MqttChannels
create broker_address client_base_id = record {
  command_client = record {
    server_uri = broker_address;
    client_id = client_base_id ++ codes "_cmd";
  };
  data_client = record { server_uri = broker_address; client_id = client_base_id ++ codes "_data" };
  tun_callback = none;
  data_callback = none;
}

-- `set_tun_callback`: the crypto manager is the one of the object that holds the channels.
unfoldable pub set_tun_callback : ℤ → Bool → MqttChannels → MqttChannels
unfolding new_callback
set_tun_callback tun_fd encryption_enabled m = record m {
  tun_callback = some (new_callback tun_fd encryption_enabled);
  data_callback = some (new_callback tun_fd encryption_enabled);
}
