-- ===== src/TunnelServer/State.antt =====
-- src/TunnelServer.hpp: the members of the server, and its calls of the MQTT library.
use mqtt_tunnel.Base.{Bool, List, [], ◌∷◌, ◌++◌, Result}
use mqtt_tunnel.Base.Text.{Str}
use mqtt_tunnel.Base.Dict.{Dict}
use mqtt_tunnel.Base.State.{Method}
use mqtt_tunnel.Types.{SessionConfig}
use mqtt_tunnel.IpPool.{IpPool}
use mqtt_tunnel.SessionMap.{SessionMap}
use mqtt_tunnel.CryptoManager.{CryptoManager}
use mqtt_tunnel.MqttChannels.{MqttChannels}
use mqtt_tunnel.TunDevice.{TunDevice}
use mqtt_tunnel.Libraries.Calls.{HasLog}
use mqtt_tunnel.Libraries.{Effect}

-- `global_run_flag` is whether the pointer is set. `effects` is the log of what the server did to the outside; `thread_running` is whether the TUN
-- thread can be joined.
pub record TunnelServer : Type 0 where
  pub mqtt_channels : MqttChannels
  pub tun_device : TunDevice
  pub ip_pool : IpPool
  pub command_channel_name : Str
  pub active_clients : SessionMap
  pub own_ip_address : Str
  pub global_run_flag : Bool
  pub crypto_manager : CryptoManager
  pub command_channel_connected : Bool
  pub data_channel_connected : Bool
  pub encryption_enabled : Bool
  pub interface_name : Str
  pub tunnel_active : Bool
  pub thread_running : Bool
  pub handshake_states : Dict SessionConfig
  pub effects : List Effect

abbrev pub Server : Type 0 → Type 0
Server = Method TunnelServer

instance abbrev pub server_log : HasLog TunnelServer
server_log = record { add = λ e s. record s { effects = s.effects ++ e ∷ [] } }

-- A method of the crypto manager, run on the server's.
lifted {ℓ} : {A : Type ℓ} → TunnelServer → Result A × CryptoManager → Result A × TunnelServer
lifted s (r, m) = (r, record s { crypto_manager = m })

unfoldable pub with_crypto : {A : Type 0} → Method CryptoManager A → Server A
unfolding lifted
with_crypto f s = lifted s (f s.crypto_manager)
