-- ===== src/TunnelClient/State.antt =====
-- src/TunnelClient.hpp: the members of the client; src/TunnelClient.cpp: how it waits for an answer.
use mqtt_tunnel.Base.{ℕ, zero, suc, Bool, Option, none, some, List, [], ◌∷◌, ◌++◌, Result, ok}
use mqtt_tunnel.Base.Text.{Str}
use mqtt_tunnel.Base.State.{Method}
use mqtt_tunnel.Types.{SessionConfig, TunnelMode}
use mqtt_tunnel.CryptoManager.{CryptoManager}
use mqtt_tunnel.MqttChannels.{MqttChannels}
use mqtt_tunnel.TunDevice.{TunDevice}
use mqtt_tunnel.Libraries.{Effect}
use mqtt_tunnel.Libraries.Calls.{HasLog}

-- `effects` is the log of what the client did to the outside. `inbox` is what the coming calls of
-- `try_consume_message` on the command channel find, `none` for nothing; after it they find nothing.
pub record TunnelClient : Type 0 where
  pub mqtt_channels : MqttChannels
  pub tun_device : TunDevice
  pub command_channel_name : Str
  pub client_base_id : Str
  pub session_config : SessionConfig
  pub session_configured : Bool
  pub encryption_enabled : Bool
  pub tunnel_active : Bool
  pub thread_running : Bool
  pub crypto_manager : CryptoManager
  pub ignore_server_authentication : Bool
  pub tunnel_mode : TunnelMode
  pub inbox : List (Option Str)
  pub effects : List Effect

abbrev pub Client : Type 0 → Type 0
Client = Method TunnelClient

instance abbrev pub client_log : HasLog TunnelClient
client_log = record { add = λ e s. record s { effects = s.effects ++ e ∷ [] } }

lifted : {A : Type 0} → TunnelClient → Result A × CryptoManager → Result A × TunnelClient
lifted s (r, m) = (r, record s { crypto_manager = m })

unfoldable pub with_crypto : {A : Type 0} → Method CryptoManager A → Client A
unfolding lifted
with_crypto f s = lifted s (f s.crypto_manager)

-- The loop `while (trials < 3)`: a message that is found ends it, and replaces `response`; nothing
-- found leaves `response` as it was.
unfoldable pub poll : ℕ → Option Str → List (Option Str) → Option Str × List (Option Str)
poll zero response inbox = (response, inbox)
poll (suc trials) response [] = (response, [])
poll (suc trials) response (some message ∷ inbox) = (some message, inbox)
poll (suc trials) response (none ∷ inbox) = poll trials response inbox

unfoldable pub wait_for : Option Str → Client (Option Str)
unfolding poll
wait_for response s =
    let (found, rest) = poll 3 response s.inbox in (ok found, record s { inbox = rest })
