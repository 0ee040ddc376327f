-- ===== src/Libraries.antt =====
-- The parts outside the repository that client and server use together, and what the two do to the
-- outside world, as a log in the order of the calls.
pub mod Calls
pub mod Observations
use mqtt_tunnel.Base.{ℕ, Bool, ◌-◌, take}
use mqtt_tunnel.Base.Text.{Str}
use mqtt_tunnel.Cereal.{Cereal}
use mqtt_tunnel.Sodium.{Sodium}
use mqtt_tunnel.Helpers.{HelperLibrary}
use mqtt_tunnel.TunDevice.{Kernel}

-- The command and the data client of src/MQTTChannels.hpp.
pub data Channel : Type 0 where
  command data_channel : Channel

-- The MQTT client library: whether a call succeeds. One that fails throws `mqtt::exception`.
pub record Mqtt : Type 0 where
  pub connects : Channel → Bool
  pub subscribes : Channel → Str → Bool
  pub publishes : Channel → Str → Str → Bool

pub record Libraries : Type 0 where
  pub cereal : Cereal
  pub sodium : Sodium
  pub helpers : HelperLibrary
  pub mqtt : Mqtt
  pub kernel : Kernel

-- The clock's count, and the entropy that a call of the random number generator draws.
pub record Moment : Type 0 where
  pub now : ℕ
  pub entropy : ℕ

-- `published channel topic payload qos`, `subscribed channel topic qos`; `ran_command` is `system`.
pub data Effect : Type 0 where
  connected disconnected : Channel → Effect
  subscribed : Channel → Str → ℕ → Effect
  published : Channel → Str → Str → ℕ → Effect
  ran_command : Str → Effect
  callback_set thread_started thread_joined : Effect

-- `snprintf` into a buffer of `n` bytes.
abbrev pub snprintf : ℕ → Str → Str
snprintf n s = take (n - 1) s
