-- ===== src/Libraries/Calls.antt =====
-- The calls of client and server that reach the outside world, over any object that keeps a log.
use mqtt_tunnel.Base.{ℕ, Bool, true, false, throw, mqtt_exception}
use mqtt_tunnel.Base.Text.{Str}
use mqtt_tunnel.Helpers.{c_string}
use mqtt_tunnel.Base.State.{Method, modify, call}
use mqtt_tunnel.Libraries.{
  Libraries, Channel, Effect, connected, subscribed, published, ran_command,
}

pub record HasLog (S : Type 0) : Type 0 where
  pub add : Effect → S → S

module _ {S : Type 0} ⦃l : HasLog S⦄ where
  unfoldable pub log : Effect → S → S
  log = l.add

  attempt : Bool → Effect → Method S (Unit {0})
  unfolding log
  attempt true e = modify (log e)
  attempt false e = call (λ s. throw mqtt_exception)

  unfoldable pub connect : Libraries → Channel → Method S (Unit {0})
  unfolding attempt
  connect lib c = attempt (lib.mqtt.connects c) (connected c)

  unfoldable pub subscribe : Libraries → Channel → Str → ℕ → Method S (Unit {0})
  unfolding attempt
  subscribe lib c topic qos = attempt (lib.mqtt.subscribes c topic) (subscribed c topic qos)

  unfoldable pub publish : Libraries → Channel → Str → Str → ℕ → Method S (Unit {0})
  unfolding attempt
  publish lib c topic payload qos =
      attempt (lib.mqtt.publishes c topic payload) (published c topic payload qos)

  -- `system`, on a C string.
  unfoldable pub run_command : Str → Method S (Unit {0})
  unfolding log
  run_command cmd = modify (log (ran_command (c_string cmd)))
