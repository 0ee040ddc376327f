-- ===== src/TunCallback.antt =====
-- src/TunCallback.hpp and src/TunCallback.cpp: what arrives on the data channel goes to the TUN
-- device. The other callbacks only log, or are empty.
pub mod Delivery
use mqtt_tunnel.Base.Int.{ℤ}
use mqtt_tunnel.Base.{
  Bool, true, false, Option, none, some, Result, ok, throw, fault, if◌then◌else◌,
}
use mqtt_tunnel.Base.Text.{Str, empty}
use mqtt_tunnel.Helpers.{extract_client_id_from_topic}
use mqtt_tunnel.Sodium.{Sodium}
use mqtt_tunnel.CryptoManager.{CryptoManager, decrypt_data}

-- The members, but for the reference to the crypto manager of the owner.
pub record TunCallback : Type 0 where
  pub tun_fd : ℤ
  pub encryption_enabled : Bool

-- `TunCallback::TunCallback`
unfoldable pub new_callback : ℤ → Bool → TunCallback
new_callback tun_fd encryption_enabled = record {
  tun_fd = tun_fd;
  encryption_enabled = encryption_enabled;
}

-- The handler: an exception of the decryption is logged, and the packet dropped.
dropped_on_exception : Result Str → Result (Option Str)
dropped_on_exception (ok payload) = ok (some payload)
dropped_on_exception (throw e) = ok none
dropped_on_exception fault = fault

decrypted : Sodium → CryptoManager → Str → Str → Result (Option Str)
unfolding dropped_on_exception
decrypted s crypto client_id payload =
    if empty client_id
    then ok none
    else dropped_on_exception (decrypt_data s crypto payload client_id)

-- `TunCallback::message_arrived`: what it hands to `write` on the TUN device, if anything.
unfoldable pub message_arrived : Sodium → CryptoManager → Bool → Str → Str → Result (Option Str)
unfolding decrypted
message_arrived s crypto encryption_enabled topic payload =
    if encryption_enabled
    then decrypted s crypto (extract_client_id_from_topic topic) payload
    else ok (some payload)
