-- ===== src/SessionMap.antt =====
-- src/SessionMap.hpp: the sessions by client id, at the type `SessionConfig` of its one use. The
-- mutex makes each method atomic. `config` is the output parameter: the caller's value stays where
-- nothing is found.
pub mod Search
use mqtt_tunnel.Base.{
  Bool, true, false, Option, none, some, [], ◌∷◌, ◌≡◌, refl, arith, if◌then◌else◌,
}
use mqtt_tunnel.Base.Text.{Str, str_eq, str_eq_iff}
use mqtt_tunnel.Base.Dict.{Dict, lookup, insert, erase, lookup-insert, lookup-erase}
use mqtt_tunnel.Types.{SessionConfig}

abbrev pub SessionMap : Type 0
SessionMap = Dict SessionConfig

-- `SessionMap::add_session`
unfoldable pub add_session : SessionMap → Str → SessionConfig → SessionMap
add_session m client_id config = insert client_id config m

abbrev found : SessionConfig → Option SessionConfig → Bool × SessionConfig
found config none = (false, config)
found config (some c) = (true, c)

-- `SessionMap::get_session`
unfoldable pub get_session : SessionMap → Str → SessionConfig → Bool × SessionConfig
get_session m client_id config = found config (lookup client_id m)

-- `SessionMap::get_session_by_ip`: the first session in the order of the keys.
unfoldable pub get_session_by_ip : SessionMap → Str → SessionConfig → Bool × SessionConfig
get_session_by_ip [] client_ip config = (false, config)
get_session_by_ip ((k, c) ∷ m) client_ip config =
    if str_eq c.client_address client_ip then (true, c) else get_session_by_ip m client_ip config

-- `SessionMap::remove_session`
unfoldable pub remove_session : SessionMap → Str → SessionMap
remove_session m client_id = erase client_id m

-- After `add_session` the client has the new session, and every other client the one it had.
pub get_session-add_session :
    (m : SessionMap) (k j : Str) (c config : SessionConfig)
    → get_session (add_session m k c) j config
      ≡ (if str_eq k j then (true, c) else get_session m j config)
unfolding get_session add_session
get_session-add_session m k j c config = ground (arith, lookup-insert k j c m)

-- After `remove_session` the client has no session, and every other client the one it had.
pub get_session-remove_session :
    (m : SessionMap) (k j : Str) (config : SessionConfig)
    → get_session (remove_session m k) j config
      ≡ (if str_eq k j then (false, config) else get_session m j config)
unfolding get_session remove_session
get_session-remove_session m k j config = ground (arith, lookup-erase k j m)

pub get_session_found :
    (m : SessionMap) (id : Str) (config : SessionConfig)
    → (get_session m id config).0 ≡ true
    → lookup id m ≡ some (get_session m id config).1
unfolding get_session
get_session_found m id config h = ground arith
