-- ===== src/Tests/Sessions.antt =====
-- The session map of two clients.
use mqtt_tunnel.Base.{◌≡◌, refl, true, [], ◌∷◌}
use mqtt_tunnel.Base.Text.{Str, codes, str_eq}
use mqtt_tunnel.Types.{SessionConfig, empty_config}
use mqtt_tunnel.SessionMap.{SessionMap, get_session_by_ip}

abbrev config_at : Str → SessionConfig
config_at address = record empty_config { client_address = address }

abbrev two_sessions : SessionMap
two_sessions =
    (codes "a", config_at (codes "10.0.0.2")) ∷ (codes "b", config_at (codes "10.0.0.3")) ∷ []

finds_second :
    get_session_by_ip two_sessions (codes "10.0.0.3") empty_config
    ≡ (true, config_at (codes "10.0.0.3"))
unfolding get_session_by_ip str_eq
finds_second = refl
