-- ===== src/Types.antt =====
-- src/types.hpp: the enumerations and the configuration of a session.
use mqtt_tunnel.Base.{ℕ, Bool, true, false, [], ◌==◌, if◌then◌else◌}
use mqtt_tunnel.Base.Text.{Str}

pub data SessionState : Type 0 where
  handshake_client_hello handshake_server_hello handshake_client_ack : SessionState
  handshake_server_ack active unknown : SessionState

-- The mode is read from the network as a number: `other_mode` is a value with no enumerator.
pub data TunnelMode : Type 0 where
  connection gateway : TunnelMode
  other_mode : ℕ → TunnelMode

abbrev pub mode_to_number : TunnelMode → ℕ
mode_to_number connection = 0
mode_to_number gateway = 1
mode_to_number (other_mode n) = n

abbrev pub mode_of_number : ℕ → TunnelMode
mode_of_number n = if n == 0 then connection else if n == 1 then gateway else other_mode n

-- `mode == TunnelMode::GATEWAY`, and the comparison of session states.
abbrev pub is_gateway : TunnelMode → Bool
is_gateway gateway = true
is_gateway _ = false

abbrev pub is_client_hello : SessionState → Bool
is_client_hello handshake_client_hello = true
is_client_hello _ = false

abbrev pub is_client_ack : SessionState → Bool
is_client_ack handshake_client_ack = true
is_client_ack _ = false

pub record SessionConfig : Type 0 where
  pub client_id : Str
  pub client_address : Str
  pub server_address : Str
  pub topic_inbound : Str
  pub topic_outbound : Str
  pub session_id : Str
  pub handshake_identifier : Str
  pub session_state : SessionState
  pub tunnel_mode : TunnelMode

-- `SessionConfig()`, which the maps' `operator[]` makes for a missing key: empty strings and the
-- first enumerators.
abbrev pub empty_config : SessionConfig
empty_config = record {
  client_id = [];
  client_address = [];
  server_address = [];
  topic_inbound = [];
  topic_outbound = [];
  session_id = [];
  handshake_identifier = [];
  session_state = handshake_client_hello;
  tunnel_mode = connection;
}
