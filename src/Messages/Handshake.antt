-- ===== src/Messages/Handshake.antt =====
-- src/messages.h: the four messages of the session handshake.
use mqtt_tunnel.Base.{Bool, [], ◌∷◌, Result, ok, ◌>>=◌}
use mqtt_tunnel.Base.Text.{Str, codes}
use mqtt_tunnel.Base.Int.{pos}
use mqtt_tunnel.Types.{TunnelMode, mode_to_number, mode_of_number}
use mqtt_tunnel.Cereal.{
  int, str, bool, Document, load_str, load_bool, load_enum, load_vector, load_array,
}
use mqtt_tunnel.Messages.Identifier.{
  MessageIdentifier, identifier_to_number, identifier_of_number, Serializable,
}

-- Client Hello, which opens the handshake of a session.
pub record ClientHello : Type 0 where
  pub message_identifier : MessageIdentifier
  pub client_base_id : Str
  pub authentication : Bool
  pub auth_data : Str
  pub handshake_identifier : Str
  pub tunnel_mode : TunnelMode

abbrev save_client_hello : ClientHello → Document
save_client_hello m =
    (codes "message_identifier", int (pos (identifier_to_number m.message_identifier)))
    ∷ (codes "client_base_id", str m.client_base_id)
    ∷ (codes "authentication", bool m.authentication)
    ∷ (codes "auth_data", str m.auth_data)
    ∷ (codes "handshake_identifier", str m.handshake_identifier)
    ∷ (codes "tunnel_mode", int (pos (mode_to_number m.tunnel_mode)))
    ∷ []

unfoldable pub load_client_hello : Document → Result ClientHello
unfolding load_str load_bool load_enum load_vector load_array
load_client_hello d = do
  identifier ← load_enum (codes "message_identifier") d
  client_base_id ← load_str (codes "client_base_id") d
  authentication ← load_bool (codes "authentication") d
  auth_data ← load_str (codes "auth_data") d
  handshake_identifier ← load_str (codes "handshake_identifier") d
  tunnel_mode ← load_enum (codes "tunnel_mode") d
  ok (record {
    message_identifier = identifier_of_number identifier;
    client_base_id = client_base_id;
    authentication = authentication;
    auth_data = auth_data;
    handshake_identifier = handshake_identifier;
    tunnel_mode = mode_of_number tunnel_mode;
  })

instance abbrev pub client_hello_serializable : Serializable ClientHello
unfolding load_client_hello
client_hello_serializable = record { save = save_client_hello; load = load_client_hello }

-- Server Hello, which configures the client. The source spells one member `assigned_client_id_`.
pub record ServerHello : Type 0 where
  pub message_identifier : MessageIdentifier
  pub handshake_identifier : Str
  pub assigned_client_id : Str
  pub assigned_client_ip : Str
  pub server_address : Str
  pub assigned_inbound_topic : Str
  pub assigned_outbound_topic : Str
  pub session_id : Str

abbrev save_server_hello : ServerHello → Document
save_server_hello m =
    (codes "message_identifier", int (pos (identifier_to_number m.message_identifier)))
    ∷ (codes "handshake_identifier", str m.handshake_identifier)
    ∷ (codes "assigned_client_id_", str m.assigned_client_id)
    ∷ (codes "assigned_client_ip", str m.assigned_client_ip)
    ∷ (codes "server_address", str m.server_address)
    ∷ (codes "assigned_inbound_topic", str m.assigned_inbound_topic)
    ∷ (codes "assigned_outbound_topic", str m.assigned_outbound_topic)
    ∷ (codes "session_id", str m.session_id)
    ∷ []

unfoldable pub load_server_hello : Document → Result ServerHello
unfolding load_str load_bool load_enum load_vector load_array
load_server_hello d = do
  identifier ← load_enum (codes "message_identifier") d
  handshake_identifier ← load_str (codes "handshake_identifier") d
  assigned_client_id ← load_str (codes "assigned_client_id_") d
  assigned_client_ip ← load_str (codes "assigned_client_ip") d
  server_address ← load_str (codes "server_address") d
  assigned_inbound_topic ← load_str (codes "assigned_inbound_topic") d
  assigned_outbound_topic ← load_str (codes "assigned_outbound_topic") d
  session_id ← load_str (codes "session_id") d
  ok (record {
    message_identifier = identifier_of_number identifier;
    handshake_identifier = handshake_identifier;
    assigned_client_id = assigned_client_id;
    assigned_client_ip = assigned_client_ip;
    server_address = server_address;
    assigned_inbound_topic = assigned_inbound_topic;
    assigned_outbound_topic = assigned_outbound_topic;
    session_id = session_id;
  })

instance abbrev pub server_hello_serializable : Serializable ServerHello
unfolding load_server_hello
server_hello_serializable = record { save = save_server_hello; load = load_server_hello }

pub record ClientAck : Type 0 where
  pub message_identifier : MessageIdentifier
  pub client_id : Str
  pub handshake_identifier : Str

abbrev save_client_ack : ClientAck → Document
save_client_ack m =
    (codes "message_identifier", int (pos (identifier_to_number m.message_identifier)))
    ∷ (codes "client_id", str m.client_id)
    ∷ (codes "handshake_identifier", str m.handshake_identifier)
    ∷ []

unfoldable pub load_client_ack : Document → Result ClientAck
unfolding load_str load_bool load_enum load_vector load_array
load_client_ack d = do
  identifier ← load_enum (codes "message_identifier") d
  client_id ← load_str (codes "client_id") d
  handshake_identifier ← load_str (codes "handshake_identifier") d
  ok (record {
    message_identifier = identifier_of_number identifier;
    client_id = client_id;
    handshake_identifier = handshake_identifier;
  })

instance abbrev pub client_ack_serializable : Serializable ClientAck
unfolding load_client_ack
client_ack_serializable = record { save = save_client_ack; load = load_client_ack }

pub record ServerAck : Type 0 where
  pub message_identifier : MessageIdentifier
  pub handshake_identifier : Str

abbrev save_server_ack : ServerAck → Document
save_server_ack m =
    (codes "message_identifier", int (pos (identifier_to_number m.message_identifier)))
    ∷ (codes "handshake_identifier", str m.handshake_identifier)
    ∷ []

unfoldable pub load_server_ack : Document → Result ServerAck
unfolding load_str load_bool load_enum load_vector load_array
load_server_ack d = do
  identifier ← load_enum (codes "message_identifier") d
  handshake_identifier ← load_str (codes "handshake_identifier") d
  ok (record {
    message_identifier = identifier_of_number identifier;
    handshake_identifier = handshake_identifier;
  })

instance abbrev pub server_ack_serializable : Serializable ServerAck
unfolding load_server_ack
server_ack_serializable = record { save = save_server_ack; load = load_server_ack }
