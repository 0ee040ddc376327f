-- ===== src/Messages/Session.antt =====
-- src/messages.h: the reset (which nothing sends) and the termination of a session.
use mqtt_tunnel.Base.{[], ◌∷◌, Result, ok, ◌>>=◌}
use mqtt_tunnel.Base.Text.{Str, codes}
use mqtt_tunnel.Base.Int.{pos}
use mqtt_tunnel.Cereal.{int, str, Document, load_str, load_bool, load_enum, load_vector, load_array}
use mqtt_tunnel.Messages.Identifier.{
  MessageIdentifier, identifier_to_number, identifier_of_number, Serializable,
}

pub record HandshakeRst : Type 0 where
  pub message_identifier : MessageIdentifier
  pub handshake_identifier : Str
  pub error_message : Str

abbrev save_handshake_rst : HandshakeRst → Document
save_handshake_rst m =
    (codes "message_identifier", int (pos (identifier_to_number m.message_identifier)))
    ∷ (codes "handshake_identifier", str m.handshake_identifier)
    ∷ (codes "error_message", str m.error_message)
    ∷ []

unfoldable pub load_handshake_rst : Document → Result HandshakeRst
unfolding load_str load_bool load_enum load_vector load_array
load_handshake_rst d = do
  identifier ← load_enum (codes "message_identifier") d
  handshake_identifier ← load_str (codes "handshake_identifier") d
  error_message ← load_str (codes "error_message") d
  ok (record {
    message_identifier = identifier_of_number identifier;
    handshake_identifier = handshake_identifier;
    error_message = error_message;
  })

instance abbrev pub handshake_rst_serializable : Serializable HandshakeRst
unfolding load_handshake_rst
handshake_rst_serializable = record { save = save_handshake_rst; load = load_handshake_rst }

pub record SessionTermination : Type 0 where
  pub message_identifier : MessageIdentifier
  pub client_id : Str
  pub session_id : Str
  pub reason : Str

abbrev save_session_termination : SessionTermination → Document
save_session_termination m =
    (codes "message_identifier", int (pos (identifier_to_number m.message_identifier)))
    ∷ (codes "client_id", str m.client_id)
    ∷ (codes "session_id", str m.session_id)
    ∷ (codes "reason", str m.reason)
    ∷ []

unfoldable pub load_session_termination : Document → Result SessionTermination
unfolding load_str load_bool load_enum load_vector load_array
load_session_termination d = do
  identifier ← load_enum (codes "message_identifier") d
  client_id ← load_str (codes "client_id") d
  session_id ← load_str (codes "session_id") d
  reason ← load_str (codes "reason") d
  ok (record {
    message_identifier = identifier_of_number identifier;
    client_id = client_id;
    session_id = session_id;
    reason = reason;
  })

instance abbrev pub session_termination_serializable : Serializable SessionTermination
unfolding load_session_termination
session_termination_serializable = record {
  save = save_session_termination;
  load = load_session_termination;
}
