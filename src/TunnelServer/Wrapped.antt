-- ===== src/TunnelServer/Wrapped.antt =====
-- src/TunnelServer.cpp, `case ENCRYPTED_WRAPPER`: what was encrypted is handled as the plain message.
use mqtt_tunnel.Base.{ℕ, ◌+◌, ◌≤◌, ◌≡◌, ◌∙◌, ap, some, ok, length}
use mqtt_tunnel.Base.Text.{Str}
use mqtt_tunnel.Base.Dict.{lookup}
use mqtt_tunnel.Base.State.{bind_ok, call}
use mqtt_tunnel.Cereal.{CerealLaws}
use mqtt_tunnel.Sodium.{SodiumLaws}
use mqtt_tunnel.Messages.{
  to_string, header_from_string, MessageHeader, identifier_of_int, EncryptedWrapper,
  encrypted_wrapper, encrypted_wrapper_serializable,
}
use mqtt_tunnel.Messages.Laws.{a_encrypted_wrapper, from_string-to_string, header_from_string-text}
use mqtt_tunnel.CryptoManager.{CryptoManager, CryptoSessionConfig, encrypt_data, max_size}
use mqtt_tunnel.CryptoManager.PacketLaws.{decrypt_data-encrypt_data}
use mqtt_tunnel.Libraries.{Libraries, Moment}
use mqtt_tunnel.TunnelServer.State.{TunnelServer}
use mqtt_tunnel.TunnelServer.Handshake.{handle_client_handshake}
use mqtt_tunnel.TunnelServer.Loop.{handle_message, dispatch, on_encrypted_wrapper}

abbrev pub wrapper_for : Str → Str → EncryptedWrapper
wrapper_for id packet = record {
  message_identifier = encrypted_wrapper;
  client_id = id;
  encrypted_payload = packet;
}

-- A message that a client encrypted under its session and put in a wrapper is handled by the server
-- as the handshake handler handles the plain message, where client and server hold mirrored keys
-- under the session's identifier, the plain message has a header and is at most of the largest size
-- of a vector, and the two libraries keep their laws.
pub handle_message-wrapped :
    (lib : Libraries) (at : Moment) (s : TunnelServer) (m : CryptoManager) (id plain packet : Str)
    (a b : CryptoSessionConfig) (entropy : ℕ) (header : MessageHeader)
    → CerealLaws lib.cereal
    → SodiumLaws lib.sodium
    → lookup id m.session_map ≡ some a
    → lookup id s.crypto_manager.session_map ≡ some b
    → a.tx ≡ b.rx
    → length plain + 40 ≤ max_size
    → encrypt_data lib.sodium entropy m plain id ≡ ok packet
    → header_from_string lib.cereal plain ≡ ok header
    → handle_message lib at (to_string lib.cereal (wrapper_for id packet)) s
      ≡ handle_client_handshake lib at plain (identifier_of_int header.type) s
unfolding handle_message dispatch on_encrypted_wrapper
handle_message-wrapped lib at s m id plain packet a b entropy header laws crypto ha hb keys small e
      h =
    bind_ok (call _) _ (
      ap (λ r. (r, s))
        (header_from_string-text lib.cereal (a_encrypted_wrapper (wrapper_for id packet)) laws tt))
    ∙ bind_ok (call _) _ (
        ap (λ r. (r, s))
          (from_string-to_string lib.cereal (a_encrypted_wrapper (wrapper_for id packet)) laws
            (tt, tt)))
    ∙ bind_ok (call _) _ (
        ap (λ r. (r, s))
          (decrypt_data-encrypt_data lib.sodium m s.crypto_manager id id plain packet a b entropy
            crypto ha hb keys small e))
    ∙ bind_ok (call _) _ (ap (λ r. (r, s)) h)
