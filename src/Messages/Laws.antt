-- ===== src/Messages/Laws.antt =====
-- src/messages.h: every message is read back, and the header names its kind.
use mqtt_tunnel.Base.{ok, ◌≡◌, ◌∙◌, arith, length}
use mqtt_tunnel.Base.Int.{pos}
use mqtt_tunnel.Base.Text.{Str}
use mqtt_tunnel.Cereal.{Cereal, CerealLaws, Document}
use mqtt_tunnel.Sodium.{crypto_kx_publickeybytes, crypto_sign_bytes}
use mqtt_tunnel.Messages.Identifier.{MessageIdentifier, identifier_to_number}
use mqtt_tunnel.Messages.Serializer.{to_string, from_string, header_from_string, load_header}
use mqtt_tunnel.Messages.RoundTrip.{
  IsListed, IsListedMode, identifier_small, saved, load_client_hello_save, load_server_hello_save,
  load_client_ack_save, load_server_ack_save, load_handshake_rst_save,
  load_session_termination_save, load_client_hello_crypto_save, load_server_hello_crypto_save,
  load_encrypted_wrapper_save,
}
use mqtt_tunnel.Messages.Handshake.{
  ClientHello, client_hello_serializable, load_client_hello, ServerHello, server_hello_serializable,
  load_server_hello, ClientAck, client_ack_serializable, load_client_ack, ServerAck,
  server_ack_serializable, load_server_ack,
}
use mqtt_tunnel.Messages.Session.{
  HandshakeRst, handshake_rst_serializable, load_handshake_rst, SessionTermination,
  session_termination_serializable, load_session_termination,
}
use mqtt_tunnel.Messages.Crypto.{
  ClientHelloCrypto, client_hello_crypto_serializable, load_client_hello_crypto, ServerHelloCrypto,
  server_hello_crypto_serializable, load_server_hello_crypto, EncryptedWrapper,
  encrypted_wrapper_serializable, load_encrypted_wrapper,
}

-- Any of the messages, to state what holds of all of them.
pub data Message : Type 0 where
  a_client_hello : ClientHello → Message
  a_server_hello : ServerHello → Message
  a_client_ack : ClientAck → Message
  a_server_ack : ServerAck → Message
  a_handshake_rst : HandshakeRst → Message
  a_session_termination : SessionTermination → Message
  a_client_hello_crypto : ClientHelloCrypto → Message
  a_server_hello_crypto : ServerHelloCrypto → Message
  a_encrypted_wrapper : EncryptedWrapper → Message

abbrev pub identifier : Message → MessageIdentifier
identifier (a_client_hello m) = m.message_identifier
identifier (a_server_hello m) = m.message_identifier
identifier (a_client_ack m) = m.message_identifier
identifier (a_server_ack m) = m.message_identifier
identifier (a_handshake_rst m) = m.message_identifier
identifier (a_session_termination m) = m.message_identifier
identifier (a_client_hello_crypto m) = m.message_identifier
identifier (a_server_hello_crypto m) = m.message_identifier
identifier (a_encrypted_wrapper m) = m.message_identifier

-- The arrays have their sizes, and the enumerations their enumerators.
abbrev HasSizes : Message → Type 0
HasSizes (a_client_hello m) = IsListedMode m.tunnel_mode
HasSizes (a_client_hello_crypto m) = length m.client_ephemeral_public_key ≡ crypto_kx_publickeybytes
HasSizes (a_server_hello_crypto m) =
    (length m.server_ephemeral_public_key ≡ crypto_kx_publickeybytes)
    × (length m.signature_message ≡ crypto_sign_bytes)
HasSizes _ = Unit

abbrev pub IsWellFormed : Message → Type 0
IsWellFormed m = IsListed (identifier m) × HasSizes m

abbrev pub text : Cereal → Message → Str
text c (a_client_hello m) = to_string c m
text c (a_server_hello m) = to_string c m
text c (a_client_ack m) = to_string c m
text c (a_server_ack m) = to_string c m
text c (a_handshake_rst m) = to_string c m
text c (a_session_termination m) = to_string c m
text c (a_client_hello_crypto m) = to_string c m
text c (a_server_hello_crypto m) = to_string c m
text c (a_encrypted_wrapper m) = to_string c m

abbrev pub ReadsBack : Cereal → Message → Type 0
ReadsBack c (a_client_hello m) = from_string c (to_string c m) ≡ ok m
ReadsBack c (a_server_hello m) = from_string c (to_string c m) ≡ ok m
ReadsBack c (a_client_ack m) = from_string c (to_string c m) ≡ ok m
ReadsBack c (a_server_ack m) = from_string c (to_string c m) ≡ ok m
ReadsBack c (a_handshake_rst m) = from_string c (to_string c m) ≡ ok m
ReadsBack c (a_session_termination m) = from_string c (to_string c m) ≡ ok m
ReadsBack c (a_client_hello_crypto m) = from_string c (to_string c m) ≡ ok m
ReadsBack c (a_server_hello_crypto m) = from_string c (to_string c m) ≡ ok m
ReadsBack c (a_encrypted_wrapper m) = from_string c (to_string c m) ≡ ok m

-- Every message with listed enumerators and full arrays is read back as it was written, where the
-- JSON library reads what it wrote.
pub from_string-to_string :
    (c : Cereal) (m : Message) → CerealLaws c → IsWellFormed m → ReadsBack c m
unfolding load_client_hello load_server_hello load_client_ack load_server_ack load_handshake_rst
    load_session_termination load_client_hello_crypto load_server_hello_crypto
    load_encrypted_wrapper
from_string-to_string c (a_client_hello m) laws w =
    saved c laws m ∙ load_client_hello_save m w.0 w.1
from_string-to_string c (a_server_hello m) laws w = saved c laws m ∙ load_server_hello_save m w.0
from_string-to_string c (a_client_ack m) laws w = saved c laws m ∙ load_client_ack_save m w.0
from_string-to_string c (a_server_ack m) laws w = saved c laws m ∙ load_server_ack_save m w.0
from_string-to_string c (a_handshake_rst m) laws w = saved c laws m ∙ load_handshake_rst_save m w.0
from_string-to_string c (a_session_termination m) laws w =
    saved c laws m ∙ load_session_termination_save m w.0
from_string-to_string c (a_client_hello_crypto m) laws w =
    saved c laws m ∙ load_client_hello_crypto_save m w.0 w.1
from_string-to_string c (a_server_hello_crypto m) laws w =
    saved c laws m ∙ load_server_hello_crypto_save m w.0 w.1.0 w.1.1
from_string-to_string c (a_encrypted_wrapper m) laws w =
    saved c laws m ∙ load_encrypted_wrapper_save m w.0

header_saved :
    (c : Cereal) (d : Document) → CerealLaws c → header_from_string c (c.write d) ≡ load_header d
unfolding header_from_string
header_saved c d laws = rw (laws.parse-write d)

-- The header of every message with a listed identifier, read without knowing its kind, is the
-- number of the identifier, where the JSON library reads what it wrote.
pub header_from_string-text :
    (c : Cereal) (m : Message)
    → CerealLaws c
    → IsListed (identifier m)
    → header_from_string c (text c m)
      ≡ ok (record { type = pos (identifier_to_number (identifier m)) })
unfolding to_string load_header load_client_hello load_server_hello load_client_ack load_server_ack
    load_handshake_rst load_session_termination load_client_hello_crypto load_server_hello_crypto
    load_encrypted_wrapper
header_from_string-text c (a_client_hello m) laws w =
    header_saved c _ laws ∙ ground (arith, identifier_small m.message_identifier w)
header_from_string-text c (a_server_hello m) laws w =
    header_saved c _ laws ∙ ground (arith, identifier_small m.message_identifier w)
header_from_string-text c (a_client_ack m) laws w =
    header_saved c _ laws ∙ ground (arith, identifier_small m.message_identifier w)
header_from_string-text c (a_server_ack m) laws w =
    header_saved c _ laws ∙ ground (arith, identifier_small m.message_identifier w)
header_from_string-text c (a_handshake_rst m) laws w =
    header_saved c _ laws ∙ ground (arith, identifier_small m.message_identifier w)
header_from_string-text c (a_session_termination m) laws w =
    header_saved c _ laws ∙ ground (arith, identifier_small m.message_identifier w)
header_from_string-text c (a_client_hello_crypto m) laws w =
    header_saved c _ laws ∙ ground (arith, identifier_small m.message_identifier w)
header_from_string-text c (a_server_hello_crypto m) laws w =
    header_saved c _ laws ∙ ground (arith, identifier_small m.message_identifier w)
header_from_string-text c (a_encrypted_wrapper m) laws w =
    header_saved c _ laws ∙ ground (arith, identifier_small m.message_identifier w)
