-- ===== src/Messages/Crypto.antt =====
-- src/messages.h: the key exchange and the encrypted wrapper. The arrays have the sizes that
-- libsodium documents: 32 bytes for an X25519 public key, 64 for an Ed25519 signature.
use mqtt_tunnel.Base.{ℕ, List, [], ◌∷◌, Result, ok, ◌>>=◌}
use mqtt_tunnel.Base.Text.{Str, codes}
use mqtt_tunnel.Base.Int.{pos}
use mqtt_tunnel.Cereal.{
  int, str, bytes, Document, load_str, load_bool, load_enum, load_vector, load_array,
}
use mqtt_tunnel.Sodium.{crypto_kx_publickeybytes, crypto_sign_bytes}
use mqtt_tunnel.Messages.Identifier.{
  MessageIdentifier, identifier_to_number, identifier_of_number, Serializable,
}

pub record ClientHelloCrypto : Type 0 where
  pub message_identifier : MessageIdentifier
  pub client_base_id : Str
  pub client_ephemeral_public_key : List ℕ

abbrev save_client_hello_crypto : ClientHelloCrypto → Document
save_client_hello_crypto m =
    (codes "message_identifier", int (pos (identifier_to_number m.message_identifier)))
    ∷ (codes "client_base_id", str m.client_base_id)
    ∷ (codes "client_ephemeral_public_key", bytes m.client_ephemeral_public_key)
    ∷ []

unfoldable pub load_client_hello_crypto : Document → Result ClientHelloCrypto
unfolding load_str load_bool load_enum load_vector load_array
load_client_hello_crypto d = do
  identifier ← load_enum (codes "message_identifier") d
  client_base_id ← load_str (codes "client_base_id") d
  client_ephemeral_public_key ←
      load_array (codes "client_ephemeral_public_key") d crypto_kx_publickeybytes
  ok (record {
    message_identifier = identifier_of_number identifier;
    client_base_id = client_base_id;
    client_ephemeral_public_key = client_ephemeral_public_key;
  })

instance abbrev pub client_hello_crypto_serializable : Serializable ClientHelloCrypto
unfolding load_client_hello_crypto
client_hello_crypto_serializable = record {
  save = save_client_hello_crypto;
  load = load_client_hello_crypto;
}

pub record ServerHelloCrypto : Type 0 where
  pub message_identifier : MessageIdentifier
  pub unique_identifier : Str
  pub server_ephemeral_public_key : List ℕ
  pub signature_message : List ℕ

abbrev save_server_hello_crypto : ServerHelloCrypto → Document
save_server_hello_crypto m =
    (codes "message_identifier", int (pos (identifier_to_number m.message_identifier)))
    ∷ (codes "unique_identifier", str m.unique_identifier)
    ∷ (codes "server_ephemeral_public_key", bytes m.server_ephemeral_public_key)
    ∷ (codes "signature_message", bytes m.signature_message)
    ∷ []

unfoldable pub load_server_hello_crypto : Document → Result ServerHelloCrypto
unfolding load_str load_bool load_enum load_vector load_array
load_server_hello_crypto d = do
  identifier ← load_enum (codes "message_identifier") d
  unique_identifier ← load_str (codes "unique_identifier") d
  server_ephemeral_public_key ←
      load_array (codes "server_ephemeral_public_key") d crypto_kx_publickeybytes
  signature_message ← load_array (codes "signature_message") d crypto_sign_bytes
  ok (record {
    message_identifier = identifier_of_number identifier;
    unique_identifier = unique_identifier;
    server_ephemeral_public_key = server_ephemeral_public_key;
    signature_message = signature_message;
  })

instance abbrev pub server_hello_crypto_serializable : Serializable ServerHelloCrypto
unfolding load_server_hello_crypto
server_hello_crypto_serializable = record {
  save = save_server_hello_crypto;
  load = load_server_hello_crypto;
}

pub record EncryptedWrapper : Type 0 where
  pub message_identifier : MessageIdentifier
  pub client_id : Str
  pub encrypted_payload : List ℕ

abbrev save_encrypted_wrapper : EncryptedWrapper → Document
save_encrypted_wrapper m =
    (codes "message_identifier", int (pos (identifier_to_number m.message_identifier)))
    ∷ (codes "client_id", str m.client_id)
    ∷ (codes "encrypted_payload", bytes m.encrypted_payload)
    ∷ []

unfoldable pub load_encrypted_wrapper : Document → Result EncryptedWrapper
unfolding load_str load_bool load_enum load_vector load_array
load_encrypted_wrapper d = do
  identifier ← load_enum (codes "message_identifier") d
  client_id ← load_str (codes "client_id") d
  encrypted_payload ← load_vector (codes "encrypted_payload") d
  ok (record {
    message_identifier = identifier_of_number identifier;
    client_id = client_id;
    encrypted_payload = encrypted_payload;
  })

instance abbrev pub encrypted_wrapper_serializable : Serializable EncryptedWrapper
unfolding load_encrypted_wrapper
encrypted_wrapper_serializable = record {
  save = save_encrypted_wrapper;
  load = load_encrypted_wrapper;
}
