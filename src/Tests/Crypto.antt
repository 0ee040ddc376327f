-- ===== src/Tests/Crypto.antt =====
-- The key exchange, packets and the identity of the server over a transparent stand-in for libsodium.
use mqtt_tunnel.Base.{
  ◌<◌, ◌≡◌, ◌↔◌, refl, true, false, [], ◌∷◌, ◌++◌, ok, throw, length_error, length, replicate,
  arith,
}
use mqtt_tunnel.Base.Text.{str_lt, str_eq, Str, codes}
use mqtt_tunnel.Base.Dict.{insert, lookup}
use mqtt_tunnel.Base.Decimal.{to_string}
use mqtt_tunnel.Sodium.Toy.{toy, toy_laws}
use mqtt_tunnel.Messages.{
  server_hello_crypto, client_hello_crypto, ClientHelloCrypto, ServerHelloCrypto,
}
use mqtt_tunnel.CryptoManager.{
  with_identity, CryptoManager, CryptoSessionConfig, ServerIdentity, FileSystem, role_client,
  role_server, fresh, create, generate_client_hello, establish_server_session,
  establish_client_session, encrypt_data, decrypt_data, load_local_server_identity,
  store_server_identity,
}
use mqtt_tunnel.CryptoManager.PacketLaws.{decrypt_data-length_error_iff}
use mqtt_tunnel.CryptoManager.Agreement.{Exchanged, decrypt_data_after_exchange}
use mqtt_tunnel.CryptoManager.Identity.{load-store_server_identity, create_again}

abbrev no_files : FileSystem
no_files = record { content = []; can_open = λ name. true; can_write = λ name. true }

-- The exchange: a client that skips the authentication, and a server.
abbrev pub client_start : CryptoManager
client_start = fresh role_client true true

abbrev pub server_start : CryptoManager
server_start = fresh role_server true false

abbrev pub client_between : CryptoManager
client_between = record client_start {
  client_buffer_ephemeral = record { public_key = replicate 32 3; secret_key = replicate 32 3 };
}

abbrev pub hello : ClientHelloCrypto
hello = record {
  message_identifier = client_hello_crypto;
  client_base_id = codes "a";
  client_ephemeral_public_key = replicate 32 3;
}

abbrev pub reply : ServerHelloCrypto
reply = record {
  message_identifier = server_hello_crypto;
  unique_identifier = codes "a_5";
  server_ephemeral_public_key = replicate 32 4;
  signature_message = replicate 64 0;
}

abbrev pub server_session : CryptoSessionConfig
server_session = record {
  rx = replicate 32 3 ++ replicate 32 4;
  tx = replicate 32 4 ++ replicate 32 3;
  signature_message = replicate 64 0;
}

abbrev pub client_session : CryptoSessionConfig
client_session = record {
  rx = replicate 32 4 ++ replicate 32 3;
  tx = replicate 32 3 ++ replicate 32 4;
  signature_message = [];
}

abbrev pub server_end : CryptoManager
server_end = record server_start { session_map = (codes "a_5", server_session) ∷ [] }

abbrev pub joined : CryptoManager → CryptoManager
joined m = record m {
  client_buffer_ephemeral = record { public_key = replicate 32 3; secret_key = replicate 32 0 };
  session_map = (codes "a_5", client_session) ∷ [];
}

abbrev pub client_end : CryptoManager
client_end = joined client_between

exchanged : Exchanged toy server_end client_end (codes "a_5")
unfolding generate_client_hello establish_server_session establish_client_session to_string lookup
exchanged = record {
  fs = no_files;
  client_entropy = 3;
  server_entropy = 4;
  now = 5;
  base = codes "a";
  server_before = server_start;
  client_before = client_start;
  client_between = client_between;
  hello = hello;
  reply = reply;
  greets = refl;
  answers = refl;
  joins = refl;
  names = refl;
  server_new = refl;
  client_new = refl;
}

-- The packet of the stand-in: nonce, an empty tag, the text.
abbrev packet_of : Str → Str
packet_of p = replicate 24 7 ++ (replicate 16 0 ++ p)

decrypt_data_after_exchange_example :
    (decrypt_data toy client_end (packet_of (codes "ping")) (codes "a_5") ≡ ok (codes "ping"))
    × (decrypt_data toy server_end (packet_of (codes "pong")) (codes "a_5") ≡ ok (codes "pong"))
unfolding encrypt_data lookup str_eq
decrypt_data_after_exchange_example =
    decrypt_data_after_exchange toy server_end client_end (codes "a_5") (codes "ping")
      (codes "pong") (packet_of (codes "ping")) (packet_of (codes "pong")) 7 7 toy_laws exchanged
      (omega arith) (omega arith) refl refl

decrypt_data-length_error_iff_example :
    (decrypt_data toy server_end (codes "short") (codes "a_5") ≡ throw length_error)
    ↔ (length (codes "short") < 40)
unfolding lookup str_eq
decrypt_data-length_error_iff_example =
    decrypt_data-length_error_iff toy server_end (codes "a_5") (codes "short") server_session refl
      (omega arith)

-- A client that authenticates the server, with the pinned key in its file.
abbrev strict_client : CryptoManager
strict_client = record client_between { skip_server_identity_verification = false }

abbrev pinned_files : FileSystem
pinned_files = record no_files { content = (codes "identity.pub", replicate 32 9) ∷ [] }

abbrev signed_reply : ServerHelloCrypto
signed_reply = record reply { signature_message = replicate 64 9 }

abbrev strict_end : CryptoManager
strict_end = joined (record strict_client {
  server_identity = record { public_key_id = replicate 32 9; secret_key_id = replicate 64 0 };
  server_identity_set = true;
})

abbrev identity : ServerIdentity
identity = record {
  public_key_id = replicate 32 6;
  secret_key_id = replicate 32 6 ++ replicate 32 6;
}

abbrev stored_files : FileSystem
stored_files = record no_files {
  content =
      (codes "ServerID.key", identity.secret_key_id)
      ∷ (codes "ServerID.pub", identity.public_key_id)
      ∷ [];
}

load-store_server_identity_example : load_local_server_identity stored_files ≡ ok identity
unfolding store_server_identity insert str_eq str_lt
load-store_server_identity_example =
    load-store_server_identity identity no_files stored_files refl refl refl

abbrev first_start : CryptoManager
first_start = with_identity (fresh role_server true false) identity

create_again_example :
    create toy 8 role_server true false stored_files ≡ (ok first_start, stored_files)
unfolding create store_server_identity load_local_server_identity lookup insert str_eq str_lt
create_again_example =
    create_again toy 6 8 true false no_files stored_files first_start refl refl refl
