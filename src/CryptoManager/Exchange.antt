-- ===== src/CryptoManager/Exchange.antt =====
-- src/CryptoManager.cpp: the key exchange. The secret half of the client's ephemeral key waits in
-- `client_buffer_ephemeral` between its hello and the answer of the server.
use mqtt_tunnel.Base.{
  ℕ, Bool, true, false, Option, none, some, [], ◌++◌, take, drop, length, ◌==◌, if◌then◌else◌,
  Result, ok, throw, runtime_error, replicate,
}
use mqtt_tunnel.Base.Text.{Str, codes}
use mqtt_tunnel.Base.Dict.{lookup, emplace}
use mqtt_tunnel.Base.Decimal.{to_string}
use mqtt_tunnel.Base.State.{Method, ◌>>=◌, ◌>>◌, return, call, modify, get}
use mqtt_tunnel.Sodium.{Sodium, crypto_kx_secretkeybytes, crypto_sign_publickeybytes}
use mqtt_tunnel.Messages.{
  ClientHelloCrypto, ServerHelloCrypto, client_hello_crypto, server_hello_crypto,
}
use mqtt_tunnel.CryptoManager.Files.{FileSystem}
use mqtt_tunnel.CryptoManager.Keys.{CryptoManager, CryptoSessionConfig, generate_x25519_keypair}

or_throw {ℓ} : {A : Type ℓ} → Str → Option A → Result A
or_throw what (some a) = ok a
or_throw what none = throw (runtime_error what)

unfoldable pub accept_session : Str → CryptoSessionConfig → CryptoManager → CryptoManager
accept_session id session m = record m { session_map = emplace id session m.session_map }

-- The identifier of a session: the client's id and the time.
abbrev pub unique_identifier_of : Str → ℕ → Str
unique_identifier_of client_base_id now = client_base_id ++ codes "_" ++ to_string now

-- `establish_server_session`. The secret key is local, and overwritten at the end.
unfoldable pub establish_server_session :
    Sodium → ℕ → ℕ → ClientHelloCrypto → Method CryptoManager ServerHelloCrypto
unfolding generate_x25519_keypair or_throw accept_session emplace ◌>>=◌
establish_server_session s entropy now hello = do
  server_ephemeral ← call (λ m. generate_x25519_keypair s entropy)
  signature ← call (λ m.
      or_throw (codes "Failed to sign ephemeral key")
        (s.crypto_sign_detached server_ephemeral.public_key m.server_identity.secret_key_id))
  keys ← call (λ m. or_throw (codes "Failed to establish server session keys") (
      s.crypto_kx_server_session_keys server_ephemeral.public_key server_ephemeral.secret_key
        hello.client_ephemeral_public_key))
  modify (
      accept_session (unique_identifier_of hello.client_base_id now)
        (record { rx = keys.0; tx = keys.1; signature_message = signature }))
  return (record {
    message_identifier = server_hello_crypto;
    unique_identifier = unique_identifier_of hello.client_base_id now;
    server_ephemeral_public_key = server_ephemeral.public_key;
    signature_message = signature;
  })

-- `generate_client_hello`
unfoldable pub generate_client_hello : Sodium → ℕ → Str → Method CryptoManager ClientHelloCrypto
unfolding generate_x25519_keypair ◌>>=◌
generate_client_hello s entropy client_base_id = do
  keypair ← call (λ m. generate_x25519_keypair s entropy)
  modify (λ m. record m { client_buffer_ephemeral = keypair })
  return (record {
    message_identifier = client_hello_crypto;
    client_base_id = client_base_id;
    client_ephemeral_public_key = keypair.public_key;
  })

with_public_key : Str → CryptoManager → CryptoManager
with_public_key pk m = record m {
  server_identity = record m.server_identity { public_key_id = pk };
}

-- `ifstream::read` into an array: a short file overwrites the first bytes only.
read_over : Str → Str → ℕ → Str
read_over old c n = take n c ++ drop (length (take n c)) old

load_content : Option Str → Method CryptoManager (Unit {0})
unfolding with_public_key read_over ◌>>=◌
load_content none =
    call (λ m. throw (runtime_error (codes "Failed to open identity.pub for reading")))
load_content (some c) = do
  modify (λ m.
      with_public_key (read_over m.server_identity.public_key_id c crypto_sign_publickeybytes) m)
  call (λ m.
      if length (take crypto_sign_publickeybytes c) == crypto_sign_publickeybytes
      then ok tt
      else throw (runtime_error (codes "identity.pub has wrong size")))
  modify (λ m. record m { server_identity_set = true })

-- `load_server_public_key`
unfoldable pub load_server_public_key : FileSystem → Method CryptoManager (Unit {0})
unfolding load_content lookup
load_server_public_key fs = load_content (lookup (codes "identity.pub") fs.content)

-- The check of the server's signature under the pinned key.
verify_server : Sodium → ServerHelloCrypto → CryptoManager → Result (Unit {0})
verify_server s hello m =
    if s.crypto_sign_verify_detached hello.signature_message hello.server_ephemeral_public_key
      m.server_identity.public_key_id
    then ok tt
    else throw (runtime_error (codes "Server identity verification failed"))

authenticate_server :
    Sodium → FileSystem → ServerHelloCrypto → Bool → Method CryptoManager (Unit {0})
unfolding load_server_public_key verify_server ◌>>=◌
authenticate_server s fs hello true = return tt
authenticate_server s fs hello false = do load_server_public_key fs; call (verify_server s hello)

-- `sodium_memzero` of the buffered secret key.
forget_secret : CryptoManager → CryptoManager
forget_secret m = record m {
  client_buffer_ephemeral = record m.client_buffer_ephemeral {
    secret_key = replicate crypto_kx_secretkeybytes 0;
  };
}

-- `establish_client_session`. The signature stays in the message: the session has none.
unfoldable pub establish_client_session :
    Sodium → FileSystem → ServerHelloCrypto → Method CryptoManager (Unit {0})
unfolding authenticate_server or_throw forget_secret accept_session emplace ◌>>=◌
establish_client_session s fs hello = do
  skip ← get (λ m. m.skip_server_identity_verification)
  authenticate_server s fs hello skip
  keys ← call (λ m. or_throw (codes "Failed to establish client session keys") (
      s.crypto_kx_client_session_keys m.client_buffer_ephemeral.public_key
        m.client_buffer_ephemeral.secret_key hello.server_ephemeral_public_key))
  modify forget_secret
  modify (
      accept_session hello.unique_identifier
        (record { rx = keys.0; tx = keys.1; signature_message = [] }))

-- `generate_server_hello`
unfoldable pub generate_server_hello : Sodium → ℕ → Method CryptoManager ServerHelloCrypto
unfolding generate_x25519_keypair or_throw ◌>>=◌
generate_server_hello s entropy = do
  server_ephemeral ← call (λ m. generate_x25519_keypair s entropy)
  signature ← call (λ m.
      or_throw (codes "Failed to sign server ephemeral key")
        (s.crypto_sign_detached server_ephemeral.public_key m.server_identity.secret_key_id))
  return (record {
    message_identifier = server_hello_crypto;
    unique_identifier = [];
    server_ephemeral_public_key = server_ephemeral.public_key;
    signature_message = signature;
  })
