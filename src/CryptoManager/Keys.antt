-- ===== src/CryptoManager/Keys.antt =====
-- src/CryptoManager.hpp: the state of the manager; src/CryptoManager.cpp: the constructor and the
-- generation of keys. Three members of `CryptoSessionConfig` and `client_crypto_session_` are
-- neither written nor read by the program, and are left out.
use mqtt_tunnel.Base.{
  ℕ, Bool, true, false, Option, none, some, [], ◌∷◌, ◌/◌, ◌%◌, ◌+◌, ltb, if◌then◌else◌, Result, ok,
  throw, fault, runtime_error, replicate,
}
use mqtt_tunnel.Base.Text.{Str, codes}
use mqtt_tunnel.Base.Dict.{Dict}
use mqtt_tunnel.Sodium.{
  Sodium, crypto_kx_publickeybytes, crypto_kx_secretkeybytes, crypto_sign_publickeybytes,
  crypto_sign_secretkeybytes,
}
use mqtt_tunnel.CryptoManager.Files.{
  ServerIdentity, FileSystem, load_local_server_identity, store_server_identity,
}

pub record X25519KeyPair : Type 0 where
  pub public_key : Str
  pub secret_key : Str

pub record CryptoSessionConfig : Type 0 where
  pub rx : Str
  pub tx : Str
  pub signature_message : Str

pub data Role : Type 0 where
  role_client role_server : Role

pub record CryptoManager : Type 0 where
  pub server_identity : ServerIdentity
  pub client_buffer_ephemeral : X25519KeyPair
  pub initialized : Bool
  pub role : Role
  pub server_identity_set : Bool
  pub enable_encryption : Bool
  pub skip_server_identity_verification : Bool
  pub session_map : Dict CryptoSessionConfig

keypair_of : Option (Str × Str) → Result X25519KeyPair
keypair_of (some (pk, sk)) = ok (record { public_key = pk; secret_key = sk })
keypair_of none = throw (runtime_error (codes "Failed to generate X25519 keypair"))

-- `generate_x25519_keypair`
unfoldable pub generate_x25519_keypair : Sodium → ℕ → Result X25519KeyPair
unfolding keypair_of
generate_x25519_keypair s entropy = keypair_of (s.crypto_kx_keypair entropy)

identity_of : Option (Str × Str) → Result ServerIdentity
identity_of (some (pk, sk)) = ok (record { public_key_id = pk; secret_key_id = sk })
identity_of none =
    throw (runtime_error (codes "Failed to generate static server identity (Ed25519)"))

-- `generate_static_server_identity`
unfoldable pub generate_static_server_identity : Sodium → ℕ → Result ServerIdentity
unfolding identity_of
generate_static_server_identity s entropy = identity_of (s.crypto_sign_keypair entropy)

hex_digit : ℕ → ℕ
hex_digit n = if ltb n 10 then 48 + n else 87 + n

-- `hex_public_key`: two lower-case digits for each byte.
unfoldable pub hex_bytes : Str → Str
unfolding hex_digit
hex_bytes [] = []
hex_bytes (b ∷ bs) = hex_digit (b / 16) ∷ hex_digit (b % 16) ∷ hex_bytes bs

unfoldable pub hex_public_key : ServerIdentity → Str
unfolding hex_bytes
hex_public_key id = hex_bytes id.public_key_id

-- The members before the body of the constructor. Those that it leaves indeterminate are zero here.
abbrev pub fresh : Role → Bool → Bool → CryptoManager
fresh role enable skip = record {
  server_identity = record {
    public_key_id = replicate crypto_sign_publickeybytes 0;
    secret_key_id = replicate crypto_sign_secretkeybytes 0;
  };
  client_buffer_ephemeral = record {
    public_key = replicate crypto_kx_publickeybytes 0;
    secret_key = replicate crypto_kx_secretkeybytes 0;
  };
  initialized = true;
  role = role;
  server_identity_set = false;
  enable_encryption = enable;
  skip_server_identity_verification = skip;
  session_map = [];
}

abbrev pub with_identity : CryptoManager → ServerIdentity → CryptoManager
with_identity m id = record m { server_identity = id; server_identity_set = true }

-- After the write of a new identity.
stored :
    CryptoManager
    → ServerIdentity
    → Result (Unit {0}) × FileSystem
    → Result CryptoManager × FileSystem
stored m id (ok _, fs) = (ok (with_identity m id), fs)
stored m id (throw e, fs) = (throw e, fs)
stored m id (fault, fs) = (fault, fs)

-- The handler of the constructor: a new identity is generated and stored.
new_identity :
    CryptoManager → FileSystem → Result ServerIdentity → Result CryptoManager × FileSystem
unfolding stored
new_identity m fs (ok id) = stored m id (store_server_identity id fs)
new_identity m fs (throw e) = (throw e, fs)
new_identity m fs fault = (fault, fs)

-- The `try` of the constructor: any exception of the load leads to a new identity.
loaded :
    Sodium
    → ℕ
    → CryptoManager
    → FileSystem
    → Result ServerIdentity
    → Result CryptoManager × FileSystem
unfolding new_identity generate_static_server_identity
loaded s entropy m fs (ok id) = (ok (with_identity m id), fs)
loaded s entropy m fs (throw e) = new_identity m fs (generate_static_server_identity s entropy)
loaded s entropy m fs fault = (fault, fs)

-- What the constructor does for its role.
set_up : Sodium → ℕ → CryptoManager → FileSystem → Role → Result CryptoManager × FileSystem
unfolding loaded
set_up s entropy m fs role_server = loaded s entropy m fs (load_local_server_identity fs)
set_up s entropy m fs role_client = (ok m, fs)

-- `CryptoManager::CryptoManager`
unfoldable pub create :
    Sodium → ℕ → Role → Bool → Bool → FileSystem → Result CryptoManager × FileSystem
unfolding set_up
create s entropy role enable skip fs =
    if s.sodium_init
    then set_up s entropy (fresh role enable skip) fs role
    else (throw (runtime_error (codes "Failed to initialize libsodium")), fs)
