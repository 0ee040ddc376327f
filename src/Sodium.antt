-- ===== src/Sodium.antt =====
-- libsodium, a parameter: the functions that src/CryptoManager.cpp calls, and the sizes that its
-- headers document. `none` stands for a result other than 0. A number stands for the entropy that a
-- call draws.
pub mod Toy
use mqtt_tunnel.Base.{ℕ, Bool, true, Option, some, ◌≡◌, ◌+◌, length}
use mqtt_tunnel.Base.Text.{Str}

abbrev pub crypto_kx_publickeybytes : ℕ
crypto_kx_publickeybytes = 32

abbrev pub crypto_kx_secretkeybytes : ℕ
crypto_kx_secretkeybytes = 32

abbrev pub crypto_sign_bytes : ℕ
crypto_sign_bytes = 64

abbrev pub crypto_sign_publickeybytes : ℕ
crypto_sign_publickeybytes = 32

abbrev pub crypto_sign_secretkeybytes : ℕ
crypto_sign_secretkeybytes = 64

abbrev pub crypto_secretbox_noncebytes : ℕ
crypto_secretbox_noncebytes = 24

abbrev pub crypto_secretbox_macbytes : ℕ
crypto_secretbox_macbytes = 16

pub record Sodium : Type 0 where
  pub sodium_init : Bool
  pub randombytes_buf : ℕ → ℕ → Str
  -- message, nonce, key; ciphertext, nonce, key
  pub crypto_secretbox_easy : Str → Str → Str → Option Str
  pub crypto_secretbox_open_easy : Str → Str → Str → Option Str
  -- the public and the secret key
  pub crypto_kx_keypair : ℕ → Option (Str × Str)
  -- own public key, own secret key, the other's public key; the keys to receive and to send
  pub crypto_kx_server_session_keys : Str → Str → Str → Option (Str × Str)
  pub crypto_kx_client_session_keys : Str → Str → Str → Option (Str × Str)
  pub crypto_sign_keypair : ℕ → Option (Str × Str)
  -- message, secret key; signature, message, public key
  pub crypto_sign_detached : Str → Str → Option Str
  pub crypto_sign_verify_detached : Str → Str → Str → Bool

-- What the documentation of libsodium promises.
pub record SodiumLaws (s : Sodium) : Type 0 where
  pub nonce_length : (entropy n : ℕ) → length (s.randombytes_buf entropy n) ≡ n
  pub open-easy :
      (m n k c : Str)
      → s.crypto_secretbox_easy m n k ≡ some c
      → s.crypto_secretbox_open_easy c n k ≡ some m
  pub easy_length :
      (m n k c : Str)
      → s.crypto_secretbox_easy m n k ≡ some c
      → length c ≡ length m + crypto_secretbox_macbytes
  -- The two sides compute each other's keys.
  pub kx_agree :
      (e f : ℕ) (server_pk server_sk client_pk client_sk srx stx crx ctx : Str)
      → s.crypto_kx_keypair e ≡ some (server_pk, server_sk)
      → s.crypto_kx_keypair f ≡ some (client_pk, client_sk)
      → s.crypto_kx_server_session_keys server_pk server_sk client_pk ≡ some (srx, stx)
      → s.crypto_kx_client_session_keys client_pk client_sk server_pk ≡ some (crx, ctx)
      → (srx ≡ ctx) × (stx ≡ crx)
  pub verify-sign :
      (e : ℕ) (pk sk m signature : Str)
      → s.crypto_sign_keypair e ≡ some (pk, sk)
      → s.crypto_sign_detached m sk ≡ some signature
      → s.crypto_sign_verify_detached signature m pk ≡ true
