-- ===== src/Sodium/Toy.antt =====
-- A transparent stand-in that meets `SodiumLaws`, for the examples. It hides nothing.
use mqtt_tunnel.Base.{true, some, ◌++◌, drop, replicate, length-replicate, arith}
use mqtt_tunnel.Base.Text.{str_eq, str_eq_refl}
use mqtt_tunnel.Sodium.{Sodium, SodiumLaws}

abbrev pub toy : Sodium
toy = record {
  sodium_init = true;
  randombytes_buf = λ e n. replicate n e;
  crypto_secretbox_easy = λ m n k. some (replicate 16 0 ++ m);
  crypto_secretbox_open_easy = λ c n k. some (drop 16 c);
  crypto_kx_keypair = λ e. some (replicate 32 e, replicate 32 e);
  crypto_kx_server_session_keys = λ pk sk other. some (other ++ pk, pk ++ other);
  crypto_kx_client_session_keys = λ pk sk other. some (other ++ pk, pk ++ other);
  crypto_sign_keypair = λ e. some (replicate 32 e, replicate 32 e ++ replicate 32 e);
  crypto_sign_detached = λ m sk. some sk;
  crypto_sign_verify_detached = λ signature m pk. str_eq signature (pk ++ pk);
}

pub toy_laws : SodiumLaws toy
toy_laws = record {
  nonce_length = λ e n. length-replicate n e;
  open-easy = λ m n k c e. ground arith;
  easy_length = λ m n k c e. ground arith;
  kx_agree = λ e f spk ssk cpk csk srx stx crx ctx a b c d. ground arith;
  verify-sign = λ e pk sk m signature a b. ground (arith, str_eq_refl signature);
}
