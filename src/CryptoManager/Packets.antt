-- ===== src/CryptoManager/Packets.antt =====
-- src/CryptoManager.cpp: `encrypt_data` and `decrypt_data`. A packet is the nonce and the ciphertext
-- of `crypto_secretbox_easy`.
use mqtt_tunnel.Base.{
  ℕ, ◌+◌, ◌-◌, ◌%◌, ◌^◌, Option, none, some, ◌++◌, take, drop, length, ltb, if◌then◌else◌, Result,
  ok, throw, ◌>>=◌, runtime_error, length_error,
}
use mqtt_tunnel.Base.Text.{Str, codes}
use mqtt_tunnel.Base.Dict.{lookup}
use mqtt_tunnel.Sodium.{Sodium, crypto_secretbox_noncebytes, crypto_secretbox_macbytes}
use mqtt_tunnel.CryptoManager.Keys.{CryptoManager, CryptoSessionConfig}

-- `session_map_.find` and the exception for a missing session.
session_or_throw : Str → Option CryptoSessionConfig → Result CryptoSessionConfig
session_or_throw client_id (some session) = ok session
session_or_throw client_id none =
    throw (runtime_error (codes "Session not found for client ID: " ++ client_id))

unfoldable pub find_session : CryptoManager → Str → Result CryptoSessionConfig
unfolding session_or_throw
find_session m client_id = session_or_throw client_id (lookup client_id m.session_map)

sealed : Str → Option Str → Result Str
sealed nonce (some ciphertext) = ok (nonce ++ ciphertext)
sealed nonce none = throw (runtime_error (codes "Encryption failed"))

unfoldable pub seal_packet : Sodium → Str → Str → CryptoSessionConfig → Result Str
unfolding sealed
seal_packet s nonce plaintext session =
    sealed nonce (s.crypto_secretbox_easy plaintext nonce session.tx)

-- `encrypt_data`
unfoldable pub encrypt_data : Sodium → ℕ → CryptoManager → Str → Str → Result Str
unfolding find_session seal_packet
encrypt_data s entropy m plaintext client_id =
    find_session m client_id
    >>= seal_packet s (s.randombytes_buf entropy crypto_secretbox_noncebytes) plaintext

-- `size_t` subtraction, and the largest size of a `std::vector` of bytes.
abbrev pub size_sub : ℕ → ℕ → ℕ
size_sub a b = (a + 2 ^ 64 - b) % 2 ^ 64

abbrev pub max_size : ℕ
max_size = 2 ^ 63 - 1

opened : Option Str → Result Str
opened (some plaintext) = ok plaintext
opened none = throw (runtime_error (codes "Decryption failed"))

unfoldable pub open_packet : Sodium → Str → CryptoSessionConfig → Result Str
unfolding opened
open_packet s full_packet session =
    let ciphertext_len = size_sub (length full_packet) crypto_secretbox_noncebytes in
    let result = opened (
      s.crypto_secretbox_open_easy
        (take ciphertext_len (drop crypto_secretbox_noncebytes full_packet))
        (take crypto_secretbox_noncebytes full_packet) session.rx) in
    if ltb max_size (size_sub ciphertext_len crypto_secretbox_macbytes)
    then throw length_error
    else result

-- `decrypt_data`
unfoldable pub decrypt_data : Sodium → CryptoManager → Str → Str → Result Str
unfolding find_session open_packet
decrypt_data s m full_packet client_id = find_session m client_id >>= open_packet s full_packet
