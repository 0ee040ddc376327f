-- ===== src/CryptoManager/PacketLaws.antt =====
-- `encrypt_data` and `decrypt_data`: the size of packets, short packets, and the round trip.
use mqtt_tunnel.Base.{
  ℕ, ◌+◌, ◌≤◌, ◌<◌, ◌≡◌, ◌↔◌, inl, inr, sym, ap, ◌∙◌, some, ◌++◌, take, drop, length, ok, throw,
  length_error, arith, Option-cases, length-append, take-append, drop-append, take-length,
}
use mqtt_tunnel.Base.Text.{Str}
use mqtt_tunnel.Base.Dict.{lookup}
use mqtt_tunnel.Sodium.{Sodium, SodiumLaws}
use mqtt_tunnel.CryptoManager.Keys.{CryptoManager, CryptoSessionConfig}
use mqtt_tunnel.CryptoManager.Packets.{
  encrypt_data, decrypt_data, seal_packet, open_packet, size_sub, max_size,
}

module _ (s : Sodium) (m : CryptoManager) (id : Str) (session : CryptoSessionConfig)
    (has : lookup id m.session_map ≡ some session) where
  encrypt_with :
      (entropy : ℕ) (p : Str)
      → encrypt_data s entropy m p id ≡ seal_packet s (s.randombytes_buf entropy 24) p session
  unfolding encrypt_data
  encrypt_with entropy p = ground (arith, has)

  decrypt_with : (packet : Str) → decrypt_data s m packet id ≡ open_packet s packet session
  unfolding decrypt_data
  decrypt_with packet = ground (arith, has)

-- What a packet that was sealed consists of.
record Sealed (s : Sodium) (nonce p : Str) (session : CryptoSessionConfig) (packet : Str)
    : Type 0 where
  ciphertext : Str
  made : s.crypto_secretbox_easy p nonce session.tx ≡ some ciphertext
  joined : packet ≡ nonce ++ ciphertext

seal_packet-Sealed :
    (s : Sodium) (nonce p packet : Str) (session : CryptoSessionConfig)
    → seal_packet s nonce p session ≡ ok packet
    → Sealed s nonce p session packet
unfolding seal_packet
seal_packet-Sealed s nonce p packet session e =
    elim (Option-cases (s.crypto_secretbox_easy p nonce session.tx)) [
      | inl failed ↦ absurd (ground (arith, failed))
      | inr (c, made) ↦ record { ciphertext = c; made = made; joined = ground (arith, made) }
    ]

split_packet :
    (nonce c : Str)
    → length nonce ≡ 24
    → (take 24 (nonce ++ c) ≡ nonce) × (drop 24 (nonce ++ c) ≡ c)
split_packet nonce c e = (rw (← e) (take-append nonce c), rw (← e) (drop-append nonce c))

-- A packet of the right form is opened to its plaintext.
open_packet-joined :
    (s : Sodium) (nonce c p : Str) (session : CryptoSessionConfig)
    → length nonce ≡ 24
    → 16 ≤ length c
    → length (nonce ++ c) ≤ max_size
    → s.crypto_secretbox_open_easy c nonce session.rx ≡ some p
    → open_packet s (nonce ++ c) session ≡ ok p
unfolding open_packet
open_packet-joined s nonce c p session n l b e =
    let len : size_sub (length (nonce ++ c)) 24 ≡ length c = omega (arith, length-append nonce c) in
    ground (arith, len, split_packet nonce c n, take-length c, length-append nonce c, e)

-- Where libsodium keeps its laws, a packet that is encrypted under a session is 40 bytes longer
-- than its plaintext.
pub length-encrypt_data :
    (s : Sodium) (m : CryptoManager) (id p packet : Str) (session : CryptoSessionConfig)
    (entropy : ℕ)
    → SodiumLaws s
    → lookup id m.session_map ≡ some session
    → encrypt_data s entropy m p id ≡ ok packet
    → length packet ≡ length p + 40
length-encrypt_data s m id p packet session entropy laws has e =
    let w =
      seal_packet-Sealed s (s.randombytes_buf entropy 24) p packet session
        (sym (encrypt_with s m id session has entropy p) ∙ e) in
    omega (
      arith,
      ap length w.joined,
      length-append (s.randombytes_buf entropy 24) w.ciphertext,
      laws.nonce_length entropy 24,
      laws.easy_length p (s.randombytes_buf entropy 24) session.tx w.ciphertext w.made,
    )

-- What one side encrypts the other decrypts, where the sender's key to send is the receiver's key to
-- receive.
pub decrypt_data-encrypt_data :
    (s : Sodium) (m n : CryptoManager) (id jd p packet : Str) (a b : CryptoSessionConfig)
    (entropy : ℕ)
    → SodiumLaws s
    → lookup id m.session_map ≡ some a
    → lookup jd n.session_map ≡ some b
    → a.tx ≡ b.rx
    → length p + 40 ≤ max_size
    → encrypt_data s entropy m p id ≡ ok packet
    → decrypt_data s n packet jd ≡ ok p
decrypt_data-encrypt_data s m n id jd p packet a b entropy laws ha hb keys small e =
    let nonce = s.randombytes_buf entropy 24 in
    let w = seal_packet-Sealed s nonce p packet a (sym (encrypt_with s m id a ha entropy p) ∙ e) in
    let size = length-encrypt_data s m id p packet a entropy laws ha e in
    let opens : s.crypto_secretbox_open_easy w.ciphertext nonce b.rx ≡ some p =
      rw (← keys) (laws.open-easy p nonce a.tx w.ciphertext w.made) in
    decrypt_with s n jd b hb packet
    ∙ rw w.joined (
        open_packet-joined s nonce w.ciphertext p b (laws.nonce_length entropy 24)
          (omega (arith, laws.easy_length p nonce a.tx w.ciphertext w.made))
          (omega (arith, size, ap length w.joined)) opens)

open_packet-length_error_iff :
    (s : Sodium) (packet : Str) (session : CryptoSessionConfig)
    → length packet ≤ max_size
    → (open_packet s packet session ≡ throw length_error) ↔ (length packet < 40)
unfolding open_packet
open_packet-length_error_iff s packet session h = ground arith

-- For a client with a session, a packet (up to the largest size of a vector) is refused by
-- `length_error` exactly if it is shorter than nonce and tag, 40 bytes: the size of its plaintext
-- wraps around.
pub decrypt_data-length_error_iff :
    (s : Sodium) (m : CryptoManager) (id packet : Str) (session : CryptoSessionConfig)
    → lookup id m.session_map ≡ some session
    → length packet ≤ max_size
    → (decrypt_data s m packet id ≡ throw length_error) ↔ (length packet < 40)
decrypt_data-length_error_iff s m id packet session has h =
    rw (decrypt_with s m id session has packet) (open_packet-length_error_iff s packet session h)
