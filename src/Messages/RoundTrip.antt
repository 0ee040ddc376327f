-- ===== src/Messages/RoundTrip.antt =====
-- src/messages.h: each structure is loaded from what it saves.
use mqtt_tunnel.Base.{take-length, take, ℕ, length, List, ◌<◌, ok, ◌≡◌, refl, arith}
use mqtt_tunnel.Types.{TunnelMode, other_mode, mode_to_number, mode_of_number}
use mqtt_tunnel.Cereal.{Cereal, CerealLaws}
use mqtt_tunnel.Sodium.{crypto_kx_publickeybytes, crypto_sign_bytes}
use mqtt_tunnel.Messages.Identifier.{
  server_hello, Serializable, MessageIdentifier, other_identifier, identifier_to_number,
  identifier_of_number,
}
use mqtt_tunnel.Messages.Serializer.{to_string, from_string}
use mqtt_tunnel.Messages.Handshake.{
  ClientHello, client_hello_serializable, load_client_hello, ServerHello, server_hello_serializable,
  load_server_hello, ClientAck, client_ack_serializable, load_client_ack, ServerAck,
  server_ack_serializable, load_server_ack,
}
use mqtt_tunnel.Messages.Session.{
  HandshakeRst, handshake_rst_serializable, load_handshake_rst, SessionTermination,
  session_termination_serializable, load_session_termination,
}
use mqtt_tunnel.Messages.Crypto.{
  ClientHelloCrypto, client_hello_crypto_serializable, load_client_hello_crypto, ServerHelloCrypto,
  server_hello_crypto_serializable, load_server_hello_crypto, EncryptedWrapper,
  encrypted_wrapper_serializable, load_encrypted_wrapper,
}

-- The value has an enumerator.
abbrev pub IsListed : MessageIdentifier → Type 0
IsListed (other_identifier n) = ⊥
IsListed _ = Unit

abbrev pub IsListedMode : TunnelMode → Type 0
IsListedMode (other_mode n) = ⊥
IsListedMode _ = Unit

identifier_round_trip :
    (i : MessageIdentifier) → IsListed i → identifier_of_number (identifier_to_number i) ≡ i
identifier_round_trip (other_identifier n) h = elim h [ ]
identifier_round_trip _ h = refl

pub identifier_small : (i : MessageIdentifier) → IsListed i → identifier_to_number i < 10
identifier_small (other_identifier n) h = elim h [ ]
identifier_small _ h = omega arith

mode_round_trip : (m : TunnelMode) → IsListedMode m → mode_of_number (mode_to_number m) ≡ m
mode_round_trip (other_mode n) h = elim h [ ]
mode_round_trip _ h = refl

mode_small : (m : TunnelMode) → IsListedMode m → mode_to_number m < 2
mode_small (other_mode n) h = elim h [ ]
mode_small _ h = omega arith

pub saved :
    {M : Type 0} ⦃s : Serializable M⦄ (c : Cereal)
    → CerealLaws c
    → (m : M) → from_string c (to_string c m) ≡ s.load (s.save m)
unfolding from_string to_string
saved ⦃s⦄ c laws m = rw (laws.parse-write (s.save m))

pub load_client_hello_save :
    (m : ClientHello)
    → IsListed m.message_identifier
    → IsListedMode m.tunnel_mode
    → load_client_hello (client_hello_serializable.save m) ≡ ok m
unfolding load_client_hello
load_client_hello_save m h k = ground (
  arith,
  identifier_round_trip m.message_identifier h,
  identifier_small m.message_identifier h,
  mode_round_trip m.tunnel_mode k,
  mode_small m.tunnel_mode k,
)

pub load_server_hello_save :
    (m : ServerHello)
    → IsListed m.message_identifier
    → load_server_hello (server_hello_serializable.save m) ≡ ok m
unfolding load_server_hello
load_server_hello_save m h =
    ground
      (arith, identifier_round_trip m.message_identifier h, identifier_small m.message_identifier h)

pub load_client_ack_save :
    (m : ClientAck)
    → IsListed m.message_identifier
    → load_client_ack (client_ack_serializable.save m) ≡ ok m
unfolding load_client_ack
load_client_ack_save m h =
    ground
      (arith, identifier_round_trip m.message_identifier h, identifier_small m.message_identifier h)

pub load_server_ack_save :
    (m : ServerAck)
    → IsListed m.message_identifier
    → load_server_ack (server_ack_serializable.save m) ≡ ok m
unfolding load_server_ack
load_server_ack_save m h =
    ground
      (arith, identifier_round_trip m.message_identifier h, identifier_small m.message_identifier h)

pub load_handshake_rst_save :
    (m : HandshakeRst)
    → IsListed m.message_identifier
    → load_handshake_rst (handshake_rst_serializable.save m) ≡ ok m
unfolding load_handshake_rst
load_handshake_rst_save m h =
    ground
      (arith, identifier_round_trip m.message_identifier h, identifier_small m.message_identifier h)

pub load_session_termination_save :
    (m : SessionTermination)
    → IsListed m.message_identifier
    → load_session_termination (session_termination_serializable.save m) ≡ ok m
unfolding load_session_termination
load_session_termination_save m h =
    ground
      (arith, identifier_round_trip m.message_identifier h, identifier_small m.message_identifier h)

whole : (b : List ℕ) (n : ℕ) → length b ≡ n → take n b ≡ b
whole b n e = rw (← e) (take-length b)

pub load_client_hello_crypto_save :
    (m : ClientHelloCrypto)
    → IsListed m.message_identifier
    → length m.client_ephemeral_public_key ≡ crypto_kx_publickeybytes
    → load_client_hello_crypto (client_hello_crypto_serializable.save m) ≡ ok m
unfolding load_client_hello_crypto
load_client_hello_crypto_save m h k = ground (
  arith,
  identifier_round_trip m.message_identifier h,
  identifier_small m.message_identifier h,
  whole m.client_ephemeral_public_key 32 k,
)

pub load_server_hello_crypto_save :
    (m : ServerHelloCrypto)
    → IsListed m.message_identifier
    → length m.server_ephemeral_public_key ≡ crypto_kx_publickeybytes
    → length m.signature_message ≡ crypto_sign_bytes
    → load_server_hello_crypto (server_hello_crypto_serializable.save m) ≡ ok m
unfolding load_server_hello_crypto
load_server_hello_crypto_save m h k l = ground (
  arith,
  identifier_round_trip m.message_identifier h,
  identifier_small m.message_identifier h,
  whole m.server_ephemeral_public_key 32 k,
  whole m.signature_message 64 l,
)

pub load_encrypted_wrapper_save :
    (m : EncryptedWrapper)
    → IsListed m.message_identifier
    → load_encrypted_wrapper (encrypted_wrapper_serializable.save m) ≡ ok m
unfolding load_encrypted_wrapper
load_encrypted_wrapper_save m h =
    ground
      (arith, identifier_round_trip m.message_identifier h, identifier_small m.message_identifier h)

-- A server hello is accepted where an acknowledgement is read: it has both of its fields.
hello_as_ack :
    (reply : ServerHello)
    → reply.message_identifier ≡ server_hello
    → load_server_ack (server_hello_serializable.save reply)
      ≡ ok (record {
        message_identifier = server_hello;
        handshake_identifier = reply.handshake_identifier;
      })
unfolding load_server_ack load_server_hello
hello_as_ack reply e = ground (arith, e)

pub server_hello_read_as_ack :
    (c : Cereal) (reply : ServerHello)
    → CerealLaws c
    → reply.message_identifier ≡ server_hello
    → from_string {M = ServerAck} c (to_string c reply)
      ≡ ok (record {
        message_identifier = server_hello;
        handshake_identifier = reply.handshake_identifier;
      })
unfolding from_string to_string load_server_ack
server_hello_read_as_ack c reply laws e =
    rw (laws.parse-write (server_hello_serializable.save reply)) (hello_as_ack reply e)
