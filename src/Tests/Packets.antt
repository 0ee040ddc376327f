-- ===== src/Tests/Packets.antt =====
-- Encrypted messages to the server, and packets from it to a client.
use mqtt_tunnel.Base.{◌≤◌, ◌≡◌, refl, ◌∷◌, ◌++◌, arith, replicate, length, ◌+◌}
use mqtt_tunnel.Base.Text.{Str, codes, str_eq}
use mqtt_tunnel.Base.Int.{pos}
use mqtt_tunnel.Base.Decimal.{to_string as decimal}
use mqtt_tunnel.Base.Dict.{lookup}
use mqtt_tunnel.Cereal.Toy.{toy, toy_laws}
use mqtt_tunnel.Sodium.Toy as SodiumToy
use mqtt_tunnel.Messages.{
  to_string, identifier_of_int, encrypted_wrapper_serializable, load_client_ack,
}
use mqtt_tunnel.Messages.Laws.{a_client_ack, header_from_string-text}
use mqtt_tunnel.CryptoManager.{encrypt_data, max_size}
use mqtt_tunnel.TunnelServer.Handshake.{handle_client_handshake}
use mqtt_tunnel.TunnelServer.Loop.{handle_message}
use mqtt_tunnel.TunnelServer.Wrapped.{wrapper_for, handle_message-wrapped}
use mqtt_tunnel.Fixtures.{lib, moment, ack, ack_text, serving_server, client_manager, keys}

-- The packet of the stand-in for libsodium: nonce, an empty tag, the text.
abbrev packet_of : Str → Str
packet_of p = replicate 24 7 ++ (replicate 16 0 ++ p)

ack_text_small : length ack_text + 40 ≤ max_size
unfolding to_string toy load_client_ack
ack_text_small = omega arith

handle_message-wrapped_example :
    handle_message lib moment
      (to_string toy (wrapper_for (codes "a") (packet_of ack_text)))
      serving_server
    ≡ handle_client_handshake lib moment ack_text (identifier_of_int (pos 5)) serving_server
unfolding encrypt_data lookup str_eq
handle_message-wrapped_example =
    handle_message-wrapped lib moment serving_server client_manager (codes "a") ack_text
      (packet_of ack_text) keys keys 7 (record { type = pos 5 }) toy_laws SodiumToy.toy_laws refl
      refl refl ack_text_small refl (header_from_string-text toy (a_client_ack ack) toy_laws tt)

-- An IP packet with 10.0.0.2 for its destination.
abbrev pub ip_packet : Str
ip_packet = replicate 16 69 ++ 10 ∷ 0 ∷ 0 ∷ 2 ∷ codes "data"
