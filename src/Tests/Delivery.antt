-- ===== src/Tests/Delivery.antt =====
-- Packets of the tunnel on the data channel.
use mqtt_tunnel.Base.{false, ◌≡◌, refl, none, ok}
use mqtt_tunnel.TunCallback.{message_arrived}
use mqtt_tunnel.TunCallback.Delivery.{message_arrived_nested_channel}
use mqtt_tunnel.Base.{true, [], ◌∷◌, ◌++◌, replicate, arith}
use mqtt_tunnel.Base.Text.{Lacks, Str, codes, str_eq}
use mqtt_tunnel.Base.Dict.{lookup}
use mqtt_tunnel.Sodium.Toy.{toy}
use mqtt_tunnel.CryptoManager.{CryptoManager, CryptoSessionConfig, role_client, role_server, fresh}
use mqtt_tunnel.TunnelServer.Handshake.{inbound_topic, outbound_topic}

abbrev keys : CryptoSessionConfig
keys = record { rx = codes "k"; tx = codes "k"; signature_message = [] }

abbrev server : CryptoManager
server = record (fresh role_server true false) { session_map = (codes "a", keys) ∷ [] }

abbrev client : CryptoManager
client = record (fresh role_client true false) { session_map = (codes "a", keys) ∷ [] }

abbrev packet : Str
packet = replicate 24 7 ++ (replicate 16 0 ++ codes "ping")

-- The default name of the command channel.
message_arrived_nested_channel_example :
    (message_arrived toy client true
        (inbound_topic (codes "mqtt_tunnel" ++ b'/' ∷ codes "commands") (codes "a"))
        packet
      ≡ ok none)
    × (message_arrived toy client true
          (outbound_topic (codes "mqtt_tunnel" ++ b'/' ∷ codes "commands") (codes "a"))
          packet
        ≡ ok none)
unfolding lookup str_eq
message_arrived_nested_channel_example =
    message_arrived_nested_channel toy client (codes "mqtt_tunnel") (codes "commands") (codes "a")
      packet lacks_name lacks_commands refl
  where
    lacks_name : Lacks b'/' (codes "mqtt_tunnel")
    lacks_name = ground arith

    lacks_commands : Lacks b'/' (codes "commands")
    lacks_commands = ground arith
