-- ===== src/TunCallback/Delivery.antt =====
-- `TunCallback::message_arrived` on the topics that the server assigns: which packets reach the TUN
-- device.
use mqtt_tunnel.Base.{
  ℕ, ◌+◌, ◌≤◌, ◌≡◌, ◌≢◌, refl, ap, ◌∙◌, true, none, some, [], ◌∷◌, ◌++◌, append_assoc, arith, ok,
  length,
}
use mqtt_tunnel.Base.Text.{Str, codes, Lacks}
use mqtt_tunnel.Base.Dict.{lookup}
use mqtt_tunnel.Helpers.{extract_client_id_from_topic}
use mqtt_tunnel.Helpers.Topic.{extract_second_part}
use mqtt_tunnel.Sodium.{Sodium, SodiumLaws}
use mqtt_tunnel.CryptoManager.{
  CryptoManager, CryptoSessionConfig, encrypt_data, decrypt_data, max_size,
}
use mqtt_tunnel.CryptoManager.PacketLaws.{decrypt_data-encrypt_data}
use mqtt_tunnel.TunnelServer.Handshake.{inbound_topic, outbound_topic}
use mqtt_tunnel.TunCallback.{message_arrived}

topic_parts :
    (channel id suffix : Str)
    → channel ++ codes "/" ++ id ++ b'/' ∷ suffix ≡ channel ++ b'/' ∷ (id ++ b'/' ∷ suffix)
topic_parts channel id suffix =
    append_assoc (channel ++ codes "/") id (b'/' ∷ suffix)
    ∙ append_assoc channel (codes "/") (id ++ b'/' ∷ suffix)

delivered_under :
    (s : Sodium) (m : CryptoManager) (topic id payload p : Str)
    → extract_client_id_from_topic topic ≡ id
    → id ≢ []
    → decrypt_data s m payload id ≡ ok p
    → message_arrived s m true topic payload ≡ ok (some p)
unfolding message_arrived
delivered_under s m topic [] payload p e n d = absurd (n refl)
delivered_under s m topic (c ∷ id) payload p e n d = rw (e, d)

-- Where the name of the command channel and the client id have no slash and libsodium keeps its
-- laws, a packet that the other side encrypted under a session with mirrored keys is written to the
-- TUN device as it was, on both of the topics that the server assigns.
pub message_arrived-encrypt_data :
    (s : Sodium) (m n : CryptoManager) (channel id p packet : Str) (a b : CryptoSessionConfig)
    (entropy : ℕ)
    → SodiumLaws s
    → Lacks b'/' channel
    → Lacks b'/' id
    → id ≢ []
    → lookup id m.session_map ≡ some a
    → lookup id n.session_map ≡ some b
    → a.tx ≡ b.rx
    → length p + 40 ≤ max_size
    → encrypt_data s entropy m p id ≡ ok packet
    → (message_arrived s n true (inbound_topic channel id) packet ≡ ok (some p))
      × (message_arrived s n true (outbound_topic channel id) packet ≡ ok (some p))
message_arrived-encrypt_data s m n channel id p packet a b entropy laws lc li ne ha hb keys small
      e =
    let opens =
      decrypt_data-encrypt_data s m n id id p packet a b entropy laws ha hb keys small e in
    (
      delivered_under s n (inbound_topic channel id) id packet p
          (ap extract_client_id_from_topic (topic_parts channel id (codes "A"))
            ∙ extract_second_part channel id (codes "A") lc li)
          ne opens,
      delivered_under s n (outbound_topic channel id) id packet p
          (ap extract_client_id_from_topic (topic_parts channel id (codes "B"))
            ∙ extract_second_part channel id (codes "B") lc li)
          ne opens,
    )

dropped_under :
    (s : Sodium) (m : CryptoManager) (topic id payload : Str)
    → extract_client_id_from_topic topic ≡ id
    → lookup id m.session_map ≡ none
    → message_arrived s m true topic payload ≡ ok none
unfolding message_arrived decrypt_data
dropped_under s m topic [] payload e h = rw e
dropped_under s m topic (c ∷ id) payload e h = rw e (ground (arith, h))

nested_topic :
    (a b id suffix : Str)
    → a ++ b'/' ∷ b ++ codes "/" ++ id ++ b'/' ∷ suffix
      ≡ a ++ b'/' ∷ (b ++ b'/' ∷ (id ++ b'/' ∷ suffix))
nested_topic a b id suffix =
    topic_parts (a ++ b'/' ∷ b) id suffix ∙ append_assoc a (b'/' ∷ b) (b'/' ∷ (id ++ b'/' ∷ suffix))

-- Where the name of the command channel has one slash, as the default mqtt_tunnel/commands has, the
-- second part of the channel's name is taken for the client id: every encrypted packet on either
-- topic of any client is dropped, unless a session has that part for its id.
pub message_arrived_nested_channel :
    (s : Sodium) (m : CryptoManager) (a b id payload : Str)
    → Lacks b'/' a
    → Lacks b'/' b
    → lookup b m.session_map ≡ none
    → (message_arrived s m true (inbound_topic (a ++ b'/' ∷ b) id) payload ≡ ok none)
      × (message_arrived s m true (outbound_topic (a ++ b'/' ∷ b) id) payload ≡ ok none)
message_arrived_nested_channel s m a b id payload la lb h = (
  dropped_under s m _ b payload
      (ap extract_client_id_from_topic (nested_topic a b id (codes "A"))
        ∙ extract_second_part a b (id ++ b'/' ∷ codes "A") la lb)
      h,
  dropped_under s m _ b payload
      (ap extract_client_id_from_topic (nested_topic a b id (codes "B"))
        ∙ extract_second_part a b (id ++ b'/' ∷ codes "B") la lb)
      h,
)
