-- ===== src/TunnelClient/Forwarding.antt =====
-- src/TunnelClient.cpp, `async_tun_read`: a packet on its way to the server.
use mqtt_tunnel.Base.{ℕ, ◌+◌, ◌≤◌, ◌≡◌, ◌≢◌, ◌∙◌, true, some, [], ok, length}
use mqtt_tunnel.Base.Text.{Str, Lacks}
use mqtt_tunnel.Base.Dict.{lookup}
use mqtt_tunnel.Base.State.{bind_ok, call}
use mqtt_tunnel.Sodium.{SodiumLaws}
use mqtt_tunnel.CryptoManager.{CryptoManager, CryptoSessionConfig, encrypt_data, max_size}
use mqtt_tunnel.TunCallback.{message_arrived}
use mqtt_tunnel.TunCallback.Delivery.{message_arrived-encrypt_data}
use mqtt_tunnel.Libraries.{Libraries, data_channel, published}
use mqtt_tunnel.Libraries.Calls.{log, publish}
use mqtt_tunnel.TunnelServer.Handshake.{outbound_topic}
use mqtt_tunnel.TunnelServer.Replies.{Delivers}
use mqtt_tunnel.TunnelClient.State.{TunnelClient, client_log}
use mqtt_tunnel.TunnelClient.Tunnel.{tun_round, payload_if}

-- The round publishes the packet on the topic that the client sends on, and what arrives there at
-- the manager `m` of the server is the packet.
pub record ReachesServer (lib : Libraries) (entropy : ℕ) (packet : Str) (c : TunnelClient)
    (m : CryptoManager) : Type 0 where
  pub payload : Str
  pub sent :
      tun_round lib entropy (some packet) c
      ≡ (ok tt, log (published data_channel c.session_config.topic_outbound payload 0) c)
  pub arrives :
      message_arrived lib.sodium m true c.session_config.topic_outbound payload ≡ ok (some packet)

pub tun_round-ReachesServer :
    (lib : Libraries) (entropy : ℕ) (packet payload channel : Str) (c : TunnelClient)
    (m : CryptoManager) (a b : CryptoSessionConfig)
    → SodiumLaws lib.sodium
    → Delivers lib.mqtt
    → c.encryption_enabled ≡ true
    → c.session_config.topic_outbound ≡ outbound_topic channel c.client_base_id
    → Lacks b'/' channel
    → Lacks b'/' c.client_base_id
    → c.client_base_id ≢ []
    → lookup c.client_base_id c.crypto_manager.session_map ≡ some a
    → lookup c.client_base_id m.session_map ≡ some b
    → a.tx ≡ b.rx
    → length packet + 40 ≤ max_size
    → encrypt_data lib.sodium entropy c.crypto_manager packet c.client_base_id ≡ ok payload
    → ReachesServer lib entropy packet c m
unfolding tun_round payload_if publish
tun_round-ReachesServer lib entropy packet payload channel c m a b laws d on topic lc li ne ha hb
      keys small e =
    record {
      payload = payload;
      sent =
          bind_ok (call (λ s. payload_if lib entropy packet s.encryption_enabled s)) _ {t = c}
            {a = payload} (rw (on, e))
          ∙ rw (d.publishes data_channel c.session_config.topic_outbound payload);
      arrives =
          rw topic
            (message_arrived-encrypt_data lib.sodium c.crypto_manager m channel c.client_base_id
              packet payload a b entropy laws lc li ne ha hb keys small e).1;
    }
