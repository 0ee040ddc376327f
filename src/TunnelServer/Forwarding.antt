-- ===== src/TunnelServer/Forwarding.antt =====
-- src/TunnelServer.cpp, `async_tun_read`: which client a packet goes to.
use mqtt_tunnel.Base.{ℕ, ◌+◌, ◌≤◌, ◌≡◌, ◌≢◌, ◌∙◌, ap, true, some, [], ok, length}
use mqtt_tunnel.Base.Text.{Str, Lacks}
use mqtt_tunnel.Base.Dict.{lookup}
use mqtt_tunnel.Base.State.{bind_ok, call, get}
use mqtt_tunnel.Types.{SessionConfig, empty_config}
use mqtt_tunnel.SessionMap.{get_session_by_ip}
use mqtt_tunnel.Helpers.{ip_to_string}
use mqtt_tunnel.Sodium.{SodiumLaws}
use mqtt_tunnel.CryptoManager.{CryptoManager, CryptoSessionConfig, encrypt_data, max_size}
use mqtt_tunnel.TunCallback.{message_arrived}
use mqtt_tunnel.TunCallback.Delivery.{message_arrived-encrypt_data}
use mqtt_tunnel.Libraries.{Libraries, data_channel, published}
use mqtt_tunnel.Libraries.Calls.{log, publish}
use mqtt_tunnel.TunnelServer.State.{TunnelServer, server_log}
use mqtt_tunnel.TunnelServer.Handshake.{inbound_topic}
use mqtt_tunnel.TunnelServer.Plain.{Delivers}
use mqtt_tunnel.TunnelServer.TunRead.{overwrite, daddr, tun_round, forward, payload_for, publish_if}

-- What a round does with a packet for a client: it is published on the client's topic, and what
-- arrives there is the packet.
pub record Reaches (lib : Libraries) (entropy : ℕ) (buffer packet : Str) (s : TunnelServer)
    (session : SessionConfig) (n : CryptoManager) : Type 0 where
  pub payload : Str
  pub sent : tun_round lib entropy buffer (some packet) s ≡ (
    ok (overwrite buffer packet),
    log (published data_channel session.topic_inbound payload 0) s,
  )
  pub arrives : message_arrived lib.sodium n true session.topic_inbound payload ≡ ok (some packet)

pub tun_round-Reaches :
    (lib : Libraries) (entropy : ℕ) (buffer packet payload channel : Str) (s : TunnelServer)
    (session : SessionConfig) (n : CryptoManager) (a b : CryptoSessionConfig)
    → SodiumLaws lib.sodium
    → Delivers lib.mqtt
    → s.encryption_enabled ≡ true
    → get_session_by_ip s.active_clients
        (ip_to_string lib.helpers (daddr (overwrite buffer packet)))
        empty_config
      ≡ (true, session)
    → session.topic_inbound ≡ inbound_topic channel session.client_id
    → Lacks b'/' channel
    → Lacks b'/' session.client_id
    → session.client_id ≢ []
    → lookup session.client_id s.crypto_manager.session_map ≡ some a
    → lookup session.client_id n.session_map ≡ some b
    → a.tx ≡ b.rx
    → length packet + 40 ≤ max_size
    → encrypt_data lib.sodium entropy s.crypto_manager packet session.client_id ≡ ok payload
    → Reaches lib entropy buffer packet s session n
unfolding tun_round forward payload_for publish_if publish
tun_round-Reaches lib entropy buffer packet payload channel s session n a b laws d encrypted found
      topic lc li ne ha hb keys small e =
    record {
      payload = payload;
      sent =
          bind_ok (get _) _ (ap (λ r. (ok r, s)) found)
          ∙ bind_ok (forward lib entropy packet (true, session)) _ forwarded;
      arrives =
          rw topic
            (message_arrived-encrypt_data lib.sodium s.crypto_manager n channel session.client_id
              packet payload a b entropy laws lc li ne ha hb keys small e).0;
    }
  where
    forwarded :
        forward lib entropy packet (true, session) s
        ≡ (ok tt, log (published data_channel session.topic_inbound payload 0) s)
    forwarded =
        bind_ok (call (payload_for lib entropy packet session)) _ {t = s} {a = some payload}
          (rw (encrypted, e))
        ∙ rw (d.publishes data_channel session.topic_inbound payload)
