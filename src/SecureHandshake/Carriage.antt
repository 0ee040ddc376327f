-- ===== src/SecureHandshake/Carriage.antt =====
-- From the handshake to the packets of the TUN threads of src/TunnelClient.cpp and
-- src/TunnelServer.cpp: what client and server send each other once a handshake with encryption is
-- done.
use mqtt_tunnel.Base.State.{◌>>=◌}
use mqtt_tunnel.TunnelClient.Tunnel.{connect_data_channel}
use mqtt_tunnel.Logs.{Logged, Logged-last}
use mqtt_tunnel.Libraries.Calls.{log, connect, subscribe}
use mqtt_tunnel.Base.{subst, ◌≡◌, ◌≢◌, refl, sym, ap, ◌∙◌, true, [], ok, length, ◌+◌, ◌≤◌, ℕ}
use mqtt_tunnel.Base.Text.{Str, Lacks}
use mqtt_tunnel.Base.Dict.{lookup}
use mqtt_tunnel.Base.Dict.Order.{IsSorted, insert-IsSorted}
use mqtt_tunnel.Types.{empty_config}
use mqtt_tunnel.SessionMap.{add_session, get_session_by_ip}
use mqtt_tunnel.SessionMap.Search.{get_session_by_ip-only}
use mqtt_tunnel.Helpers.{ip_to_string}
use mqtt_tunnel.Cereal.{CerealLaws}
use mqtt_tunnel.Sodium.{SodiumLaws}
use mqtt_tunnel.Messages.RoundTrip.{IsListedMode}
use mqtt_tunnel.CryptoManager.{encrypt_data, FileSystem, max_size}
use mqtt_tunnel.Libraries.{Libraries, Moment, data_channel, subscribed}
use mqtt_tunnel.TunnelServer.State.{TunnelServer}
use mqtt_tunnel.TunnelServer.Handshake.{outbound_topic, session_config_for, note_hello}
use mqtt_tunnel.TunnelServer.Loop.{handle_message}
use mqtt_tunnel.TunnelServer.TunRead.{overwrite, daddr}
use mqtt_tunnel.TunnelServer.Replies.{Delivers}
use mqtt_tunnel.TunnelServer.Forwarding.{Reaches, tun_round-Reaches}
use mqtt_tunnel.TunnelServer.Leases.Frames.{IsServing}
use mqtt_tunnel.TunnelServer.Leases.Runs.{handle_message-IsServing, distinct_addresses}
use mqtt_tunnel.TunnelClient.State.{TunnelClient}
use mqtt_tunnel.TunnelClient.Session.{Draws, client_hello_for}
use mqtt_tunnel.TunnelClient.Forwarding.{ReachesServer, tun_round-ReachesServer}
use mqtt_tunnel.SecureHandshake.{
  KeyExchange, Seals, session_name, session_made, AreSmall, SecureAgreement,
}
use mqtt_tunnel.SecureHandshake.Passing.{encrypt_data-Seals}
use mqtt_tunnel.SecureHandshake.Agreement.{secure_handshake-Agreement}

-- A message that returns keeps the invariant of the leases.
handled-IsServing :
    (lib : Libraries) (at : Moment) (payload : Str) (s t : TunnelServer)
    → handle_message lib at payload s ≡ (ok tt, t)
    → IsServing s
    → IsServing t
handled-IsServing lib at payload s t e v =
    let kept = handle_message-IsServing lib at payload s v in subst (λ r. IsServing r.1) e kept

module _ {lib : Libraries} {draws : Draws} {fs : FileSystem} {first second third : Moment}
    {s : TunnelServer} {c : TunnelClient} (x : KeyExchange lib draws fs first s c)
    (a : SecureAgreement x second third) where
  serves : IsServing s → IsServing a.server
  serves v = handled-IsServing lib third _ _ _ a.acknowledges (
      handled-IsServing lib second _ _ _ a.greets (handled-IsServing lib first _ _ _ a.exchanges v))

  sorted : IsSorted s.active_clients → IsSorted a.server.active_clients
  unfolding add_session
  sorted v =
      subst IsSorted (sym a.clients)
        (insert-IsSorted (session_name x) (session_made x second) s.active_clients v)

  -- The server finds the client by its address.
  finds :
      (ip : Str)
      → IsServing s
      → IsSorted s.active_clients
      → ip ≡ (session_made x second).client_address
      → ip ≢ []
      → get_session_by_ip a.server.active_clients ip empty_config ≡ (true, session_made x second)
  finds ip v w own ne =
      get_session_by_ip-only a.server.active_clients ip empty_config (session_name x)
        (session_made x second) (sorted w) a.active (sym own)
        (λ j d l e.
          distinct_addresses a.server j (session_name x) d (session_made x second) (serves v) l
            a.active (e ∙ own) (λ n. ne (sym e ∙ n)))

  listens :
      Delivers lib.mqtt
      → Logged
          (subscribed data_channel (session_made x second).topic_inbound 1)
          (connect_data_channel lib a.client).1.effects
  unfolding connect_data_channel connect subscribe ◌>>=◌
  listens d =
      rw
        (
          d.connects data_channel,
          d.subscribes data_channel a.client.session_config.topic_inbound,
          a.same.topic_inbound,
        )
        (Logged-last _ _)

  module _ (laws : SodiumLaws lib.sodium) (k : Seals lib.sodium) (d : Delivers lib.mqtt)
      (lc : Lacks b'/' s.command_channel_name) (li : Lacks b'/' (session_name x))
      (ne : session_name x ≢ []) where
    down :
        (entropy : ℕ) (buffer packet : Str)
        → IsServing s
        → IsSorted s.active_clients
        → ip_to_string lib.helpers (daddr (overwrite buffer packet))
          ≡ (session_made x second).client_address
        → ip_to_string lib.helpers (daddr (overwrite buffer packet)) ≢ []
        → length packet + 40 ≤ max_size
        → Reaches lib entropy buffer packet a.server (session_made x second) a.client.crypto_manager
    unfolding session_config_for note_hello log client_hello_for
    down entropy buffer packet v w own has small =
        let m = a.mirrored in
        let (payload, e) =
          encrypt_data-Seals lib.sodium entropy a.server.crypto_manager packet (session_name x)
            m.server_session k m.server_has in
        tun_round-Reaches lib entropy buffer packet payload s.command_channel_name a.server
          (session_made x second) a.client.crypto_manager m.server_session m.client_session laws d
          a.server_on (finds _ v w own has) refl lc li ne m.server_has m.client_has m.to_client
          small e

    up :
        (entropy : ℕ) (packet : Str)
        → length packet + 40 ≤ max_size
        → ReachesServer lib entropy packet a.client a.server.crypto_manager
    unfolding session_config_for note_hello log client_hello_for
    up entropy packet small =
        let m = a.mirrored in
        let (payload, e) =
          encrypt_data-Seals lib.sodium entropy a.client.crypto_manager packet (session_name x)
            m.client_session k m.client_has in
        tun_round-ReachesServer lib entropy packet payload s.command_channel_name a.client
          a.server.crypto_manager m.client_session m.server_session laws d a.client_on
          (sym a.same.topic_outbound
            ∙ ap (λ i. outbound_topic s.command_channel_name i) (sym a.named))
          lc (subst (Lacks b'/') (sym a.named) li) (λ n. ne (sym a.named ∙ n))
          (ap (λ i. lookup i a.client.crypto_manager.session_map) a.named ∙ m.client_has)
          (ap (λ i. lookup i a.server.crypto_manager.session_map) a.named ∙ m.server_has)
          m.to_server small
          (ap (λ i. encrypt_data lib.sodium entropy a.client.crypto_manager packet i) a.named ∙ e)

-- What a tunnel carries after the handshake: a packet of the client reaches the server, which listens
-- on the client's topic, and a packet of the server for the client's address reaches the client, which
-- listens on the server's once its data channel is connected.
pub record Carries {lib : Libraries} {draws : Draws} {fs : FileSystem} {first : Moment}
    {s : TunnelServer} {c : TunnelClient} (x : KeyExchange lib draws fs first s c)
    (second third : Moment) (entropy : ℕ) (buffer request response : Str) : Type 0 where
  pub agreement : SecureAgreement x second third
  pub reaches_server :
      ReachesServer lib entropy request agreement.client agreement.server.crypto_manager
  pub client_listens :
      Logged
        (subscribed data_channel (session_made x second).topic_inbound 1)
        (connect_data_channel lib agreement.client).1.effects
  pub reaches_client :
      Reaches lib entropy buffer response agreement.server
        (session_made x second)
        agreement.client.crypto_manager

-- Once a client and a server with encryption have exchanged keys, they complete the handshake, and
-- then the tunnel carries packets unchanged both ways: a packet that the client reads from its TUN
-- device arrives at the server's callback, and a packet that the server reads for the address that
-- the handshake gave to the client arrives at the client's. The conditions: the MQTT library
-- delivers, the JSON library and libsodium keep their laws and libsodium does not fail to seal, the
-- client's mode is a listed one, the server keeps its lease invariant and its sessions in order, the
-- pool has an address left, the name of the command channel and the identifier hold no slash, and the
-- messages and packets are no larger than a vector can be.
pub secure_handshake-Carries :
    {lib : Libraries} {draws : Draws} {fs : FileSystem} {first : Moment} {s : TunnelServer}
    {c : TunnelClient} (x : KeyExchange lib draws fs first s c) (second third : Moment)
    (entropy : ℕ) (buffer request response : Str)
    → CerealLaws lib.cereal
    → SodiumLaws lib.sodium
    → Seals lib.sodium
    → Delivers lib.mqtt
    → s.encryption_enabled ≡ true
    → c.encryption_enabled ≡ true
    → IsListedMode c.tunnel_mode
    → AreSmall x second
    → IsServing s
    → IsSorted s.active_clients
    → Lacks b'/' s.command_channel_name
    → Lacks b'/' (session_name x)
    → session_name x ≢ []
    → length request + 40 ≤ max_size
    → length response + 40 ≤ max_size
    → ip_to_string lib.helpers (daddr (overwrite buffer response))
      ≡ (session_made x second).client_address
    → (session_made x second).client_address ≢ []
    → Carries x second third entropy buffer request response
secure_handshake-Carries {lib} x second third entropy buffer request response laws crypto k d
      server_on client_on mode small v w lc li ne fits fits' own has =
    let a =
      secure_handshake-Agreement x laws crypto k second third d server_on client_on mode small in
    record {
      agreement = a;
      reaches_server = up x a crypto k d lc li ne entropy request fits;
      client_listens = listens x a d;
      reaches_client =
          down x a crypto k d lc li ne entropy buffer response v w own (λ n. has (sym own ∙ n))
            fits';
    }
