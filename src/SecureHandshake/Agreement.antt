-- ===== src/SecureHandshake/Agreement.antt =====
-- The handshake with encryption between src/TunnelClient.cpp and src/TunnelServer.cpp: that it leads
-- to one session and mirrored keys.
use mqtt_tunnel.Handshake.{SameSession}
use mqtt_tunnel.SecureHandshake.Passing.{
  may_greet_noted, listed, after_commands, mirror, hello_kind, keys_kind, Opens-of, up, down,
}
use mqtt_tunnel.Base.{◌∙◌, ◌≡◌, refl, sym, true, some, [], ◌∷◌, subst, List, Option}
use mqtt_tunnel.Base.Text.{Str}
use mqtt_tunnel.Cereal.{CerealLaws}
use mqtt_tunnel.Sodium.{SodiumLaws}
use mqtt_tunnel.Messages.{
  to_string, client_hello_serializable, server_hello_serializable, client_ack_serializable,
  server_ack_serializable, client_hello_crypto_serializable, server_hello_crypto_serializable,
}
use mqtt_tunnel.Messages.RoundTrip.{IsListedMode}
use mqtt_tunnel.CryptoManager.{FileSystem}
use mqtt_tunnel.CryptoManager.Agreement.{IsMirrored}
use mqtt_tunnel.Libraries.{Libraries, Moment}
use mqtt_tunnel.Libraries.Calls.{log}
use mqtt_tunnel.Logs.{Logged-last, Logged-before, acknowledged_by-Acknowledged}
use mqtt_tunnel.TunnelServer.State.{TunnelServer, server_log}
use mqtt_tunnel.TunnelServer.Handshake.{
  note_hello, server_hello_for, session_config_for, set_handshake, activate, log_established,
}
use mqtt_tunnel.TunnelServer.Replies.{
  Delivers, greeted_by, acknowledged_by, server_ack_for, waiting_greeted_by, answered,
}
use mqtt_tunnel.TunnelServer.Secure.{
  handle_message-keyed, handle_message-greeted_by, handle_message-acknowledged_by,
}
use mqtt_tunnel.TunnelClient.State.{TunnelClient, client_log}
use mqtt_tunnel.TunnelClient.Session.{Draws, client_hello_for, configure}
use mqtt_tunnel.TunnelClient.Parts.{client_ack_for, set_up_by}
use mqtt_tunnel.TunnelClient.Secure.{envelope, setup_session_secure}
use mqtt_tunnel.TunnelClient.Secure as Client
use mqtt_tunnel.SecureHandshake.{
  KeyExchange, Seals, session_name, hello_message, keyed_server, session_made, reply_message,
  AreSmall, SecureAgreement,
}

module _ {lib : Libraries} {draws : Draws} {fs : FileSystem} {first : Moment} {s : TunnelServer}
    {c : TunnelClient} (x : KeyExchange lib draws fs first s c) where
  abbrev sealed_text : Str → Str
  sealed_text packet = envelope lib (session_name x) packet

  -- The server with the new keys, and the client with its coming answers.
  abbrev answering : TunnelServer
  answering =
      answered (to_string lib.cereal x.keys) (record s { crypto_manager = x.server_manager })

  abbrev keyed_client : List (Option Str) → TunnelClient
  keyed_client answers = Client.keyed lib x.hello x.keys x.between x.client_manager answers c

  same_session :
      (second : Moment)
      → SameSession (session_made x second) (configure (reply_message x second) c).session_config
  unfolding client_hello_for server_hello_for session_config_for configure log note_hello
  same_session second = record {
    client_id = refl;
    client_address = refl;
    server_address = refl;
    topic_inbound = refl;
    topic_outbound = refl;
    session_id = refl;
  }

  -- With encryption, where the MQTT library delivers, the JSON library reads what it wrote and
  -- libsodium keeps its laws and does not fail to seal, a client of a listed mode and a server that
  -- exchange keys under a new identifier complete the handshake, whatever the server knew of
  -- earlier handshakes: the server's three calls return, the client's set-up returns, both have the
  -- same session, with the same addresses, topics and session id, and they hold mirrored keys.
  pub secure_handshake-Agreement :
      CerealLaws lib.cereal
      → SodiumLaws lib.sodium
      → Seals lib.sodium
      → (second third : Moment) → Delivers lib.mqtt
      → s.encryption_enabled ≡ true
      → c.encryption_enabled ≡ true
      → IsListedMode c.tunnel_mode
      → AreSmall x second
      → SecureAgreement x second third
  unfolding client_hello_for server_hello_for session_config_for configure log set_handshake
      note_hello activate log_established
  secure_handshake-Agreement laws crypto k second third d server_on client_on mode small =
      let ack_message = client_ack_for (reply_message x second) in
      let made = session_made x second in
      let hello = up x crypto k draws.hello_nonce _ small.hello_small in
      let reply = down x crypto k second.entropy _ small.reply_small in
      let ack = up x crypto k draws.ack_nonce _ small.ack_small in
      let done = down x crypto k third.entropy _ small.done_small in
      let o = Opens-of x (mirror x crypto) in
      let greeted =
        greeted_by (sealed_text reply.packet) lib second (hello_message x) (keyed_server x) in
      let end = acknowledged_by-Acknowledged (sealed_text done.packet) ack_message made greeted in
      record {
        hello_packet = hello.packet;
        reply_packet = reply.packet;
        ack_packet = ack.packet;
        done_packet = done.packet;
        greeted_server = greeted;
        server = acknowledged_by (sealed_text done.packet) ack_message made greeted;
        client =
            set_up_by (sealed_text hello.packet) (sealed_text ack.packet) (reply_message x second)
              (some (sealed_text done.packet) ∷ [])
              (keyed_client
                (some (sealed_text reply.packet) ∷ some (sealed_text done.packet) ∷ []));
        exchanges =
            handle_message-keyed lib first laws d x.hello x.keys x.server_manager s (hello_kind x)
              (listed (hello_kind x) tt, x.key_size) x.answers;
        greets =
            handle_message-greeted_by lib second laws d crypto x.client_manager draws.hello_nonce
              hello.packet reply.packet (keyed_server x) server_on (hello_message x) refl (tt, mode)
              o small.hello_small hello.sealed (may_greet_noted (session_name x) answering)
              reply.sealed;
        acknowledges =
            handle_message-acknowledged_by lib third laws d crypto x.client_manager draws.ack_nonce
              ack.packet done.packet greeted server_on ack_message made refl (tt, tt) o
              small.ack_small ack.sealed
              (waiting_greeted_by (sealed_text reply.packet) lib second (hello_message x)
                (keyed_server x))
              refl refl done.sealed;
        sets_up =
            setup_session_secure lib laws d draws fs x.hello x.keys x.between x.client_manager _
              x.greets x.joins (listed (keys_kind x) tt, x.sizes) (reply_message x second)
              (server_ack_for made) hello.packet reply.packet ack.packet done.packet client_on refl
              (tt, tt) (tt, tt) hello.sealed reply.opened ack.sealed done.opened refl;
        key_sent =
            after_commands _ _ _ _
              (Logged-before _ _ _ (Logged-before _ _ _ (Logged-last _ c.effects)));
        hello_sent = after_commands _ _ _ _ (Logged-before _ _ _ (Logged-last _ _));
        ack_sent = after_commands _ _ _ _ (Logged-last _ _);
        keys_sent = Logged-last _ s.effects;
        reply_sent = Logged-last _ (keyed_server x).effects;
        done_sent = end.sent;
        active = end.active;
        same = same_session second;
        mirrored =
            subst (λ m. IsMirrored (session_name x) m x.client_manager) (sym end.same_crypto)
              (mirror x crypto);
        ready = refl;
        pool = end.same_pool;
        named = refl;
        client_on = client_on;
        server_on = end.same_encryption ∙ server_on;
        listens = end.listens;
        clients = end.clients;
      }
