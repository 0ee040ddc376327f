-- ===== src/Handshake.antt =====
-- The handshake between src/TunnelClient.cpp and src/TunnelServer.cpp without encryption, over the
-- messages that each side publishes on the command channel.
use mqtt_tunnel.Base.{◌≡◌, refl, true, false, some, [], ◌∷◌, ◌++◌, ok}
use mqtt_tunnel.Base.Text.{Str, codes}
use mqtt_tunnel.Base.Dict.{lookup}
use mqtt_tunnel.Types.{SessionConfig}
use mqtt_tunnel.Cereal.{CerealLaws}
use mqtt_tunnel.Messages.{
  server_hello, ClientHello, ServerHello, to_string, client_hello_serializable,
  server_hello_serializable, client_ack_serializable, server_ack_serializable,
}
use mqtt_tunnel.Messages.RoundTrip.{server_hello_read_as_ack, IsListedMode}
use mqtt_tunnel.Messages.Laws.{
  a_client_hello, a_server_hello, a_client_ack, a_server_ack, from_string-to_string,
  header_from_string-text,
}
use mqtt_tunnel.CryptoManager.{FileSystem}
use mqtt_tunnel.Libraries.{Libraries, Moment, published, command}
use mqtt_tunnel.Libraries.Calls.{log}
use mqtt_tunnel.Logs.{
  Logged, Logged-last, Logged-before, Logged-acknowledged_by, active_acknowledged_by,
}
use mqtt_tunnel.TunnelServer.State.{TunnelServer}
use mqtt_tunnel.TunnelServer.Handshake.{
  may_greet, server_hello_for, session_config_for, set_handshake,
}
use mqtt_tunnel.TunnelServer.Loop.{handle_message}
use mqtt_tunnel.TunnelServer.Plain.{
  Delivers, config_of, greeted, acknowledged, server_ack_for, handle_message-greeted,
  handle_message-acknowledged, waiting_greeted,
}
use mqtt_tunnel.TunnelClient.State.{TunnelClient}
use mqtt_tunnel.TunnelClient.Session.{Draws, client_hello_for, setup_session, configure}
use mqtt_tunnel.TunnelClient.Plain.{
  client_ack_for, set_up_client, setup_session_plain, setup_session_lost,
}

-- Server and client have the same session.
pub record SameSession (c d : SessionConfig) : Type 0 where
  pub client_id : c.client_id ≡ d.client_id
  pub client_address : c.client_address ≡ d.client_address
  pub server_address : c.server_address ≡ d.server_address
  pub topic_inbound : c.topic_inbound ≡ d.topic_inbound
  pub topic_outbound : c.topic_outbound ≡ d.topic_outbound
  pub session_id : c.session_id ≡ d.session_id

-- A run of the handshake: the server handles the client's hello and then its acknowledgement, and the
-- client sets its session up from the server's two answers; each message was published by its sender.
pub record Agreement (lib : Libraries) (draws : Draws) (fs : FileSystem) (at later : Moment)
    (s : TunnelServer) (c : TunnelClient) : Type 0 where
  pub hello : Str
  pub reply : Str
  pub ack : Str
  pub done : Str
  pub greeted_server : TunnelServer
  pub server : TunnelServer
  pub client : TunnelClient
  pub session : SessionConfig
  pub greets : handle_message lib at hello s ≡ (ok tt, greeted_server)
  pub acknowledges : handle_message lib later ack greeted_server ≡ (ok tt, server)
  pub sets_up :
      setup_session lib draws fs (record c { inbox = some reply ∷ some done ∷ [] })
      ≡ (ok tt, client)
  pub hello_sent :
      Logged (published command (c.command_channel_name ++ codes "_RX") hello 1) client.effects
  pub ack_sent :
      Logged (published command (c.command_channel_name ++ codes "_RX") ack 1) client.effects
  pub reply_sent :
      Logged
        (published command (s.command_channel_name ++ codes "_TX") reply 1)
        greeted_server.effects
  pub done_sent :
      Logged (published command (s.command_channel_name ++ codes "_TX") done 1) server.effects
  pub active : lookup session.client_id server.active_clients ≡ some session
  pub same : SameSession session client.session_config
  pub ready : client.session_configured ≡ true

-- Without encryption, where the MQTT library delivers and the JSON library reads what it wrote, a
-- client of a listed mode and a server that does not already wait for the client's acknowledgement
-- complete the handshake: both calls of the server return, the client's set-up returns, and both have
-- the same session, with the same addresses, topics and session id.
pub handshake-Agreement :
    (lib : Libraries) (draws : Draws) (fs : FileSystem) (at later : Moment) (s : TunnelServer)
    (c : TunnelClient)
    → CerealLaws lib.cereal
    → Delivers lib.mqtt
    → s.encryption_enabled ≡ false
    → c.encryption_enabled ≡ false
    → IsListedMode c.tunnel_mode
    → may_greet (lookup c.client_base_id s.handshake_states) ≡ true
    → Agreement lib draws fs at later s c
unfolding client_hello_for server_hello_for session_config_for configure log set_handshake
handshake-Agreement lib draws fs at later s c laws d plain_server plain_client mode expected =
    record {
      hello = to_string lib.cereal hello;
      reply = to_string lib.cereal reply;
      ack = to_string lib.cereal (client_ack_for reply);
      done = to_string lib.cereal (server_ack_for config);
      greeted_server = greeted lib at hello s;
      server = acknowledged lib (client_ack_for reply) config (greeted lib at hello s);
      client = set_up_client lib hello reply c;
      session = config;
      greets =
          handle_message-greeted lib at d _ hello s plain_server
            (header_from_string-text lib.cereal (a_client_hello hello) laws tt)
            (from_string-to_string lib.cereal (a_client_hello hello) laws (tt, mode)) expected;
      acknowledges =
          handle_message-acknowledged lib later d _ (client_ack_for reply) config
            (greeted lib at hello s) plain_server
            (header_from_string-text lib.cereal (a_client_ack (client_ack_for reply)) laws tt)
            (from_string-to_string lib.cereal (a_client_ack (client_ack_for reply)) laws (tt, tt))
            (waiting_greeted lib at hello s) refl refl;
      sets_up =
          setup_session_plain lib draws fs _ reply (server_ack_for config)
            (record c {
              inbox =
                  some (to_string lib.cereal reply)
                  ∷ some (to_string lib.cereal (server_ack_for config))
                  ∷ [];
            })
            d plain_client (from_string-to_string lib.cereal (a_server_hello reply) laws (tt, tt))
            refl _ refl
            (from_string-to_string lib.cereal (a_server_ack (server_ack_for config)) laws (tt, tt));
      hello_sent = Logged-before _ _ _ (
          Logged-before _ _ _ (
            Logged-before _ _ _
              (Logged-before _ _ _ (Logged-before _ _ _ (Logged-last _ c.effects)))));
      ack_sent =
          Logged-before _ _ _
            (Logged-before _ _ _ (Logged-before _ _ _ (Logged-before _ _ _ (Logged-last _ _))));
      reply_sent = Logged-last _ s.effects;
      done_sent = Logged-acknowledged_by _ (client_ack_for reply) config (greeted lib at hello s);
      active = active_acknowledged_by _ (client_ack_for reply) config (greeted lib at hello s);
      same = record {
        client_id = refl;
        client_address = refl;
        server_address = refl;
        topic_inbound = refl;
        topic_outbound = refl;
        session_id = refl;
      };
      ready = refl;
    }
  where
    hello : ClientHello
    hello = client_hello_for draws c

    config : SessionConfig
    config = config_of lib at hello s

    reply : ServerHello
    reply = server_hello_for hello config

-- Without encryption, where the MQTT library delivers and the JSON library reads what it wrote, a
-- client that finds the server's hello and then no acknowledgement at all finishes its set-up all
-- the same, if the hello carries the client's handshake identifier: the text of the hello, which is
-- still there after the last wait, is read as the acknowledgement.
pub setup_session_without_ack :
    (lib : Libraries) (draws : Draws) (fs : FileSystem) (reply : ServerHello) (c : TunnelClient)
    → CerealLaws lib.cereal
    → Delivers lib.mqtt
    → c.encryption_enabled ≡ false
    → reply.message_identifier ≡ server_hello
    → reply.handshake_identifier ≡ (client_hello_for draws c).handshake_identifier
    → c.inbox ≡ some (to_string lib.cereal reply) ∷ []
    → setup_session lib draws fs c ≡ (ok tt, set_up_client lib (client_hello_for draws c) reply c)
setup_session_without_ack lib draws fs reply c laws d plain kind same there =
    setup_session_lost lib draws fs (to_string lib.cereal reply) reply
      (record {
        message_identifier = server_hello;
        handshake_identifier = reply.handshake_identifier;
      })
      c d plain (from_string-to_string lib.cereal (a_server_hello reply) laws (rw kind tt, tt)) same
      there (server_hello_read_as_ack lib.cereal reply laws kind)
