-- ===== src/SecureHandshake.antt =====
-- The handshake between src/TunnelClient.cpp and src/TunnelServer.cpp with encryption, over the
-- messages that each side publishes on the command channel: the exchange of keys, and the plain
-- handshake's messages in their envelopes.
pub mod Passing
pub mod Agreement
pub mod Carriage
pub mod Release
use mqtt_tunnel.IpPool.{allocate_ip}
use mqtt_tunnel.SessionMap.{add_session}
use mqtt_tunnel.Base.{
  ◌≡◌, refl, sym, ◌∙◌, ap, true, some, none, [], ◌∷◌, ◌++◌, ok, length, ◌+◌, ◌≤◌, ℕ, arith, subst,
  Option-cases, inl, inr, List, Option,
}
use mqtt_tunnel.Base.Text.{Str, codes}
use mqtt_tunnel.Base.Dict.{Dict, lookup, dict_laws}
use mqtt_tunnel.Types.{SessionConfig}
use mqtt_tunnel.Cereal.{CerealLaws}
use mqtt_tunnel.Sodium.{Sodium, SodiumLaws}
use mqtt_tunnel.Messages.{
  ClientHello, ServerHello, ClientHelloCrypto, ServerHelloCrypto, to_string,
  client_hello_serializable, server_hello_serializable, client_ack_serializable,
  server_ack_serializable, client_hello_crypto_serializable, server_hello_crypto_serializable,
  client_hello_crypto, server_hello_crypto, MessageIdentifier,
}
use mqtt_tunnel.Messages.RoundTrip.{IsListed, IsListedMode}
use mqtt_tunnel.CryptoManager.{
  FileSystem, CryptoManager, CryptoSessionConfig, encrypt_data, decrypt_data, max_size,
  generate_client_hello, establish_server_session, establish_client_session,
}
use mqtt_tunnel.CryptoManager.Agreement.{
  Exchanged-IsMirrored, IsMirrored, generate_client_hello-Greeted,
  establish_server_session-Answered,
}
use mqtt_tunnel.CryptoManager.PacketLaws.{decrypt_data-encrypt_data}
use mqtt_tunnel.Libraries.{data_channel, subscribed, Libraries, Moment, published, command, Effect}
use mqtt_tunnel.Libraries.Calls.{log}
use mqtt_tunnel.Logs.{Logged}
use mqtt_tunnel.Handshake.{SameSession}
use mqtt_tunnel.TunnelServer.State.{TunnelServer, server_log}
use mqtt_tunnel.TunnelServer.Handshake.{
  may_greet, set_state, note_hello, server_hello_for, session_config_for, set_handshake, activate,
  log_established,
}
use mqtt_tunnel.TunnelServer.Loop.{end_session, handle_message}
use mqtt_tunnel.TunnelServer.Replies.{
  Delivers, config_of, masked, greeted_by, acknowledged_by, server_ack_for, waiting_greeted_by,
  answered,
}
use mqtt_tunnel.TunnelServer.Secure.{
  Opens, handle_message-keyed, handle_message-greeted_by, handle_message-acknowledged_by,
}
use mqtt_tunnel.TunnelServer.Secure as Server
use mqtt_tunnel.TunnelClient.State.{TunnelClient, client_log}
use mqtt_tunnel.TunnelClient.Session.{Draws, client_hello_for, setup_session, configure}
use mqtt_tunnel.TunnelClient.Parts.{client_ack_for, set_up_by}
use mqtt_tunnel.TunnelClient.Secure.{envelope, setup_session_secure}
use mqtt_tunnel.TunnelClient.Secure as Client

-- An exchange of keys in which libsodium's calls succeed, the client accepts the server, and the new
-- identifier is free on both sides. The sizes are those of the arrays in the messages.
pub record KeyExchange (lib : Libraries) (draws : Draws) (fs : FileSystem) (at : Moment)
    (s : TunnelServer) (c : TunnelClient) : Type 0 where
  pub hello : ClientHelloCrypto
  pub keys : ServerHelloCrypto
  pub server_manager : CryptoManager
  pub between : CryptoManager
  pub client_manager : CryptoManager
  pub greets :
      generate_client_hello lib.sodium draws.key c.client_base_id c.crypto_manager
      ≡ (ok hello, between)
  pub answers :
      establish_server_session lib.sodium at.entropy at.now hello s.crypto_manager
      ≡ (ok keys, server_manager)
  pub joins : establish_client_session lib.sodium fs keys between ≡ (ok tt, client_manager)
  pub server_new : lookup keys.unique_identifier s.crypto_manager.session_map ≡ none
  pub client_new : lookup keys.unique_identifier between.session_map ≡ none
  pub key_size : length hello.client_ephemeral_public_key ≡ 32
  pub sizes : (length keys.server_ephemeral_public_key ≡ 32) × (length keys.signature_message ≡ 64)

-- `crypto_secretbox_easy` does not fail.
pub record Seals (s : Sodium) : Type 0 where
  pub seals : (m n k : Str) → (c : Str) × (s.crypto_secretbox_easy m n k ≡ some c)

module _ {lib : Libraries} {draws : Draws} {fs : FileSystem} {first : Moment} {s : TunnelServer}
    {c : TunnelClient} (x : KeyExchange lib draws fs first s c) where
  abbrev pub session_name : Str
  session_name = x.keys.unique_identifier

  -- The messages of the run: the client's hello, the session that the server makes of it, the
  -- server's hello, and the two acknowledgements.
  abbrev pub hello_message : ClientHello
  hello_message = client_hello_for draws (record c { client_base_id = session_name })

  abbrev pub keyed_server : TunnelServer
  keyed_server = Server.keyed lib x.keys x.server_manager s

  module _ (second : Moment) where
    abbrev pub session_made : SessionConfig
    session_made = config_of lib second hello_message keyed_server

    abbrev pub reply_message : ServerHello
    reply_message = server_hello_for hello_message session_made

    -- The four messages that are encrypted are no larger than a vector can be.
    pub record AreSmall : Type 0 where
      pub hello_small : length (to_string lib.cereal hello_message) + 40 ≤ max_size
      pub reply_small : length (to_string lib.cereal reply_message) + 40 ≤ max_size
      pub ack_small : length (to_string lib.cereal (client_ack_for reply_message)) + 40 ≤ max_size
      pub done_small : length (to_string lib.cereal (server_ack_for session_made)) + 40 ≤ max_size

  module _ (second third : Moment) where
    -- A run of the handshake: the server handles the client's three messages, the client sets its
    -- session up from the server's three answers, and each message was published by its sender.
    pub record SecureAgreement : Type 0 where
      pub hello_packet : Str
      pub reply_packet : Str
      pub ack_packet : Str
      pub done_packet : Str
      pub greeted_server : TunnelServer
      pub server : TunnelServer
      pub client : TunnelClient
      pub exchanges :
          handle_message lib first (to_string lib.cereal x.hello) s ≡ (ok tt, keyed_server)
      pub greets :
          handle_message lib second (envelope lib session_name hello_packet) keyed_server
          ≡ (ok tt, greeted_server)
      pub acknowledges :
          handle_message lib third (envelope lib session_name ack_packet) greeted_server
          ≡ (ok tt, server)
      pub sets_up :
          setup_session lib draws fs (record c {
            inbox =
                some (to_string lib.cereal x.keys)
                ∷ some (envelope lib session_name reply_packet)
                ∷ some (envelope lib session_name done_packet)
                ∷ [];
          })
          ≡ (ok tt, client)
      pub key_sent :
          Logged
            (published command
              (c.command_channel_name ++ codes "_RX")
              (to_string lib.cereal x.hello)
              1)
            client.effects
      pub hello_sent :
          Logged
            (published command
              (c.command_channel_name ++ codes "_RX")
              (envelope lib session_name hello_packet)
              1)
            client.effects
      pub ack_sent :
          Logged
            (published command
              (c.command_channel_name ++ codes "_RX")
              (envelope lib session_name ack_packet)
              1)
            client.effects
      pub keys_sent :
          Logged
            (published command
              (s.command_channel_name ++ codes "_TX")
              (to_string lib.cereal x.keys)
              1)
            keyed_server.effects
      pub reply_sent :
          Logged
            (published command
              (s.command_channel_name ++ codes "_TX")
              (envelope lib session_name reply_packet)
              1)
            greeted_server.effects
      pub done_sent :
          Logged
            (published command
              (s.command_channel_name ++ codes "_TX")
              (envelope lib session_name done_packet)
              1)
            server.effects
      pub active : lookup session_name server.active_clients ≡ some (session_made second)
      pub same : SameSession (session_made second) client.session_config
      pub mirrored : IsMirrored session_name server.crypto_manager client.crypto_manager
      pub ready : client.session_configured ≡ true
      pub pool : server.ip_pool ≡ (allocate_ip s.ip_pool).1
      pub named : client.client_base_id ≡ session_name
      pub client_on : client.encryption_enabled ≡ true
      pub server_on : server.encryption_enabled ≡ true
      pub listens :
          Logged (subscribed data_channel (session_made second).topic_outbound 1) server.effects
      pub clients :
          server.active_clients ≡ add_session s.active_clients session_name (session_made second)
