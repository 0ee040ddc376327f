-- ===== src/TunnelServer/Secure.antt =====
-- The handshake with encryption on the server, src/TunnelServer.cpp: the exchange of keys, and the two
-- messages of the client in their wrappers, each as one step.
use mqtt_tunnel.Base.Int.{pos}
use mqtt_tunnel.Messages.Identifier.{MessageIdentifier, identifier_to_number}
use mqtt_tunnel.Messages.RoundTrip.{IsListed}
use mqtt_tunnel.Base.{ℕ, ◌+◌, ◌≤◌, ◌≡◌, ◌∙◌, ap, true, some, ok, length}
use mqtt_tunnel.Base.Text.{Str}
use mqtt_tunnel.Base.Dict.{lookup}
use mqtt_tunnel.Base.State.{bind_ok, call}
use mqtt_tunnel.Types.{SessionConfig, handshake_client_ack}
use mqtt_tunnel.Cereal.{CerealLaws}
use mqtt_tunnel.Sodium.{SodiumLaws}
use mqtt_tunnel.Messages.{
  to_string, header_from_string, ClientHello, ClientAck, ClientHelloCrypto, ServerHelloCrypto,
  client_hello_serializable, client_ack_serializable, server_hello_serializable,
  server_ack_serializable, client_hello_crypto_serializable, server_hello_crypto_serializable,
  encrypted_wrapper_serializable, client_hello_crypto, client_hello, client_ack,
}
use mqtt_tunnel.Messages.Laws.{
  a_client_hello_crypto, a_client_hello, a_client_ack, IsWellFormed, from_string-to_string,
  header_from_string-text, Message, identifier, text,
}
use mqtt_tunnel.CryptoManager.{
  CryptoManager, CryptoSessionConfig, encrypt_data, max_size, establish_server_session,
}
use mqtt_tunnel.Libraries.{Libraries, Moment}
use mqtt_tunnel.TunnelServer.State.{TunnelServer, with_crypto}
use mqtt_tunnel.TunnelServer.Handshake.{
  wrapped, wrap_if, note_hello, send, handle_client_handshake, on_client_hello_crypto,
  server_hello_for, may_greet,
}
use mqtt_tunnel.TunnelServer.Loop.{handle_message, dispatch}
use mqtt_tunnel.TunnelServer.Replies.{
  Delivers, allocated, config_of, answered, greeted_by, acknowledged_by, server_ack_for,
  send_delivers, handle-greeted_by, handle-acknowledged_by,
}
use mqtt_tunnel.TunnelServer.Wrapped.{wrapper_for, handle_message-wrapped}

-- After the answer to the key exchange.
abbrev pub keyed : Libraries → ServerHelloCrypto → CryptoManager → TunnelServer → TunnelServer
keyed lib reply m s =
    note_hello reply.unique_identifier
      (answered (to_string lib.cereal reply) (record s { crypto_manager = m }))

-- A client's manager and the server's hold a session under the identifier, and the server opens what
-- the client seals.
pub record Opens (id : Str) (client server : CryptoManager) : Type 0 where
  pub client_session : CryptoSessionConfig
  pub server_session : CryptoSessionConfig
  pub client_has : lookup id client.session_map ≡ some client_session
  pub server_has : lookup id server.session_map ≡ some server_session
  pub same_key : client_session.tx ≡ server_session.rx

module _ (lib : Libraries) (at : Moment) (laws : CerealLaws lib.cereal)
    (d : Delivers lib.mqtt) where
  header_of :
      (m : Message) (k : MessageIdentifier)
      → identifier m ≡ k
      → IsListed (identifier m)
      → header_from_string lib.cereal (text lib.cereal m)
        ≡ ok (record { type = pos (identifier_to_number k) })
  header_of m k e w =
      header_from_string-text lib.cereal m laws w
      ∙ ap (λ k. ok (record { type = pos (identifier_to_number k) })) e

  pub wrapped_secure :
      (id payload packet : Str) (s : TunnelServer)
      → s.encryption_enabled ≡ true
      → encrypt_data lib.sodium at.entropy s.crypto_manager payload id ≡ ok packet
      → wrapped lib at id payload s ≡ (ok (to_string lib.cereal (wrapper_for id packet)), s)
  unfolding wrapped wrap_if
  wrapped_secure id payload packet s on seals =
      ap (λ b. wrap_if lib at id payload b s) on ∙ bind_ok (call _) _ (ap (λ r. (r, s)) seals)

  pub handle_message-keyed :
      (hello : ClientHelloCrypto) (reply : ServerHelloCrypto) (m : CryptoManager) (s : TunnelServer)
      → hello.message_identifier ≡ client_hello_crypto
      → IsWellFormed (a_client_hello_crypto hello)
      → establish_server_session lib.sodium at.entropy at.now hello s.crypto_manager ≡ (ok reply, m)
      → handle_message lib at (to_string lib.cereal hello) s ≡ (ok tt, keyed lib reply m s)
  unfolding handle_message dispatch handle_client_handshake on_client_hello_crypto with_crypto
  handle_message-keyed hello reply m s kind w answers =
      bind_ok (call _) _
        (ap (λ r. (r, s)) (header_of (a_client_hello_crypto hello) client_hello_crypto kind w.0))
      ∙ bind_ok (call _) _
          (ap (λ r. (r, s)) (from_string-to_string lib.cereal (a_client_hello_crypto hello) laws w))
      ∙ bind_ok (with_crypto _) _ {t = record s { crypto_manager = m }} {a = reply} (rw answers)
      ∙ bind_ok (send lib _) _ (send_delivers lib at d _ (record s { crypto_manager = m }))

  module _ (crypto : SodiumLaws lib.sodium) (client : CryptoManager) (entropy : ℕ)
      (sealed packet : Str) (s : TunnelServer) (on : s.encryption_enabled ≡ true) where
    pub handle_message-greeted_by :
        (hello : ClientHello)
        → hello.message_identifier ≡ client_hello
        → IsWellFormed (a_client_hello hello)
        → Opens hello.client_base_id client s.crypto_manager
        → length (to_string lib.cereal hello) + 40 ≤ max_size
        → encrypt_data lib.sodium entropy client (to_string lib.cereal hello) hello.client_base_id
          ≡ ok sealed
        → may_greet (lookup hello.client_base_id s.handshake_states) ≡ true
        → encrypt_data lib.sodium at.entropy s.crypto_manager
            (to_string lib.cereal (server_hello_for hello (config_of lib at hello s)))
            hello.client_base_id
          ≡ ok packet
        → handle_message lib at (to_string lib.cereal (wrapper_for hello.client_base_id sealed)) s
          ≡ (
            ok tt,
            greeted_by
                (to_string lib.cereal (wrapper_for hello.client_base_id packet))
                lib
                at
                hello
                s,
          )
    handle_message-greeted_by hello kind w o small seals expected answers =
        handle_message-wrapped lib at s client hello.client_base_id (to_string lib.cereal hello)
          sealed o.client_session o.server_session entropy _ laws crypto o.client_has o.server_has
          o.same_key small seals (header_of (a_client_hello hello) client_hello kind w.0)
        ∙ handle-greeted_by lib at d _ _ hello s
            (from_string-to_string lib.cereal (a_client_hello hello) laws w) expected
            (wrapped_secure hello.client_base_id _ packet (allocated s) on answers)

    pub handle_message-acknowledged_by :
        (ack : ClientAck) (c : SessionConfig)
        → ack.message_identifier ≡ client_ack
        → IsWellFormed (a_client_ack ack)
        → Opens ack.client_id client s.crypto_manager
        → length (to_string lib.cereal ack) + 40 ≤ max_size
        → encrypt_data lib.sodium entropy client (to_string lib.cereal ack) ack.client_id
          ≡ ok sealed
        → lookup ack.client_id s.handshake_states ≡ some c
        → c.session_state ≡ handshake_client_ack
        → ack.handshake_identifier ≡ c.handshake_identifier
        → encrypt_data lib.sodium at.entropy s.crypto_manager
            (to_string lib.cereal (server_ack_for c))
            ack.client_id
          ≡ ok packet
        → handle_message lib at (to_string lib.cereal (wrapper_for ack.client_id sealed)) s ≡ (
          ok tt,
          acknowledged_by (to_string lib.cereal (wrapper_for ack.client_id packet)) ack c s,
        )
    handle_message-acknowledged_by ack c kind w o small seals waits state same answers =
        handle_message-wrapped lib at s client ack.client_id (to_string lib.cereal ack) sealed
          o.client_session o.server_session entropy _ laws crypto o.client_has o.server_has
          o.same_key small seals (header_of (a_client_ack ack) client_ack kind w.0)
        ∙ handle-acknowledged_by lib at d _ _ ack c s
            (from_string-to_string lib.cereal (a_client_ack ack) laws w) waits state same
            (wrapped_secure ack.client_id _ packet s on answers)
