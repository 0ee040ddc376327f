-- ===== src/TunnelClient/Secure.antt =====
-- The handshake with encryption on the client, src/TunnelClient.cpp: the exchange of keys, and what
-- `setup_session` does when the three answers of the server are there.
use mqtt_tunnel.Base.{ℕ, ◌≡◌, refl, ◌∙◌, ap, true, some, none, [], ◌∷◌, ok, List, Option}
use mqtt_tunnel.Base.Text.{Str}
use mqtt_tunnel.Base.State.{bind_ok, call, get}
use mqtt_tunnel.Cereal.{CerealLaws}
use mqtt_tunnel.Messages.{
  to_string, ServerHello, ServerAck, ClientHelloCrypto, ServerHelloCrypto,
  client_hello_crypto_serializable, server_hello_crypto_serializable, client_hello_serializable,
  server_hello_serializable, client_ack_serializable, server_ack_serializable,
  encrypted_wrapper_serializable,
}
use mqtt_tunnel.Messages.Laws.{
  a_server_hello, a_server_ack, a_server_hello_crypto, a_encrypted_wrapper, IsWellFormed,
  from_string-to_string,
}
use mqtt_tunnel.CryptoManager.{
  CryptoManager, FileSystem, generate_client_hello, establish_client_session, encrypt_data,
  decrypt_data,
}
use mqtt_tunnel.Libraries.{Libraries}
use mqtt_tunnel.Libraries.Calls.{log}
use mqtt_tunnel.TunnelServer.Replies.{Delivers}
use mqtt_tunnel.TunnelServer.Wrapped.{wrapper_for}
use mqtt_tunnel.TunnelClient.State.{TunnelClient, client_log, with_crypto}
use mqtt_tunnel.TunnelClient.Session.{
  Draws, send, wrapped, wrap_if, unwrapped, unwrap_if, answer, client_hello_for, configure,
  exchange_keys, setup_session,
}
use mqtt_tunnel.TunnelClient.Parts.{
  sent, left, client_ack_for, set_up_by, send_delivers, answer_there, setup_session_by,
}

-- After the exchange of keys, with `m` the manager that sent the hello and `n` the one that has joined.
abbrev pub keyed :
    Libraries
    → ClientHelloCrypto
    → ServerHelloCrypto
    → CryptoManager
    → CryptoManager
    → List (Option Str)
    → TunnelClient
    → TunnelClient
keyed lib hello reply m n rest s =
    record (left rest (sent (to_string lib.cereal hello) (record s { crypto_manager = m }))) {
      crypto_manager = n;
      client_base_id = reply.unique_identifier;
    }

-- A sealed message as it goes over the command channel.
abbrev pub envelope : Libraries → Str → Str → Str
envelope lib id packet = to_string lib.cereal (wrapper_for id packet)

module _ (lib : Libraries) (laws : CerealLaws lib.cereal) where
  pub wrapped_secure :
      (entropy : ℕ) (payload packet : Str) (s : TunnelClient)
      → s.encryption_enabled ≡ true
      → encrypt_data lib.sodium entropy s.crypto_manager payload s.client_base_id ≡ ok packet
      → wrapped lib entropy payload s
        ≡ (ok (to_string lib.cereal (wrapper_for s.client_base_id packet)), s)
  unfolding wrapped wrap_if
  wrapped_secure entropy payload packet s on seals =
      ap (λ b. wrap_if lib entropy payload b s) on
      ∙ bind_ok (call _) _ (ap (λ r. (r, s)) seals)
      ∙ bind_ok (get _) _ refl

  pub unwrapped_secure :
      (id payload packet : Str) (s : TunnelClient)
      → s.encryption_enabled ≡ true
      → decrypt_data lib.sodium s.crypto_manager packet s.client_base_id ≡ ok payload
      → unwrapped lib (to_string lib.cereal (wrapper_for id packet)) s ≡ (ok payload, s)
  unfolding unwrapped unwrap_if
  unwrapped_secure id payload packet s on opens =
      ap (λ b. unwrap_if lib (to_string lib.cereal (wrapper_for id packet)) b s) on
      ∙ bind_ok (call _) _ (
          ap (λ r. (r, s))
            (from_string-to_string lib.cereal (a_encrypted_wrapper (wrapper_for id packet)) laws
              (tt, tt)))
      ∙ ap (λ r. (r, s)) opens

module _ (lib : Libraries) (laws : CerealLaws lib.cereal) (d : Delivers lib.mqtt) (draws : Draws)
    (fs : FileSystem) (hello : ClientHelloCrypto) (keys : ServerHelloCrypto) (m n : CryptoManager)
    (s : TunnelClient)
    (greets : generate_client_hello lib.sodium draws.key s.client_base_id s.crypto_manager
      ≡ (ok hello, m))
    (joins : establish_client_session lib.sodium fs keys m ≡ (ok tt, n))
    (w : IsWellFormed (a_server_hello_crypto keys)) where
  exchange_keys-keyed :
      (rest : List (Option Str))
      → s.inbox ≡ some (to_string lib.cereal keys) ∷ rest
      → exchange_keys lib draws fs true s ≡ (ok tt, keyed lib hello keys m n rest s)
  unfolding exchange_keys with_crypto log
  exchange_keys-keyed rest there =
      bind_ok (get _) _ refl
      ∙ bind_ok (with_crypto _) _ {t = record s { crypto_manager = m }} {a = hello} (rw greets)
      ∙ bind_ok (send lib _) _ (send_delivers lib d _ (record s { crypto_manager = m }))
      ∙ bind_ok (answer none) _ (
          answer_there lib d none (to_string lib.cereal keys) rest
            (sent (to_string lib.cereal hello) (record s { crypto_manager = m })) there)
      ∙ bind_ok (call _) _ (
          ap
            (λ r.
              (r, left rest (sent (to_string lib.cereal hello) (record s { crypto_manager = m }))))
            (from_string-to_string lib.cereal (a_server_hello_crypto keys) laws w))
      ∙ bind_ok (with_crypto _) _
          {t = record (left rest
            (sent (to_string lib.cereal hello) (record s { crypto_manager = m }))) {
              crypto_manager = n;
            }}
          {a = tt} (rw joins)

  module _ (reply : ServerHello) (done : ServerAck)
      (hello_packet reply_packet ack_packet done_packet : Str)
      (on : s.encryption_enabled ≡ true) where
    abbrev pub after_keys : TunnelClient
    after_keys =
        keyed lib hello keys m n
          (some (envelope lib keys.unique_identifier reply_packet)
            ∷ some (envelope lib keys.unique_identifier done_packet)
            ∷ [])
          s

    -- The set-up of a client whose messages and answers are all sealed.
    pub setup_session_secure :
        s.inbox
          ≡ some (to_string lib.cereal keys)
            ∷ some (envelope lib keys.unique_identifier reply_packet)
            ∷ some (envelope lib keys.unique_identifier done_packet)
            ∷ []
        → IsWellFormed (a_server_hello reply)
        → IsWellFormed (a_server_ack done)
        → encrypt_data lib.sodium draws.hello_nonce n
            (to_string lib.cereal (client_hello_for draws after_keys))
            keys.unique_identifier
          ≡ ok hello_packet
        → decrypt_data lib.sodium n reply_packet keys.unique_identifier
          ≡ ok (to_string lib.cereal reply)
        → encrypt_data lib.sodium draws.ack_nonce n
            (to_string lib.cereal (client_ack_for reply))
            keys.unique_identifier
          ≡ ok ack_packet
        → decrypt_data lib.sodium n done_packet keys.unique_identifier
          ≡ ok (to_string lib.cereal done)
        → done.handshake_identifier ≡ (client_hello_for draws after_keys).handshake_identifier
        → setup_session lib draws fs s ≡ (
          ok tt,
          set_up_by
              (envelope lib keys.unique_identifier hello_packet)
              (envelope lib keys.unique_identifier ack_packet)
              reply
              (some (envelope lib keys.unique_identifier done_packet) ∷ [])
              after_keys,
        )
    unfolding configure log
    setup_session_secure there wr wd seals opens acks confirms same =
        setup_session_by lib d draws fs s after_keys
          (envelope lib keys.unique_identifier hello_packet)
          (envelope lib keys.unique_identifier reply_packet) _ reply
          (some (envelope lib keys.unique_identifier done_packet) ∷ [])
          (ap (λ b. exchange_keys lib draws fs b s) on ∙ exchange_keys-keyed _ there)
          (wrapped_secure lib laws draws.hello_nonce _ hello_packet after_keys on seals) refl
          (unwrapped_secure lib laws keys.unique_identifier _ reply_packet _ on opens)
          (from_string-to_string lib.cereal (a_server_hello reply) laws wr)
          (envelope lib keys.unique_identifier ack_packet)
          (envelope lib keys.unique_identifier done_packet) _ done
          (wrapped_secure lib laws draws.ack_nonce _ ack_packet _ on acks)
          (answer_there lib d _ (envelope lib keys.unique_identifier done_packet) [] _ refl)
          (unwrapped_secure lib laws keys.unique_identifier _ done_packet _ on confirms)
          (from_string-to_string lib.cereal (a_server_ack done) laws wd) same
