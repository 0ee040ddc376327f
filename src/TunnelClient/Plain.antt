-- ===== src/TunnelClient/Plain.antt =====
-- The handshake without encryption on the client: what `setup_session` does when the two answers of
-- the server are there.
use mqtt_tunnel.Base.{ℕ, ◌≡◌, refl, ap, false, some, [], ◌∷◌, ok, List, Option}
use mqtt_tunnel.Base.Text.{Str}
use mqtt_tunnel.Messages.{
  from_string, to_string, ClientHello, ServerHello, ServerAck, client_hello_serializable,
  server_hello_serializable, client_ack_serializable, server_ack_serializable,
}
use mqtt_tunnel.CryptoManager.{FileSystem}
use mqtt_tunnel.Libraries.{Libraries}
use mqtt_tunnel.Libraries.Calls.{log}
use mqtt_tunnel.TunnelServer.Plain.{Delivers}
use mqtt_tunnel.TunnelClient.State.{TunnelClient, client_log}
use mqtt_tunnel.TunnelClient.Session.{
  Draws, wrapped, wrap_if, unwrapped, unwrap_if, answer, client_hello_for, configure, exchange_keys,
  setup_session,
}
pub use mqtt_tunnel.TunnelClient.Parts.{sent, left, client_ack_for, send_delivers}
use mqtt_tunnel.TunnelClient.Parts.{
  greeted_by, set_up_by, answer_there, answer_lost, setup_session_by,
}

module _ (lib : Libraries) (d : Delivers lib.mqtt) where
  pub wrapped_plain :
      (entropy : ℕ) (payload : Str) (s : TunnelClient)
      → s.encryption_enabled ≡ false
      → wrapped lib entropy payload s ≡ (ok payload, s)
  unfolding wrapped wrap_if
  wrapped_plain entropy payload s plain = ap (λ b. wrap_if lib entropy payload b s) plain

  unwrapped_plain :
      (payload : Str) (s : TunnelClient)
      → s.encryption_enabled ≡ false
      → unwrapped lib payload s ≡ (ok payload, s)
  unfolding unwrapped unwrap_if
  unwrapped_plain payload s plain = ap (λ b. unwrap_if lib payload b s) plain

-- The client after the handshake.
abbrev pub set_up_client : Libraries → ClientHello → ServerHello → TunnelClient → TunnelClient
set_up_client lib hello reply s =
    set_up_by (to_string lib.cereal hello) (to_string lib.cereal (client_ack_for reply)) reply [] s

module _ (lib : Libraries) (draws : Draws) (fs : FileSystem) (text : Str) (reply : ServerHello)
    (done : ServerAck) (s : TunnelClient) (d : Delivers lib.mqtt)
    (plain : s.encryption_enabled ≡ false)
    (reads : from_string {M = ServerHello} lib.cereal text ≡ ok reply)
    (same : done.handshake_identifier ≡ (client_hello_for draws s).handshake_identifier) where
  greeted : List (Option Str) → TunnelClient
  greeted tail = greeted_by (to_string lib.cereal (client_hello_for draws s)) reply tail s

  acked : List (Option Str) → TunnelClient
  unfolding greeted
  acked tail = sent (to_string lib.cereal (client_ack_for reply)) (greeted tail)

  -- The set-up, once it is known what the wait for the acknowledgement finds.
  setup_session_answered :
      (tail : List (Option Str)) (last : Str)
      → s.inbox ≡ some text ∷ tail
      → answer (some text) (acked tail) ≡ (ok last, left [] (acked tail))
      → from_string {M = ServerAck} lib.cereal last ≡ ok done
      → setup_session lib draws fs s ≡ (ok tt, set_up_client lib (client_hello_for draws s) reply s)
  unfolding exchange_keys acked configure log
  setup_session_answered tail last there answers acks =
      setup_session_by lib d draws fs s s _ text text reply tail
        (ap (λ b. exchange_keys lib draws fs b s) plain)
        (wrapped_plain lib d draws.hello_nonce _ s plain) there (unwrapped_plain lib d text _ plain)
        reads _ last last done (wrapped_plain lib d draws.ack_nonce _ (greeted tail) plain) answers
        (unwrapped_plain lib d last (left [] (acked tail)) plain) acks same

  pub setup_session_plain :
      (last : Str)
      → s.inbox ≡ some text ∷ some last ∷ []
      → from_string {M = ServerAck} lib.cereal last ≡ ok done
      → setup_session lib draws fs s ≡ (ok tt, set_up_client lib (client_hello_for draws s) reply s)
  unfolding acked log configure
  setup_session_plain last there acks =
      setup_session_answered (some last ∷ []) last there
        (answer_there lib d (some text) last [] (acked (some last ∷ [])) refl) acks

  -- Nothing arrives after the server's hello: its text is then read as the acknowledgement.
  pub setup_session_lost :
      s.inbox ≡ some text ∷ []
      → from_string {M = ServerAck} lib.cereal text ≡ ok done
      → setup_session lib draws fs s ≡ (ok tt, set_up_client lib (client_hello_for draws s) reply s)
  unfolding acked log configure
  setup_session_lost there acks =
      setup_session_answered [] text there (answer_lost lib d text (acked []) refl) acks
