-- ===== src/TunnelServer/Refused.antt =====
-- src/TunnelServer.cpp: messages that the server refuses, and what that does to its loop.
use mqtt_tunnel.Base.{
  inr, inl, ◌≡◌, ◌≢◌, ◌∙◌, ap, false, none, some, ◌∷◌, List, Option, Exception, ok, throw,
  runtime_error, arith, Option-cases,
}
use mqtt_tunnel.Base.Text.{Str, codes, str_eq, str_eq_iff}
use mqtt_tunnel.Base.Dict.{lookup}
use mqtt_tunnel.Base.Int.{pos}
use mqtt_tunnel.Base.State.{bind_ok, bind_throw, next, call, get}
use mqtt_tunnel.Types.{is_client_ack, SessionConfig, handshake_client_ack}
use mqtt_tunnel.Messages.{from_string, header_from_string, ClientAck, client_ack_serializable}
use mqtt_tunnel.Libraries.{Libraries, Moment}
use mqtt_tunnel.TunnelServer.State.{TunnelServer}
use mqtt_tunnel.TunnelServer.Handshake.{
  handle_client_handshake, on_client_ack, acknowledge, waiting_for_ack, check_identifier,
}
use mqtt_tunnel.TunnelServer.Loop.{handle_message, dispatch, serve}

serve_throw :
    (lib : Libraries) (at : Moment) (payload : Str) (rounds : List (Moment × Option Str))
    (s : TunnelServer) (e : Exception)
    → handle_message lib at payload s ≡ (throw e, s)
    → serve lib ((at, some payload) ∷ rounds) s ≡ (throw e, s)
unfolding serve
serve_throw lib at payload rounds s e h = ap (next (λ _. serve lib rounds)) h

-- An acknowledgement with another identifier than the handshake that waits for it ends the loop
-- with an exception, leaves the server as it was, and no later message is handled.
pub serve_mismatched_ack :
    (lib : Libraries) (at : Moment) (payload : Str) (rounds : List (Moment × Option Str))
    (s : TunnelServer) (ack : ClientAck) (c : SessionConfig)
    → header_from_string lib.cereal payload ≡ ok (record { type = pos 5 })
    → from_string {M = ClientAck} lib.cereal payload ≡ ok ack
    → lookup ack.client_id s.handshake_states ≡ some c
    → c.session_state ≡ handshake_client_ack
    → ack.handshake_identifier ≢ c.handshake_identifier
    → serve lib ((at, some payload) ∷ rounds) s
      ≡ (throw (runtime_error (codes "Handshake identifier mismatch in Client ACK")), s)
unfolding handle_message dispatch handle_client_handshake on_client_ack waiting_for_ack acknowledge
    check_identifier
serve_mismatched_ack lib at payload rounds s ack c header reads waits state differs =
    serve_throw lib at payload rounds s _ (
      bind_ok (call _) _ (ap (λ r. (r, s)) header)
      ∙ bind_ok (call _) _ (ap (λ r. (r, s)) reads)
      ∙ bind_ok (get _) _ {t = s} {a = some c} (rw (waits, state))
      ∙ bind_throw (call _) _ (rw other))
  where
    other : str_eq ack.handshake_identifier c.handshake_identifier ≡ false
    other = ground (arith, str_eq_iff ack.handshake_identifier c.handshake_identifier)

-- An acknowledgement that no handshake waits for is ignored: the server is as it was.
pub handle_message_unexpected_ack :
    (lib : Libraries) (at : Moment) (payload : Str) (s : TunnelServer) (ack : ClientAck)
    → header_from_string lib.cereal payload ≡ ok (record { type = pos 5 })
    → from_string {M = ClientAck} lib.cereal payload ≡ ok ack
    → ((c : SessionConfig)
        → lookup ack.client_id s.handshake_states ≡ some c
        → is_client_ack c.session_state ≡ false)
    → handle_message lib at payload s ≡ (ok tt, s)
unfolding handle_message dispatch handle_client_handshake on_client_ack waiting_for_ack acknowledge
handle_message_unexpected_ack lib at payload s ack header reads none_waits =
    bind_ok (call _) _ (ap (λ r. (r, s)) header)
    ∙ bind_ok (call _) _ (ap (λ r. (r, s)) reads)
    ∙ bind_ok (get _) _ {t = s} {a = none} (ap (λ o. (ok o, s)) not_waiting)
  where
    not_waiting : waiting_for_ack (lookup ack.client_id s.handshake_states) ≡ none
    not_waiting = elim (Option-cases (lookup ack.client_id s.handshake_states)) [
      | inl missing ↦ rw missing
      | inr (c, there) ↦ rw (there, none_waits c there)
    ]
