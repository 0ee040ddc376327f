-- ===== src/TunnelServer/Plain.antt =====
-- The handshake without encryption on the server: what each of the two messages of the client does to
-- the server, as one step.
use mqtt_tunnel.Base.{ap, ◌∙◌, some, ◌≡◌, true, false, ok}
use mqtt_tunnel.Base.Text.{Str}
use mqtt_tunnel.Base.Dict.{lookup}
use mqtt_tunnel.Base.State.{bind_ok, call}
use mqtt_tunnel.Base.Int.{pos}
use mqtt_tunnel.Types.{handshake_client_ack, SessionConfig}
use mqtt_tunnel.Messages.{
  ClientAck, client_ack_serializable, server_ack_serializable, ClientAck, from_string, to_string,
  header_from_string, ClientHello, client_hello_serializable, server_hello_serializable,
}
use mqtt_tunnel.Libraries.{Libraries, Moment}
use mqtt_tunnel.TunnelServer.State.{TunnelServer, server_log}
use mqtt_tunnel.TunnelServer.Handshake.{server_hello_for, may_greet, wrapped, wrap_if}
use mqtt_tunnel.TunnelServer.Loop.{dispatch, handle_message}
pub use mqtt_tunnel.TunnelServer.Replies.{
  Delivers, allocated, config_of, answered, masked, server_ack_for,
}
use mqtt_tunnel.TunnelServer.Replies.{
  greeted_by, acknowledged_by, waiting_greeted_by, handle-greeted_by, handle-acknowledged_by,
}

abbrev pub greeted : Libraries → Moment → ClientHello → TunnelServer → TunnelServer
greeted lib at hello s =
    greeted_by (to_string lib.cereal (server_hello_for hello (config_of lib at hello s))) lib at
      hello s

abbrev pub acknowledged : Libraries → ClientAck → SessionConfig → TunnelServer → TunnelServer
acknowledged lib ack c s = acknowledged_by (to_string lib.cereal (server_ack_for c)) ack c s

pub waiting_greeted :
    (lib : Libraries) (at : Moment) (hello : ClientHello) (s : TunnelServer)
    → lookup hello.client_base_id (greeted lib at hello s).handshake_states
      ≡ some (config_of lib at hello s)
waiting_greeted lib at hello s = waiting_greeted_by _ lib at hello s

module _ (lib : Libraries) (at : Moment) (d : Delivers lib.mqtt) where
  wrapped_plain :
      (id payload : Str) (s : TunnelServer)
      → s.encryption_enabled ≡ false
      → wrapped lib at id payload s ≡ (ok payload, s)
  unfolding wrapped wrap_if
  wrapped_plain id payload s plain = ap (λ b. wrap_if lib at id payload b s) plain

  -- The server's step at a hello that it expects.
  pub handle_message-greeted :
      (payload : Str) (hello : ClientHello) (s : TunnelServer)
      → s.encryption_enabled ≡ false
      → header_from_string lib.cereal payload ≡ ok (record { type = pos 3 })
      → from_string {M = ClientHello} lib.cereal payload ≡ ok hello
      → may_greet (lookup hello.client_base_id s.handshake_states) ≡ true
      → handle_message lib at payload s ≡ (ok tt, greeted lib at hello s)
  unfolding handle_message dispatch
  handle_message-greeted payload hello s plain header reads expected =
      bind_ok (call _) _ (ap (λ r. (r, s)) header)
      ∙ handle-greeted_by lib at d payload _ hello s reads expected
          (wrapped_plain hello.client_base_id _ (allocated s) plain)

  -- The server's step at the acknowledgement that it waits for.
  pub handle_message-acknowledged :
      (payload : Str) (ack : ClientAck) (c : SessionConfig) (s : TunnelServer)
      → s.encryption_enabled ≡ false
      → header_from_string lib.cereal payload ≡ ok (record { type = pos 5 })
      → from_string {M = ClientAck} lib.cereal payload ≡ ok ack
      → lookup ack.client_id s.handshake_states ≡ some c
      → c.session_state ≡ handshake_client_ack
      → ack.handshake_identifier ≡ c.handshake_identifier
      → handle_message lib at payload s ≡ (ok tt, acknowledged lib ack c s)
  unfolding handle_message dispatch
  handle_message-acknowledged payload ack c s plain header reads waits state same =
      bind_ok (call _) _ (ap (λ r. (r, s)) header)
      ∙ handle-acknowledged_by lib at d payload _ ack c s reads waits state same
          (wrapped_plain ack.client_id _ s plain)
