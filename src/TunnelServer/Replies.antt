-- ===== src/TunnelServer/Replies.antt =====
-- The answers of src/TunnelServer.cpp in a handshake, whatever text goes out: what `greet` and
-- `acknowledge` do to the server once it is known what they send.
use mqtt_tunnel.Base.{ap, ◌∙◌, refl, Bool, refl, some, ◌≡◌, true, false, ok, ◌++◌}
use mqtt_tunnel.Base.Text.{Str, codes, str_eq_refl}
use mqtt_tunnel.Base.Dict.{lookup, dict_laws}
use mqtt_tunnel.Base.State.{bind_ok, call, get, modify}
use mqtt_tunnel.Helpers.{c_string}
use mqtt_tunnel.Types.{handshake_client_ack, is_gateway, SessionConfig}
use mqtt_tunnel.IpPool.{allocate_ip}
use mqtt_tunnel.Messages.{
  ServerAck, server_ack, ClientAck, client_ack_serializable, server_ack_serializable, server_ack,
  ServerAck, ClientAck, from_string, to_string, ClientHello, client_hello_serializable,
  server_hello_serializable, client_hello, client_ack,
}
use mqtt_tunnel.Libraries.{
  data_channel, ran_command, subscribed, ran_command, Libraries, Moment, Mqtt, Channel, command,
  published,
}
use mqtt_tunnel.Libraries.Calls.{log, subscribe, run_command, publish}
use mqtt_tunnel.TunnelServer.State.{TunnelServer, server_log}
use mqtt_tunnel.TunnelServer.Handshake.{
  on_client_ack, acknowledge, waiting_for_ack, check_identifier, route_command, masquerade_if,
  masquerade_command, activate, log_established, check_identifier, waiting_for_ack, acknowledge,
  on_client_ack, session_config_for, server_hello_for, set_handshake, may_greet,
  handle_client_handshake, on_client_hello, greet, allocate, wrapped, send,
}

-- Every call of the MQTT library succeeds.
pub record Delivers (m : Mqtt) : Type 0 where
  pub connects : (c : Channel) → m.connects c ≡ true
  pub subscribes : (c : Channel) (topic : Str) → m.subscribes c topic ≡ true
  pub publishes : (c : Channel) (topic payload : Str) → m.publishes c topic payload ≡ true

abbrev pub allocated : TunnelServer → TunnelServer
allocated s = record s { ip_pool = (allocate_ip s.ip_pool).1 }

abbrev pub config_of : Libraries → Moment → ClientHello → TunnelServer → SessionConfig
config_of lib at hello s = session_config_for lib at hello (allocate_ip s.ip_pool).0 (allocated s)

abbrev pub answered : Str → TunnelServer → TunnelServer
answered payload s = log (published command (s.command_channel_name ++ codes "_TX") payload 1) s

-- After the answer to a hello, and after that to an acknowledgement, where `text` went out.
abbrev pub greeted_by : Str → Libraries → Moment → ClientHello → TunnelServer → TunnelServer
greeted_by text lib at hello s =
    set_handshake hello.client_base_id (config_of lib at hello s) (answered text (allocated s))

abbrev pub masked : Bool → Str → TunnelServer → TunnelServer
masked true address s = log (ran_command (c_string (masquerade_command address s.interface_name))) s
masked false address s = s

abbrev pub acknowledged_by : Str → ClientAck → SessionConfig → TunnelServer → TunnelServer
acknowledged_by text ack c s =
    let routed = log (ran_command (c_string (route_command c.client_address))) (answered text s) in
    let masked = masked (is_gateway c.tunnel_mode) c.client_address routed in
    log_established ack.client_id
      (activate ack.client_id c (log (subscribed data_channel c.topic_outbound 1) masked))

abbrev pub server_ack_for : SessionConfig → ServerAck
server_ack_for c = record {
  message_identifier = server_ack;
  handshake_identifier = c.handshake_identifier;
}

pub waiting_greeted_by :
    (text : Str) (lib : Libraries) (at : Moment) (hello : ClientHello) (s : TunnelServer)
    → lookup hello.client_base_id (greeted_by text lib at hello s).handshake_states
      ≡ some (config_of lib at hello s)
unfolding set_handshake log
waiting_greeted_by text lib at hello s = simp (dict_laws)

masquerade_if-masked :
    (b : Bool) (address : Str) (s : TunnelServer)
    → masquerade_if b address s ≡ (ok tt, masked b address s)
unfolding masquerade_if run_command
masquerade_if-masked true address s = refl
masquerade_if-masked false address s = refl

run_command_logs :
    (cmd : Str) (s : TunnelServer) → run_command cmd s ≡ (ok tt, log (ran_command (c_string cmd)) s)
unfolding run_command
run_command_logs cmd s = refl

module _ (lib : Libraries) (at : Moment) (d : Delivers lib.mqtt) where
  pub send_delivers :
      (payload : Str) (s : TunnelServer) → send lib payload s ≡ (ok tt, answered payload s)
  unfolding send publish
  send_delivers payload s = rw (d.publishes command (s.command_channel_name ++ codes "_TX") payload)

  subscribe_delivers :
      (topic : Str) (s : TunnelServer)
      → subscribe lib data_channel topic 1 s ≡ (ok tt, log (subscribed data_channel topic 1) s)
  unfolding subscribe
  subscribe_delivers topic s = rw (d.subscribes data_channel topic)

  -- The handler at a hello that it expects.
  pub handle-greeted_by :
      (payload text : Str) (hello : ClientHello) (s : TunnelServer)
      → from_string {M = ClientHello} lib.cereal payload ≡ ok hello
      → may_greet (lookup hello.client_base_id s.handshake_states) ≡ true
      → wrapped lib at hello.client_base_id
          (to_string lib.cereal (server_hello_for hello (config_of lib at hello s)))
          (allocated s)
        ≡ (ok text, allocated s)
      → handle_client_handshake lib at payload client_hello s
        ≡ (ok tt, greeted_by text lib at hello s)
  unfolding handle_client_handshake on_client_hello greet allocate
  handle-greeted_by payload text hello s reads expected wraps =
      bind_ok (call _) _ (ap (λ r. (r, s)) reads)
      ∙ bind_ok (get _) _ (ap (λ b. (ok b, s)) expected)
      ∙ bind_ok allocate _ refl
      ∙ bind_ok (get (session_config_for lib at hello (allocate_ip s.ip_pool).0)) _ refl
      ∙ bind_ok (wrapped lib at hello.client_base_id _) _ wraps
      ∙ bind_ok (send lib _) _ (send_delivers _ (allocated s))

  -- The handler at the acknowledgement that it waits for.
  pub handle-acknowledged_by :
      (payload text : Str) (ack : ClientAck) (c : SessionConfig) (s : TunnelServer)
      → from_string {M = ClientAck} lib.cereal payload ≡ ok ack
      → lookup ack.client_id s.handshake_states ≡ some c
      → c.session_state ≡ handshake_client_ack
      → ack.handshake_identifier ≡ c.handshake_identifier
      → wrapped lib at ack.client_id (to_string lib.cereal (server_ack_for c)) s ≡ (ok text, s)
      → handle_client_handshake lib at payload client_ack s ≡ (ok tt, acknowledged_by text ack c s)
  unfolding handle_client_handshake on_client_ack waiting_for_ack acknowledge check_identifier
  handle-acknowledged_by payload text ack c s reads waits state same wraps =
      bind_ok (call _) _ (ap (λ r. (r, s)) reads)
      ∙ bind_ok (get _) _ {t = s} {a = some c} (rw (waits, state))
      ∙ bind_ok (call _) _ (rw (same, str_eq_refl c.handshake_identifier))
      ∙ bind_ok (wrapped lib at ack.client_id _) _ wraps
      ∙ bind_ok (send lib _) _ (send_delivers _ s)
      ∙ bind_ok (run_command (route_command c.client_address)) _
          (run_command_logs (route_command c.client_address) _)
      ∙ bind_ok (masquerade_if (is_gateway c.tunnel_mode) _) _
          (masquerade_if-masked _ c.client_address _)
      ∙ bind_ok (subscribe lib data_channel c.topic_outbound 1) _
          (subscribe_delivers c.topic_outbound _)
      ∙ bind_ok (modify (activate ack.client_id c)) _ refl
