-- ===== src/TunnelClient/Parts.antt =====
-- The parts of `setup_session` of src/TunnelClient.cpp, whatever texts go out and come in: what they
-- do to the client once it is known what is sent and found.
use mqtt_tunnel.Base.{◌≡◌, refl, ◌∙◌, ap, true, some, none, [], ◌∷◌, ◌++◌, ok, List, Option}
use mqtt_tunnel.Base.Text.{Str, codes, str_eq_refl}
use mqtt_tunnel.Base.State.{◌>>=◌, bind_ok, call, get, modify}
use mqtt_tunnel.Helpers.{c_string}
use mqtt_tunnel.Messages.{
  from_string, to_string, ServerHello, ClientAck, ServerAck, client_ack, client_hello_serializable,
  server_hello_serializable, client_ack_serializable, server_ack_serializable,
}
use mqtt_tunnel.CryptoManager.{FileSystem}
use mqtt_tunnel.Libraries.{Libraries, command, published, ran_command}
use mqtt_tunnel.Libraries.Calls.{log, publish, run_command}
use mqtt_tunnel.TunnelServer.Plain.{Delivers}
use mqtt_tunnel.TunnelClient.State.{TunnelClient, client_log, poll, wait_for}
use mqtt_tunnel.TunnelClient.Session.{
  Draws, send, wrapped, unwrapped, answer, present, client_hello_for, configure, exchange_keys,
  greet_server, check_identifier, acknowledge_server, own_address_command, route_command,
  configure_device, setup_session,
}

abbrev pub sent : Str → TunnelClient → TunnelClient
sent payload s = log (published command (s.command_channel_name ++ codes "_RX") payload 1) s

abbrev pub left : List (Option Str) → TunnelClient → TunnelClient
left rest s = record s { inbox = rest }

-- The acknowledgement of a client that was configured.
abbrev pub client_ack_for : ServerHello → ClientAck
client_ack_for hello = record {
  message_identifier = client_ack;
  client_id = hello.assigned_client_id;
  handshake_identifier = hello.handshake_identifier;
}

-- After the hello `text` went out and its answer was read.
abbrev pub greeted_by : Str → ServerHello → List (Option Str) → TunnelClient → TunnelClient
greeted_by text reply rest s = configure reply (left rest (sent text s))

-- The commands for the device.
abbrev configured : TunnelClient → TunnelClient
configured s =
    let a = log (ran_command (c_string (own_address_command s.session_config))) s in
    let b = log (ran_command (codes "ip link set dev tun0 mtu 1400")) a in
    let c = log (ran_command (codes "ip link set tun0 up")) b in
    let d = log (ran_command (c_string (route_command s.tunnel_mode s.session_config))) c in
    record d { session_configured = true }

configure_device_lem : (s : TunnelClient) → configure_device s ≡ (ok tt, configured s)
unfolding configure_device run_command ◌>>=◌
configure_device_lem s = refl

-- After the handshake, where `text` and `ack_text` went out.
abbrev pub set_up_by : Str → Str → ServerHello → List (Option Str) → TunnelClient → TunnelClient
set_up_by text ack_text reply tail s =
    configured (left [] (sent ack_text (greeted_by text reply tail s)))

module _ (lib : Libraries) (d : Delivers lib.mqtt) where
  pub send_delivers :
      (payload : Str) (s : TunnelClient) → send lib payload s ≡ (ok tt, sent payload s)
  unfolding send publish
  send_delivers payload s = rw (d.publishes command (s.command_channel_name ++ codes "_RX") payload)

  pub answer_there :
      (old : Option Str) (message : Str) (rest : List (Option Str)) (s : TunnelClient)
      → s.inbox ≡ some message ∷ rest
      → answer old s ≡ (ok message, left rest s)
  unfolding answer wait_for poll present ◌>>=◌
  answer_there old message rest s e = rw e

  pub answer_lost :
      (old : Str) (s : TunnelClient) → s.inbox ≡ [] → answer (some old) s ≡ (ok old, left [] s)
  unfolding answer wait_for poll present ◌>>=◌
  answer_lost old s e = rw e

  module _ (draws : Draws) (fs : FileSystem) (s t : TunnelClient) (text found payload : Str)
      (reply : ServerHello) (tail : List (Option Str))
      (keys : exchange_keys lib draws fs s.encryption_enabled s ≡ (ok tt, t))
      (wraps : wrapped lib draws.hello_nonce (to_string lib.cereal (client_hello_for draws t)) t
        ≡ (ok text, t))
      (there : t.inbox ≡ some found ∷ tail)
      (unwraps : unwrapped lib found (left tail (sent text t))
        ≡ (ok payload, left tail (sent text t)))
      (reads : from_string {M = ServerHello} lib.cereal payload ≡ ok reply) where
    greet_server_by :
        greet_server lib draws (client_hello_for draws t) t
        ≡ (ok (found, reply), greeted_by text reply tail t)
    unfolding greet_server
    greet_server_by =
        bind_ok (wrapped lib draws.hello_nonce _) _ wraps
        ∙ bind_ok (send lib _) _ (send_delivers text t)
        ∙ bind_ok (answer none) _ (answer_there none found tail (sent text t) there)
        ∙ bind_ok (unwrapped lib found) _ unwraps
        ∙ bind_ok (call _) _ (ap (λ r. (r, left tail (sent text t))) reads)
        ∙ bind_ok (modify (configure reply)) _ refl

    module _ (ack_text last ack_payload : Str) (done : ServerAck)
        (acks : wrapped lib draws.ack_nonce
            (to_string lib.cereal (client_ack_for reply))
            (greeted_by text reply tail t)
          ≡ (ok ack_text, greeted_by text reply tail t))
        (answers : answer (some found) (sent ack_text (greeted_by text reply tail t))
          ≡ (ok last, left [] (sent ack_text (greeted_by text reply tail t))))
        (opens : unwrapped lib last (left [] (sent ack_text (greeted_by text reply tail t)))
          ≡ (ok ack_payload, left [] (sent ack_text (greeted_by text reply tail t))))
        (confirms : from_string {M = ServerAck} lib.cereal ack_payload ≡ ok done)
        (same : done.handshake_identifier ≡ (client_hello_for draws t).handshake_identifier) where
      acknowledge_server_by :
          acknowledge_server lib draws
            (client_hello_for draws t)
            found
            reply
            (greeted_by text reply tail t)
          ≡ (ok tt, left [] (sent ack_text (greeted_by text reply tail t)))
      unfolding acknowledge_server check_identifier configure
      acknowledge_server_by =
          bind_ok (get _) _ refl
          ∙ bind_ok (wrapped lib draws.ack_nonce _) _ acks
          ∙ bind_ok (send lib _) _ (send_delivers ack_text (greeted_by text reply tail t))
          ∙ bind_ok (answer (some found)) _ answers
          ∙ bind_ok (unwrapped lib last) _ opens
          ∙ bind_ok (call _) _
              (ap (λ r. (r, left [] (sent ack_text (greeted_by text reply tail t)))) confirms)
          ∙ rw (same, str_eq_refl (client_hello_for draws t).handshake_identifier)

      -- The set-up, once it is known what each of its parts sends and finds.
      pub setup_session_by :
          setup_session lib draws fs s ≡ (ok tt, set_up_by text ack_text reply tail t)
      unfolding setup_session
      setup_session_by =
          bind_ok (λ s. exchange_keys lib draws fs s.encryption_enabled s) _ keys
          ∙ bind_ok (get _) _ refl
          ∙ bind_ok (greet_server lib draws _) _ greet_server_by
          ∙ bind_ok (acknowledge_server lib draws (client_hello_for draws t) found reply) _
              acknowledge_server_by
          ∙ configure_device_lem _
