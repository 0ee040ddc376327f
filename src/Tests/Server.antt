-- ===== src/Tests/Server.antt =====
-- Single messages to the server, and its shutdown.
use mqtt_tunnel.TunnelServer.Leases.Leak.{serve_leaks_address, renewed}
use mqtt_tunnel.Base.{
  process_exit, ◌≡◌, ◌≢◌, refl, true, false, none, some, [], ◌∷◌, List, Option, ok, throw,
  runtime_error, arith, sym, ap, ◌∙◌, Bool, if◌then◌else◌,
}
use mqtt_tunnel.Base.Text.{Str, codes, str_eq, str_eq_iff}
use mqtt_tunnel.Base.Decimal.{to_string as decimal}
use mqtt_tunnel.Base.Dict.{lookup}
use mqtt_tunnel.IpPool.{address}
use mqtt_tunnel.Cereal.Toy.{toy, toy_laws}
use mqtt_tunnel.Messages.{
  to_string, ClientAck, SessionTermination, session_termination, client_ack_serializable,
  session_termination_serializable, client_hello_serializable,
}
use mqtt_tunnel.Messages.Laws.{
  a_client_ack, a_client_hello, a_session_termination, from_string-to_string,
  header_from_string-text,
}
use mqtt_tunnel.Libraries.{Moment}
use mqtt_tunnel.TunnelServer.State.{TunnelServer}
use mqtt_tunnel.TunnelServer.Handshake.{may_greet, masquerade_command, session_config_for}
use mqtt_tunnel.TunnelServer.Loop.{handle_message, serve, remove_masquerade_command}
use mqtt_tunnel.TunnelServer.Refused.{serve_mismatched_ack}
use mqtt_tunnel.TunnelServer.Ending.{
  Frees, handle_message-Frees, rule_of, remove_masquerade_command_ne,
}
use mqtt_tunnel.TunnelServer.Leases.{Holder, active_session, in_handshake, table, held, Taken}
use mqtt_tunnel.TunnelServer.Leases.Frames.{IsServing}
use mqtt_tunnel.TunnelClient.State.{TunnelClient}
use mqtt_tunnel.TunnelClient.Session.{client_hello_for, setup_session}
use mqtt_tunnel.TunnelClient.Plain.{sent, left}
use mqtt_tunnel.TunnelClient.Unanswered.{setup_session_unanswered}
use mqtt_tunnel.Fixtures.{
  lib, reliable-Delivers, no_files, moment, draws, new_server, new_client, hello, ack, hello_text,
  ack_text, session, taken_pool, waiting_server, serving_server,
}

abbrev later_rounds : List (Moment × Option Str)
later_rounds = (moment, some hello_text) ∷ []

abbrev wrong_ack : ClientAck
wrong_ack = record ack { handshake_identifier = [] }

serve_mismatched_ack_example :
    serve lib ((moment, some (to_string toy wrong_ack)) ∷ later_rounds) waiting_server
    ≡ (throw (runtime_error (codes "Handshake identifier mismatch in Client ACK")), waiting_server)
unfolding lookup str_eq
serve_mismatched_ack_example =
    serve_mismatched_ack lib moment (to_string toy wrong_ack) later_rounds waiting_server wrong_ack
      session (header_from_string-text toy (a_client_ack wrong_ack) toy_laws tt)
      (from_string-to_string toy (a_client_ack wrong_ack) toy_laws (tt, tt)) refl refl (λ e. cc)

abbrev termination : SessionTermination
termination = record {
  message_identifier = session_termination;
  client_id = codes "a";
  session_id = codes "a_5";
  reason = codes "Client request";
}

one_lease :
    (h : Holder) (a : Str)
    → table serving_server.active_clients serving_server.handshake_states h ≡ some a
    → (h ≡ active_session (codes "a")) × (a ≡ session.client_address)
unfolding lookup
one_lease (in_handshake k) a e = cc
one_lease (active_session k) a e = by_key (str_eq (codes "a") k) refl e
  where
    by_key :
        (b : Bool)
        → str_eq (codes "a") k ≡ b
        → held (if b then some session else none) ≡ some a
        → (active_session k ≡ active_session (codes "a")) × (a ≡ session.client_address)
    by_key true same f = (ap active_session (sym ((str_eq_iff (codes "a") k).0 same)), cc)
    by_key false other f = cc

pub served-IsServing : IsServing serving_server
unfolding decimal
served-IsServing = record {
  valid = record { sized = refl; pos_size = omega arith; small = omega arith; gateway_free = refl };
  dotted = (codes "10.0.0", refl);
  taken = λ h a e n. (1, omega arith, omega arith, (one_lease h a e).1 ∙ its_address, refl);
  unique = λ h k a e f n. (one_lease h a e).0 ∙ sym (one_lease k a f).0;
}
  where
    its_address : session.client_address ≡ address taken_pool 1
    its_address = refl

handle_message-Frees_example :
    (t : TunnelServer) × (handle_message lib moment (to_string toy termination) serving_server
      ≡ (ok tt, t))
    × Frees serving_server (codes "a") session t
unfolding lookup str_eq
handle_message-Frees_example =
    handle_message-Frees lib moment (to_string toy termination) serving_server termination session
      served-IsServing (header_from_string-text toy (a_session_termination termination) toy_laws tt)
      (from_string-to_string toy (a_session_termination termination) toy_laws (tt, tt)) refl
      (λ e. cc)

abbrev plain_server : TunnelServer
plain_server = record serving_server { encryption_enabled = false }

serve_leaks_address_example :
    (serve lib ((moment, some hello_text) ∷ (moment, some ack_text) ∷ []) plain_server
      ≡ (ok tt, renewed lib moment hello ack plain_server))
    × Taken (renewed lib moment hello ack plain_server).ip_pool session.client_address
    × ((h : Holder)
        → table
            (renewed lib moment hello ack plain_server).active_clients
            (renewed lib moment hello ack plain_server).handshake_states
            h
          ≢ some session.client_address)
unfolding lookup may_greet str_eq session_config_for
serve_leaks_address_example =
    serve_leaks_address lib moment moment reliable-Delivers hello_text ack_text hello ack
      plain_server session refl served-IsServing refl (λ e. cc)
      (header_from_string-text toy (a_client_hello hello) toy_laws tt)
      (from_string-to_string toy (a_client_hello hello) toy_laws (tt, tt)) refl
      (header_from_string-text toy (a_client_ack ack) toy_laws tt)
      (from_string-to_string toy (a_client_ack ack) toy_laws (tt, tt)) refl refl

remove_masquerade_command_ne_example :
    rule_of (remove_masquerade_command (codes "10.0.0.2") (codes "eth0"))
    ≢ rule_of (masquerade_command (codes "10.0.0.2") (codes "eth0"))
remove_masquerade_command_ne_example =
    remove_masquerade_command_ne (codes "10.0.0.2") (codes "eth0")

abbrev full_server : TunnelServer
full_server = record (new_server false) {
  ip_pool = record taken_pool { ip_usage = false ∷ true ∷ true ∷ [] };
}

abbrev ignored : TunnelClient
ignored = record (new_client false) { inbox = none ∷ none ∷ none ∷ [] }

setup_session_unanswered_example : setup_session lib draws no_files ignored ≡ (
  throw (process_exit 1),
  left [] (sent (to_string toy (client_hello_for draws ignored)) ignored),
)
setup_session_unanswered_example =
    setup_session_unanswered lib draws no_files [] ignored reliable-Delivers refl refl
