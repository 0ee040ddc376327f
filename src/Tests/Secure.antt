-- ===== src/Tests/Secure.antt =====
-- The encrypted handshake of the client and the server of the fixtures.
use mqtt_tunnel.TunnelClient.State.{TunnelClient}
use mqtt_tunnel.SecureHandshake.Release.{Released, secure_handshake-Released}
use mqtt_tunnel.Tests.Packets.{ip_packet}
use mqtt_tunnel.Tests.Runs.{built-IsServing}
use mqtt_tunnel.SecureHandshake.Carriage.{Carries, secure_handshake-Carries}
use mqtt_tunnel.TunnelServer.TunRead.{daddr, overwrite, byte_at}
use mqtt_tunnel.Base.Text.{Str, codes}
use mqtt_tunnel.Libraries.Calls.{log}
use mqtt_tunnel.Base.{refl, true, arith, replicate, ◌≡◌}
use mqtt_tunnel.Base.Dict.{lookup}
use mqtt_tunnel.Base.Decimal.{to_string as decimal}
use mqtt_tunnel.Cereal.Toy.{toy, toy_laws}
use mqtt_tunnel.Sodium.Toy as SodiumToy
use mqtt_tunnel.Helpers.{get_sha256_string, ip_to_string}
use mqtt_tunnel.IpPool.{allocate_ip}
use mqtt_tunnel.Messages.{
  to_string, load_client_hello, load_server_hello, load_client_ack, load_server_ack,
}
use mqtt_tunnel.CryptoManager.{
  generate_client_hello, establish_server_session, establish_client_session,
}
use mqtt_tunnel.Libraries.{Moment}
use mqtt_tunnel.TunnelServer.Handshake.{session_config_for, server_hello_for, note_hello}
use mqtt_tunnel.TunnelClient.Session.{client_hello_for, handshake_identifier_of}
use mqtt_tunnel.SecureHandshake.{KeyExchange, Seals, AreSmall, SecureAgreement, session_made}
use mqtt_tunnel.SecureHandshake.Agreement.{secure_handshake-Agreement}
use mqtt_tunnel.Tests.Crypto.{hello, reply, server_end, client_between, client_end}
use mqtt_tunnel.Fixtures.{lib, draws, no_files, moment, new_server, new_client, reliable-Delivers}

abbrev first : Moment
first = record { now = 5; entropy = 4 }

abbrev exchange : KeyExchange lib draws no_files first (new_server true) (new_client true)
unfolding generate_client_hello establish_server_session establish_client_session decimal lookup
exchange = record {
  hello = hello;
  keys = reply;
  server_manager = server_end;
  between = client_between;
  client_manager = client_end;
  greets = refl;
  answers = refl;
  joins = refl;
  server_new = refl;
  client_new = refl;
  key_size = refl;
  sizes = (refl, refl);
}

toy-Seals : Seals SodiumToy.toy
toy-Seals = record { seals = λ m n k. (_, refl) }

small : AreSmall exchange moment
unfolding to_string toy client_hello_for server_hello_for session_config_for allocate_ip decimal
    get_sha256_string handshake_identifier_of load_client_hello load_server_hello load_client_ack
    load_server_ack exchange note_hello log
small = record {
  hello_small = omega arith;
  reply_small = omega arith;
  ack_small = omega arith;
  done_small = omega arith;
}

secure_handshake-Agreement_example : SecureAgreement exchange moment moment
secure_handshake-Agreement_example =
    secure_handshake-Agreement exchange toy_laws SodiumToy.toy_laws toy-Seals moment moment
      reliable-Delivers refl refl tt small

abbrev buffer : Str
buffer = replicate 32 0

own_address :
    ip_to_string lib.helpers (daddr (overwrite buffer ip_packet))
    ≡ (session_made exchange moment).client_address
unfolding ip_to_string daddr byte_at decimal client_hello_for session_config_for allocate_ip
    note_hello log
own_address = refl

secure_handshake-Carries_example : Carries exchange moment moment 7 buffer (codes "ping") ip_packet
unfolding session_config_for allocate_ip client_hello_for note_hello log decimal exchange
secure_handshake-Carries_example =
    secure_handshake-Carries exchange moment moment 7 buffer (codes "ping") ip_packet toy_laws
      SodiumToy.toy_laws toy-Seals reliable-Delivers refl refl tt small built-IsServing tt
      (refl, (refl, tt)) (refl, (refl, (refl, tt))) (λ e. cc) (omega arith) (omega arith)
      own_address (λ e. cc)

agreement : SecureAgreement exchange moment moment
agreement =
    secure_handshake-Agreement exchange toy_laws SodiumToy.toy_laws toy-Seals moment moment
      reliable-Delivers refl refl tt small

-- The client of the handshake, with its TUN thread.
abbrev running_client : TunnelClient
running_client = record agreement.client { tunnel_active = true; thread_running = true }

secure_handshake-Released_example : Released exchange agreement moment running_client
unfolding session_config_for allocate_ip client_hello_for note_hello log decimal exchange
secure_handshake-Released_example =
    secure_handshake-Released exchange agreement moment running_client toy_laws reliable-Delivers
      built-IsServing (λ e. cc) refl
