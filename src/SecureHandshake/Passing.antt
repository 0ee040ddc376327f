-- ===== src/SecureHandshake/Passing.antt =====
-- What client and server with mirrored keys send each other in the handshake with encryption of
-- src/TunnelClient.cpp and src/TunnelServer.cpp: that each opens what the other sealed.
use mqtt_tunnel.Base.{
  ◌≡◌, refl, sym, true, some, [], ◌∷◌, ◌++◌, ok, length, ◌+◌, ◌≤◌, ℕ, arith, subst, Option-cases,
  inl, inr, List,
}
use mqtt_tunnel.Base.Text.{Str}
use mqtt_tunnel.Base.Dict.{lookup, dict_laws}
use mqtt_tunnel.Sodium.{Sodium, SodiumLaws}
use mqtt_tunnel.Messages.{
  client_hello_serializable, server_hello_serializable, client_ack_serializable,
  server_ack_serializable, client_hello_crypto_serializable, server_hello_crypto_serializable,
  client_hello_crypto, server_hello_crypto, MessageIdentifier,
}
use mqtt_tunnel.Messages.RoundTrip.{IsListed}
use mqtt_tunnel.CryptoManager.{
  FileSystem, CryptoManager, CryptoSessionConfig, encrypt_data, decrypt_data, max_size,
}
use mqtt_tunnel.CryptoManager.Agreement.{
  Exchanged-IsMirrored, IsMirrored, generate_client_hello-Greeted,
  establish_server_session-Answered,
}
use mqtt_tunnel.CryptoManager.PacketLaws.{decrypt_data-encrypt_data}
use mqtt_tunnel.Libraries.{Libraries, Moment, Effect}
use mqtt_tunnel.Logs.{Logged, Logged-before}
use mqtt_tunnel.TunnelServer.State.{TunnelServer, server_log}
use mqtt_tunnel.TunnelServer.Handshake.{may_greet, set_state, note_hello}
use mqtt_tunnel.TunnelServer.Secure.{Opens}
use mqtt_tunnel.TunnelClient.State.{TunnelClient, client_log}
use mqtt_tunnel.TunnelClient.Session.{Draws}
use mqtt_tunnel.SecureHandshake.{KeyExchange, Seals, session_name}

pub encrypt_data-Seals :
    (s : Sodium) (entropy : ℕ) (m : CryptoManager) (p id : Str) (session : CryptoSessionConfig)
    → Seals s
    → lookup id m.session_map ≡ some session
    → (packet : Str) × (encrypt_data s entropy m p id ≡ ok packet)
unfolding encrypt_data
encrypt_data-Seals s entropy m p id session k has =
    let nonce = s.randombytes_buf entropy 24 in
    let (c, e) = k.seals p nonce session.tx in (nonce ++ c, ground (arith, has, e))

-- The server takes the hello of a client that has just exchanged keys, whatever it knew of it.
pub may_greet_noted :
    (id : Str) (s : TunnelServer) → may_greet (lookup id (note_hello id s).handshake_states) ≡ true
unfolding note_hello set_state may_greet
may_greet_noted id s = elim (Option-cases (lookup id s.handshake_states)) [
  | inl e ↦ rw (e, set_state) (simp (dict_laws))
  | inr (c, e) ↦ rw (e, set_state) (simp (dict_laws))
]

pub listed : {i j : MessageIdentifier} → i ≡ j → IsListed j → IsListed i
listed e h = subst IsListed (sym e) h

-- The four commands for the device are logged after the messages.
pub after_commands :
    (a b c d : Effect) {e : Effect} {l : List Effect}
    → Logged e l
    → Logged e ((((l ++ a ∷ []) ++ b ∷ []) ++ c ∷ []) ++ d ∷ [])
after_commands a b c d h =
    Logged-before _ _ _ (Logged-before _ _ _ (Logged-before _ _ _ (Logged-before _ _ _ h)))

module _ {lib : Libraries} {draws : Draws} {fs : FileSystem} {first : Moment} {s : TunnelServer}
    {c : TunnelClient} (x : KeyExchange lib draws fs first s c) where
  pub mirror : SodiumLaws lib.sodium → IsMirrored (session_name x) x.server_manager x.client_manager
  mirror crypto =
      Exchanged-IsMirrored lib.sodium x.server_manager x.client_manager (session_name x) crypto
        (record {
          fs = fs;
          client_entropy = draws.key;
          server_entropy = first.entropy;
          now = first.now;
          base = c.client_base_id;
          server_before = s.crypto_manager;
          client_before = c.crypto_manager;
          client_between = x.between;
          hello = x.hello;
          reply = x.keys;
          greets = x.greets;
          answers = x.answers;
          joins = x.joins;
          names = refl;
          server_new = x.server_new;
          client_new = x.client_new;
        })

  pub hello_kind : x.hello.message_identifier ≡ client_hello_crypto
  hello_kind =
      (generate_client_hello-Greeted lib.sodium draws.key c.client_base_id x.hello c.crypto_manager
        x.between x.greets).kind

  pub keys_kind : x.keys.message_identifier ≡ server_hello_crypto
  keys_kind =
      (establish_server_session-Answered lib.sodium first.entropy first.now x.hello x.keys
        s.crypto_manager x.server_manager x.answers).kind

  pub Opens-of :
      (m : IsMirrored (session_name x) x.server_manager x.client_manager)
      → Opens (session_name x) x.client_manager x.server_manager
  Opens-of m = record {
    client_session = m.client_session;
    server_session = m.server_session;
    client_has = m.client_has;
    server_has = m.server_has;
    same_key = m.to_server;
  }

  module _ (crypto : SodiumLaws lib.sodium) (k : Seals lib.sodium) where
    -- What one side seals under the session, and that the other opens it.
    pub record Passes (entropy : ℕ) (from to : CryptoManager) (p : Str) : Type 0 where
      pub packet : Str
      pub sealed : encrypt_data lib.sodium entropy from p (session_name x) ≡ ok packet
      pub opened : decrypt_data lib.sodium to packet (session_name x) ≡ ok p

    pub up :
        (entropy : ℕ) (p : Str)
        → length p + 40 ≤ max_size
        → Passes entropy x.client_manager x.server_manager p
    up entropy p small =
        let m = mirror crypto in
        let (packet, e) =
          encrypt_data-Seals lib.sodium entropy x.client_manager p (session_name x) m.client_session
            k m.client_has in
        record {
          packet = packet;
          sealed = e;
          opened =
              decrypt_data-encrypt_data lib.sodium x.client_manager x.server_manager
                (session_name x) (session_name x) p packet m.client_session m.server_session entropy
                crypto m.client_has m.server_has m.to_server small e;
        }

    pub down :
        (entropy : ℕ) (p : Str)
        → length p + 40 ≤ max_size
        → Passes entropy x.server_manager x.client_manager p
    down entropy p small =
        let m = mirror crypto in
        let (packet, e) =
          encrypt_data-Seals lib.sodium entropy x.server_manager p (session_name x) m.server_session
            k m.server_has in
        record {
          packet = packet;
          sealed = e;
          opened =
              decrypt_data-encrypt_data lib.sodium x.server_manager x.client_manager
                (session_name x) (session_name x) p packet m.server_session m.client_session entropy
                crypto m.server_has m.client_has m.to_client small e;
        }
