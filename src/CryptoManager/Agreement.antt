-- ===== src/CryptoManager/Agreement.antt =====
-- The key exchange: after it the two managers hold mirrored keys under one identifier.
use mqtt_tunnel.CryptoManager.Packets.{decrypt_data, encrypt_data, max_size}
use mqtt_tunnel.CryptoManager.PacketLaws.{decrypt_data-encrypt_data}
use mqtt_tunnel.CryptoManager.Files.{FileSystem}
use mqtt_tunnel.Base.{
  sym, ◌≤◌, ◌∙◌, ◌+◌, ap, [], length, ℕ, none, some, ◌≡◌, inl, inr, ok, arith, Option-cases,
}
use mqtt_tunnel.Base.Text.{Str, str_eq_refl}
use mqtt_tunnel.Base.Dict.{Dict, lookup, emplace, lookup-insert}
use mqtt_tunnel.Sodium.{SodiumLaws, Sodium}
use mqtt_tunnel.Messages.{
  ClientHelloCrypto, ServerHelloCrypto, client_hello_crypto, server_hello_crypto,
}
use mqtt_tunnel.CryptoManager.Keys.{CryptoManager, CryptoSessionConfig}
use mqtt_tunnel.CryptoManager.Exchange.{
  establish_client_session, establish_server_session, generate_client_hello, accept_session,
}

-- A new identifier is emplaced.
lookup-emplace_new :
    (id : Str) (c : CryptoSessionConfig) (d : Dict CryptoSessionConfig)
    → lookup id d ≡ none
    → lookup id (emplace id c d) ≡ some c
unfolding emplace
lookup-emplace_new id c d new = ground (arith, new, lookup-insert id id c d, str_eq_refl id)

pub record Greeted (s : Sodium) (entropy : ℕ) (hello : ClientHelloCrypto) (m : CryptoManager)
    : Type 0 where
  pub generated :
      s.crypto_kx_keypair entropy
      ≡ some (m.client_buffer_ephemeral.public_key, m.client_buffer_ephemeral.secret_key)
  pub sent : hello.client_ephemeral_public_key ≡ m.client_buffer_ephemeral.public_key
  pub kind : hello.message_identifier ≡ client_hello_crypto

pub generate_client_hello-Greeted :
    (s : Sodium) (entropy : ℕ) (base : Str) (hello : ClientHelloCrypto) (m n : CryptoManager)
    → generate_client_hello s entropy base m ≡ (ok hello, n)
    → Greeted s entropy hello n
unfolding generate_client_hello
generate_client_hello-Greeted s entropy base hello m n e =
    elim (Option-cases (s.crypto_kx_keypair entropy)) [
      | inl failed ↦ absurd (ground (arith, failed))
      | inr ((pk, sk), made) ↦ record {
        generated = ground (arith, made);
        sent = ground (arith, made);
        kind = ground (arith, made);
      }
    ]

pub record Answered (s : Sodium) (entropy : ℕ) (hello : ClientHelloCrypto)
    (reply : ServerHelloCrypto) (m n : CryptoManager) : Type 0 where
  pub secret_key : Str
  pub session : CryptoSessionConfig
  pub generated : s.crypto_kx_keypair entropy ≡ some (reply.server_ephemeral_public_key, secret_key)
  pub keys :
      s.crypto_kx_server_session_keys reply.server_ephemeral_public_key secret_key
        hello.client_ephemeral_public_key
      ≡ some (session.rx, session.tx)
  pub left : n ≡ accept_session reply.unique_identifier session m
  pub signed :
      s.crypto_sign_detached reply.server_ephemeral_public_key m.server_identity.secret_key_id
      ≡ some reply.signature_message
  pub kind : reply.message_identifier ≡ server_hello_crypto

pub establish_server_session-Answered :
    (s : Sodium) (entropy now : ℕ) (hello : ClientHelloCrypto) (reply : ServerHelloCrypto)
    (m n : CryptoManager)
    → establish_server_session s entropy now hello m ≡ (ok reply, n)
    → Answered s entropy hello reply m n
unfolding establish_server_session
establish_server_session-Answered s entropy now hello reply m n e =
    elim (Option-cases (s.crypto_kx_keypair entropy)) [
      | inl failed ↦ absurd (ground (arith, failed))
      | inr ((pk, sk), made) ↦
          elim (Option-cases (s.crypto_sign_detached pk m.server_identity.secret_key_id)) [
            | inl failed ↦ absurd (ground (arith, made, failed))
            | inr (signature, signs) ↦
                elim (Option-cases
                  (s.crypto_kx_server_session_keys pk sk hello.client_ephemeral_public_key)) [
                    | inl failed ↦ absurd (ground (arith, made, signs, failed))
                    | inr ((rx, tx), agreed) ↦ record {
                      secret_key = sk;
                      session = record { rx = rx; tx = tx; signature_message = signature };
                      generated = ground (arith, made, signs, agreed);
                      keys = ground (arith, made, signs, agreed);
                      left = ground (arith, made, signs, agreed);
                      signed = ground (arith, made, signs, agreed);
                      kind = ground (arith, made, signs, agreed);
                    }
                  ]
          ]
    ]

record Joined (s : Sodium) (reply : ServerHelloCrypto) (m n : CryptoManager) : Type 0 where
  session : CryptoSessionConfig
  keys :
      s.crypto_kx_client_session_keys m.client_buffer_ephemeral.public_key
        m.client_buffer_ephemeral.secret_key reply.server_ephemeral_public_key
      ≡ some (session.rx, session.tx)
  added : n.session_map ≡ emplace reply.unique_identifier session m.session_map

-- Whether the server is authenticated or not, a success joins the session.
establish_client_session-Joined :
    (s : Sodium) (fs : FileSystem) (reply : ServerHelloCrypto) (m n : CryptoManager)
    → establish_client_session s fs reply m ≡ (ok tt, n)
    → Joined s reply m n
unfolding establish_client_session accept_session
establish_client_session-Joined s fs reply m n e =
    elim (Option-cases (
      s.crypto_kx_client_session_keys m.client_buffer_ephemeral.public_key
        m.client_buffer_ephemeral.secret_key reply.server_ephemeral_public_key)) [
          | inl failed ↦ absurd (ground (arith, failed))
          | inr ((rx, tx), agreed) ↦ record {
            session = record { rx = rx; tx = tx; signature_message = [] };
            keys = ground (arith, agreed);
            added = ground (arith, agreed);
          }
        ]

-- The two managers hold a session under the identifier, each with the other's keys swapped.
pub record IsMirrored (id : Str) (server client : CryptoManager) : Type 0 where
  pub server_session : CryptoSessionConfig
  pub client_session : CryptoSessionConfig
  pub server_has : lookup id server.session_map ≡ some server_session
  pub client_has : lookup id client.session_map ≡ some client_session
  pub to_client : server_session.tx ≡ client_session.rx
  pub to_server : client_session.tx ≡ server_session.rx

-- A run of the exchange: the client's hello, the server's answer to it, and the client's reaction to
-- that, each of them successful, with an identifier that neither side has in use.
pub record Exchanged (s : Sodium) (server client : CryptoManager) (id : Str) : Type 0 where
  pub fs : FileSystem
  pub client_entropy : ℕ
  pub server_entropy : ℕ
  pub now : ℕ
  pub base : Str
  pub server_before : CryptoManager
  pub client_before : CryptoManager
  pub client_between : CryptoManager
  pub hello : ClientHelloCrypto
  pub reply : ServerHelloCrypto
  pub greets :
      generate_client_hello s client_entropy base client_before ≡ (ok hello, client_between)
  pub answers :
      establish_server_session s server_entropy now hello server_before ≡ (ok reply, server)
  pub joins : establish_client_session s fs reply client_between ≡ (ok tt, client)
  pub names : reply.unique_identifier ≡ id
  pub server_new : lookup id server_before.session_map ≡ none
  pub client_new : lookup id client_between.session_map ≡ none

-- After a run of the exchange server and client hold mirrored keys under the session's identifier.
pub Exchanged-IsMirrored :
    (s : Sodium) (server client : CryptoManager) (id : Str)
    → SodiumLaws s
    → Exchanged s server client id
    → IsMirrored id server client
unfolding accept_session
Exchanged-IsMirrored s server client id laws x =
    let g =
      generate_client_hello-Greeted s x.client_entropy x.base x.hello x.client_before
        x.client_between x.greets in
    let a =
      establish_server_session-Answered s x.server_entropy x.now x.hello x.reply x.server_before
        server x.answers in
    let j = establish_client_session-Joined s x.fs x.reply x.client_between client x.joins in
    let agree =
      laws.kx_agree x.server_entropy x.client_entropy x.reply.server_ephemeral_public_key
        a.secret_key x.client_between.client_buffer_ephemeral.public_key
        x.client_between.client_buffer_ephemeral.secret_key a.session.rx a.session.tx j.session.rx
        j.session.tx a.generated g.generated (rw (← g.sent) a.keys) j.keys in
    record {
      server_session = a.session;
      client_session = j.session;
      server_has =
          ap (λ (m : CryptoManager). lookup id m.session_map) a.left
          ∙ rw x.names (lookup-emplace_new id a.session x.server_before.session_map x.server_new);
      client_has =
          ap (lookup id) j.added
          ∙ rw x.names (lookup-emplace_new id j.session x.client_between.session_map x.client_new);
      to_client = agree.1;
      to_server = sym agree.0;
    }

-- Where libsodium keeps its laws, after a run of the exchange whatever one side encrypts (up to the
-- largest size of a vector) the other side decrypts, in both directions.
pub decrypt_data_after_exchange :
    (s : Sodium) (server client : CryptoManager) (id p q down up : Str) (e f : ℕ)
    → SodiumLaws s
    → Exchanged s server client id
    → length p + 40 ≤ max_size
    → length q + 40 ≤ max_size
    → encrypt_data s e server p id ≡ ok down
    → encrypt_data s f client q id ≡ ok up
    → (decrypt_data s client down id ≡ ok p) × (decrypt_data s server up id ≡ ok q)
decrypt_data_after_exchange s server client id p q down up e f laws x hp hq sends answers =
    let k = Exchanged-IsMirrored s server client id laws x in
    (
      decrypt_data-encrypt_data s server client id id p down k.server_session k.client_session e
          laws k.server_has k.client_has k.to_client hp sends,
      decrypt_data-encrypt_data s client server id id q up k.client_session k.server_session f laws
          k.client_has k.server_has k.to_server hq answers,
    )
