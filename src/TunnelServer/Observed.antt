-- ===== src/TunnelServer/Observed.antt =====
-- What a message leaves alone on the server of src/TunnelServer.cpp: every condition, and every view of
-- the server, that sees nothing of what messages change.
use mqtt_tunnel.Base.Dict.{Dict}
use mqtt_tunnel.SessionMap.{SessionMap, add_session, remove_session}
use mqtt_tunnel.Base.{
  ◌++◌, ℕ, Bool, true, false, ◌≡◌, refl, ◌∙◌, Option, none, some, Result, ok, throw, fault,
}
use mqtt_tunnel.Base.Text.{Str, codes}
use mqtt_tunnel.Base.State.{Method}
use mqtt_tunnel.Types.{SessionConfig}
use mqtt_tunnel.IpPool.{IpPool}
use mqtt_tunnel.CryptoManager.{CryptoManager}
use mqtt_tunnel.Messages.{
  ClientHello, ClientAck, MessageIdentifier, client_hello_crypto, client_hello, client_ack,
  session_termination, encrypted_wrapper,
}
use mqtt_tunnel.Libraries.{Libraries, Moment, Effect, command}
use mqtt_tunnel.Libraries.Calls.{log, run_command}
use mqtt_tunnel.Libraries.Observations.{
  Keeps, Stays, Stays-Keeps, is_quiet, bind-Stays, call-Stays, get-Stays, modify-Stays,
  run_command-Stays, subscribe-Stays, publish-Stays,
}
use mqtt_tunnel.TunnelServer.State.{TunnelServer, with_crypto, server_log}
use mqtt_tunnel.TunnelServer.Handshake.{
  send, wrap_if, wrapped, note_hello, on_client_hello_crypto, allocate, set_handshake, greet,
  on_client_hello, masquerade_if, activate, log_established, acknowledge, on_client_ack,
  handle_client_handshake, route_command,
}
use mqtt_tunnel.TunnelServer.Loop.{
  remove_masquerade_if, released, release, end_session, on_session_termination,
  on_encrypted_wrapper, dispatch, handle_message,
}

-- A condition on the server that messages preserve: it sees neither the keys, the pool and the handshakes
-- nor the quiet part of the log, and holds on when a session is added or removed.
pub record IsClosed (P : TunnelServer → Type 0) : Type 0 where
  pub logs : (e : Effect) (s : TunnelServer) → is_quiet e ≡ true → P s → P (log e s)
  pub crypto : (m : CryptoManager) (s : TunnelServer) → P s → P (record s { crypto_manager = m })
  pub pool : (p : IpPool) (s : TunnelServer) → P s → P (record s { ip_pool = p })
  pub handshakes :
      (m : Dict SessionConfig) (s : TunnelServer) → P s → P (record s { handshake_states = m })
  pub added :
      (id : Str) (c : SessionConfig) (s : TunnelServer)
      → P s
      → P (record s { active_clients = add_session s.active_clients id c })
  pub removed :
      (id : Str) (s : TunnelServer)
      → P s
      → P (record s { active_clients = remove_session s.active_clients id })

module _ {P : TunnelServer → Type 0} (o : IsClosed P) where
  crypto-Stays : {A : Type 0} (f : Method CryptoManager A) → Stays P (with_crypto f)
  unfolding with_crypto
  crypto-Stays f = record { stays = λ s p. o.crypto _ s p }

  send-Stays : (lib : Libraries) (payload : Str) → Stays P (send lib payload)
  unfolding send
  send-Stays lib payload = record {
    stays = λ s p.
        (publish-Stays o.logs lib command (s.command_channel_name ++ codes "_TX") payload 1).stays s
          p;
  }

  wrap_if-Stays :
      (lib : Libraries) (at : Moment) (id payload : Str) (b : Bool)
      → Stays P (wrap_if lib at id payload b)
  unfolding wrap_if
  wrap_if-Stays lib at id payload false = record { stays = λ s p. p }
  wrap_if-Stays lib at id payload true = bind-Stays (call-Stays _) (λ packet. get-Stays _)

  wrapped-Stays :
      (lib : Libraries) (at : Moment) (id payload : Str) → Stays P (wrapped lib at id payload)
  unfolding wrapped
  wrapped-Stays lib at id payload = record {
    stays = λ s p. (wrap_if-Stays lib at id payload s.encryption_enabled).stays s p;
  }

  masquerade_if-Stays : (b : Bool) (address : Str) → Stays P (masquerade_if b address)
  unfolding masquerade_if run_command
  masquerade_if-Stays true address = record { stays = λ s p. o.logs _ s refl p }
  masquerade_if-Stays false address = record { stays = λ s p. p }

  remove_masquerade_if-Stays : (b : Bool) (address : Str) → Stays P (remove_masquerade_if b address)
  unfolding remove_masquerade_if run_command
  remove_masquerade_if-Stays true address = record { stays = λ s p. o.logs _ s refl p }
  remove_masquerade_if-Stays false address = record { stays = λ s p. p }

  allocate-Stays : Stays P allocate
  unfolding allocate
  allocate-Stays = record { stays = λ s p. o.pool _ s p }

  released-stays : (s : TunnelServer) (r : Result (ℕ × IpPool)) → P s → P (released s r).1
  unfolding released
  released-stays s (ok r) p = o.pool _ s p
  released-stays s (throw e) p = p
  released-stays s fault p = p

  release-Stays : (address : Str) → Stays P (release address)
  unfolding release
  release-Stays address = record { stays = λ s p. released-stays s _ p }

  module _ (lib : Libraries) (at : Moment) where
    on_client_hello_crypto-Stays : (payload : Str) → Stays P (on_client_hello_crypto lib at payload)
    unfolding on_client_hello_crypto note_hello
    on_client_hello_crypto-Stays payload = bind-Stays (call-Stays _) (λ hello.
        bind-Stays (crypto-Stays _) (λ reply.
          bind-Stays (send-Stays lib _) (λ _. modify-Stays _ (λ s p. o.handshakes _ s p))))

    greet-Stays : (hello : ClientHello) (b : Bool) → Stays P (greet lib at hello b)
    unfolding greet set_handshake
    greet-Stays hello false = record { stays = λ s p. p }
    greet-Stays hello true = bind-Stays allocate-Stays (λ ip. bind-Stays (get-Stays _) (λ config.
        bind-Stays (wrapped-Stays lib at _ _) (λ payload.
          bind-Stays (send-Stays lib payload) (λ _. modify-Stays _ (λ s p. o.handshakes _ s p)))))

    on_client_hello-Stays : (payload : Str) → Stays P (on_client_hello lib at payload)
    unfolding on_client_hello
    on_client_hello-Stays payload =
        bind-Stays (call-Stays _) (λ hello. bind-Stays (get-Stays _) (greet-Stays hello))

    acknowledge-Stays :
        (ack : ClientAck) (c : Option SessionConfig) → Stays P (acknowledge lib at ack c)
    unfolding acknowledge activate log_established
    acknowledge-Stays ack none = record { stays = λ s p. p }
    acknowledge-Stays ack (some c) = bind-Stays (call-Stays _) (λ _.
        bind-Stays (wrapped-Stays lib at _ _) (λ payload. bind-Stays (send-Stays lib payload) (λ _.
          bind-Stays (run_command-Stays o.logs (route_command c.client_address)) (λ _.
            bind-Stays (masquerade_if-Stays _ _) (λ _.
              bind-Stays (subscribe-Stays o.logs lib _ _ 1) (λ _.
                bind-Stays (modify-Stays _ (λ s p. o.handshakes _ _ (o.added _ _ s p)))
                  (λ _. modify-Stays _ (λ s p. o.handshakes _ s p))))))))

    on_client_ack-Stays : (payload : Str) → Stays P (on_client_ack lib at payload)
    unfolding on_client_ack
    on_client_ack-Stays payload =
        bind-Stays (call-Stays _) (λ ack. bind-Stays (get-Stays _) (acknowledge-Stays ack))

    handshake-Stays :
        (payload : Str) (kind : MessageIdentifier)
        → Stays P (handle_client_handshake lib at payload kind)
    unfolding handle_client_handshake
    handshake-Stays payload client_hello_crypto = record {
      stays = (on_client_hello_crypto-Stays payload).stays;
    }
    handshake-Stays payload client_hello = record { stays = (on_client_hello-Stays payload).stays }
    handshake-Stays payload client_ack = record { stays = (on_client_ack-Stays payload).stays }
    handshake-Stays payload _ = record { stays = λ s p. p }

    end_session-Stays : (id : Str) (found : Bool × SessionConfig) → Stays P (end_session id found)
    unfolding end_session
    end_session-Stays id (false, c) = record { stays = λ s p. p }
    end_session-Stays id (true, c) =
        bind-Stays (remove_masquerade_if-Stays _ _)
          (λ _. bind-Stays (modify-Stays _ (λ s p. o.removed _ s p)) (λ _. release-Stays _))

    termination-Stays : (payload : Str) → Stays P (on_session_termination lib payload)
    unfolding on_session_termination
    termination-Stays payload =
        bind-Stays (call-Stays _)
          (λ term. bind-Stays (get-Stays _) (end_session-Stays term.client_id))

    wrapper-Stays : (payload : Str) → Stays P (on_encrypted_wrapper lib at payload)
    unfolding on_encrypted_wrapper
    wrapper-Stays payload = bind-Stays (call-Stays _) (λ wrapper.
        bind-Stays (call-Stays _)
          (λ text. bind-Stays (call-Stays _) (λ header. handshake-Stays text _)))

    dispatch-Stays :
        (payload : Str) (kind : MessageIdentifier) → Stays P (dispatch lib at payload kind)
    unfolding dispatch
    dispatch-Stays payload session_termination = record {
      stays = (termination-Stays payload).stays;
    }
    dispatch-Stays payload encrypted_wrapper = record { stays = (wrapper-Stays payload).stays }
    dispatch-Stays payload client_hello_crypto = record {
      stays = (handshake-Stays payload client_hello_crypto).stays;
    }
    dispatch-Stays payload client_hello = record {
      stays = (handshake-Stays payload client_hello).stays;
    }
    dispatch-Stays payload client_ack = record {
      stays = (handshake-Stays payload client_ack).stays;
    }
    dispatch-Stays payload kind = record { stays = (handshake-Stays payload kind).stays }

    -- A message preserves it, also where its handling throws.
    pub handle_message-Stays : (payload : Str) → Stays P (handle_message lib at payload)
    unfolding handle_message
    handle_message-Stays payload = bind-Stays (call-Stays _) (λ header. dispatch-Stays payload _)

-- A view of the server that sees none of what a message changes.
pub record Ignores {B : Type 0} (view : TunnelServer → B) : Type 0 where
  pub logs : (e : Effect) (s : TunnelServer) → is_quiet e ≡ true → view (log e s) ≡ view s
  pub crypto :
      (m : CryptoManager) (s : TunnelServer) → view (record s { crypto_manager = m }) ≡ view s
  pub pool : (p : IpPool) (s : TunnelServer) → view (record s { ip_pool = p }) ≡ view s
  pub clients :
      (m : SessionMap) (s : TunnelServer) → view (record s { active_clients = m }) ≡ view s
  pub handshakes :
      (m : Dict SessionConfig) (s : TunnelServer)
      → view (record s { handshake_states = m }) ≡ view s

Ignores-IsClosed :
    {B : Type 0} {view : TunnelServer → B} (o : Ignores view) (b : B) → IsClosed (λ s. view s ≡ b)
Ignores-IsClosed o b = record {
  logs = λ e s q p. o.logs e s q ∙ p;
  crypto = λ m s p. o.crypto m s ∙ p;
  pool = λ q s p. o.pool q s ∙ p;
  handshakes = λ m s p. o.handshakes m s ∙ p;
  added = λ id c s p. o.clients _ s ∙ p;
  removed = λ id s p. o.clients _ s ∙ p;
}

-- A message leaves such a view alone, also where its handling throws.
pub handle_message-Keeps :
    {B : Type 0} {view : TunnelServer → B} (o : Ignores view) (lib : Libraries) (at : Moment)
    (payload : Str)
    → Keeps view (handle_message lib at payload)
handle_message-Keeps o lib at payload =
    Stays-Keeps (λ b. handle_message-Stays (Ignores-IsClosed o b) lib at payload)
