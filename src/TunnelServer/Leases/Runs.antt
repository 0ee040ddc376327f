-- ===== src/TunnelServer/Leases/Runs.antt =====
-- Every message, and so every run of the server's loop, keeps the invariant; the set-up and the packets of
-- the tunnel leave pool and sessions alone.
use mqtt_tunnel.Base.{◌≡◌, ◌≢◌, Option, none, some, [], ◌∷◌, List, arith, Result, ok, throw, fault}
use mqtt_tunnel.Base.Text.{Str}
use mqtt_tunnel.Base.Dict.{lookup}
use mqtt_tunnel.Base.State.{next}
use mqtt_tunnel.Types.{SessionConfig}
use mqtt_tunnel.Messages.{
  MessageIdentifier, client_hello_crypto, client_hello, client_ack, session_termination,
  encrypted_wrapper,
}
use mqtt_tunnel.Libraries.{Libraries, Moment}
use mqtt_tunnel.TunnelServer.State.{TunnelServer}
use mqtt_tunnel.TunnelServer.Handshake.{handle_client_handshake}
use mqtt_tunnel.TunnelServer.Loop.{on_encrypted_wrapper, dispatch, handle_message, serve}
use mqtt_tunnel.TunnelServer.Leases.{active_session}
use mqtt_tunnel.TunnelServer.Leases.Frames.{IsServing, call_bind}
use mqtt_tunnel.TunnelServer.Leases.Steps.{
  on_client_hello_crypto-IsServing, on_client_hello-IsServing,
}
use mqtt_tunnel.TunnelServer.Leases.Acknowledgement.{on_client_ack-IsServing}
use mqtt_tunnel.TunnelServer.Leases.Termination.{on_session_termination-IsServing}

module _ (lib : Libraries) (at : Moment) where
  handle_client_handshake-IsServing :
      (payload : Str) (kind : MessageIdentifier) (s : TunnelServer)
      → IsServing s
      → IsServing (handle_client_handshake lib at payload kind s).1
  unfolding handle_client_handshake
  handle_client_handshake-IsServing payload client_hello_crypto s v =
      on_client_hello_crypto-IsServing lib at s v payload
  handle_client_handshake-IsServing payload client_hello s v =
      on_client_hello-IsServing lib at payload s v
  handle_client_handshake-IsServing payload client_ack s v =
      on_client_ack-IsServing lib at payload s v
  handle_client_handshake-IsServing payload _ s v = v

  on_encrypted_wrapper-IsServing :
      (payload : Str) (s : TunnelServer)
      → IsServing s
      → IsServing (on_encrypted_wrapper lib at payload s).1
  unfolding on_encrypted_wrapper
  on_encrypted_wrapper-IsServing payload s v = call_bind IsServing s _ _ v λ wrapper _.
      call_bind IsServing s _ _ v λ text _.
        call_bind IsServing s _ _ v λ header _. handle_client_handshake-IsServing text _ s v

  dispatch-IsServing :
      (payload : Str) (kind : MessageIdentifier) (s : TunnelServer)
      → IsServing s
      → IsServing (dispatch lib at payload kind s).1
  unfolding dispatch
  dispatch-IsServing payload session_termination s v =
      on_session_termination-IsServing lib payload s v
  dispatch-IsServing payload encrypted_wrapper s v = on_encrypted_wrapper-IsServing payload s v
  dispatch-IsServing payload client_hello_crypto s v =
      handle_client_handshake-IsServing payload client_hello_crypto s v
  dispatch-IsServing payload client_hello s v =
      handle_client_handshake-IsServing payload client_hello s v
  dispatch-IsServing payload client_ack s v =
      handle_client_handshake-IsServing payload client_ack s v
  dispatch-IsServing payload kind s v = handle_client_handshake-IsServing payload kind s v

  -- Whatever the message, and also where its handling throws, the invariant of pool and sessions
  -- holds afterwards if it held before: what is held is marked in the pool, and nothing is held
  -- twice.
  pub handle_message-IsServing :
      (payload : Str) (s : TunnelServer)
      → IsServing s
      → IsServing (handle_message lib at payload s).1
  unfolding handle_message
  handle_message-IsServing payload s v =
      call_bind IsServing s _ _ v λ header _. dispatch-IsServing payload _ s v

serve-next :
    (lib : Libraries) (rounds : List (Moment × Option Str)) (r : Result (Unit {0}) × TunnelServer)
    → ((s : TunnelServer) → IsServing s → IsServing (serve lib rounds s).1)
    → IsServing r.1
    → IsServing (next (λ _. serve lib rounds) r).1
serve-next lib rounds (ok _, t) ih v = ih t v
serve-next lib rounds (throw e, t) ih v = v
serve-next lib rounds (fault, t) ih v = v

pub serve-IsServing :
    (lib : Libraries) (rounds : List (Moment × Option Str)) (s : TunnelServer)
    → IsServing s
    → IsServing (serve lib rounds s).1
unfolding serve
serve-IsServing lib [] s v = v
serve-IsServing lib ((at, none) ∷ rounds) s v = serve-IsServing lib rounds s v
serve-IsServing lib ((at, some payload) ∷ rounds) s v =
    serve-next lib rounds (handle_message lib at payload s) (serve-IsServing lib rounds)
      (handle_message-IsServing lib at payload s v)

-- Under the invariant two sessions with one address that is not empty are the same session.
pub distinct_addresses :
    (s : TunnelServer) (j k : Str) (c d : SessionConfig)
    → IsServing s
    → lookup j s.active_clients ≡ some c
    → lookup k s.active_clients ≡ some d
    → c.client_address ≡ d.client_address
    → c.client_address ≢ []
    → j ≡ k
distinct_addresses s j k c d v hj hk same ne =
    let e : active_session j ≡ active_session k =
      v.unique (active_session j) (active_session k) c.client_address (ground (arith, hj))
        (ground (arith, hk, same)) ne in
    ground arith
