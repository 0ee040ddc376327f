-- ===== src/TunnelClient/Unanswered.antt =====
-- src/TunnelClient.cpp: a server that does not answer, or acknowledges another handshake.
use mqtt_tunnel.Base.{◌≡◌, ◌∙◌, ap, refl, false, none, ◌∷◌, List, Option, throw, process_exit}
use mqtt_tunnel.Base.Text.{Str}
use mqtt_tunnel.Base.State.{◌>>=◌, bind_ok, bind_throw, get}
use mqtt_tunnel.Messages.{
  to_string, client_hello_serializable, server_hello_serializable, server_ack_serializable,
}
use mqtt_tunnel.CryptoManager.{FileSystem}
use mqtt_tunnel.Libraries.{Libraries}
use mqtt_tunnel.TunnelServer.Plain.{Delivers}
use mqtt_tunnel.TunnelClient.State.{TunnelClient, poll, wait_for}
use mqtt_tunnel.TunnelClient.Session.{
  Draws, answer, present, wrapped, send, client_hello_for, exchange_keys, greet_server,
  setup_session,
}
use mqtt_tunnel.TunnelClient.Plain.{sent, left, wrapped_plain, send_delivers}

answer-none :
    (rest : List (Option Str)) (s : TunnelClient)
    → s.inbox ≡ none ∷ none ∷ none ∷ rest
    → answer none s ≡ (throw (process_exit 1), left rest s)
unfolding answer wait_for poll present ◌>>=◌
answer-none rest s e = rw e

-- Without encryption and where the MQTT library delivers, a client that finds nothing in its three
-- polls after the hello ends the program with exit code 1, and has published its hello and done
-- nothing else.
pub setup_session_unanswered :
    (lib : Libraries) (draws : Draws) (fs : FileSystem) (rest : List (Option Str))
    (c : TunnelClient)
    → Delivers lib.mqtt
    → c.encryption_enabled ≡ false
    → c.inbox ≡ none ∷ none ∷ none ∷ rest
    → setup_session lib draws fs c ≡ (
      throw (process_exit 1),
      left rest (sent (to_string lib.cereal (client_hello_for draws c)) c),
    )
unfolding setup_session exchange_keys greet_server
setup_session_unanswered lib draws fs rest c d plain there =
    bind_ok (λ s. exchange_keys lib draws fs s.encryption_enabled s) _
      (ap (λ b. exchange_keys lib draws fs b c) plain)
    ∙ bind_ok (get _) _ refl
    ∙ bind_throw (greet_server lib draws (client_hello_for draws c)) _ (
        bind_ok (wrapped lib draws.hello_nonce _) _
          (wrapped_plain lib d draws.hello_nonce _ c plain)
        ∙ bind_ok (send lib _) _ (send_delivers lib d _ c)
        ∙ bind_throw (answer none) _
            (answer-none rest (sent (to_string lib.cereal (client_hello_for draws c)) c) there))
