-- ===== src/TunnelServer/Routing.antt =====
-- src/TunnelServer.cpp, the map of the sessions in every state of the loop: it is in the order of its
-- keys, and an address leads to the session that has it.
use mqtt_tunnel.Base.{refl, ◌≡◌, ◌≢◌, true, Option, none, some, List, [], ◌∷◌, ◌∙◌, sym}
use mqtt_tunnel.Base.Text.{Str}
use mqtt_tunnel.Base.Dict.{lookup}
use mqtt_tunnel.Base.Dict.Order.{IsSorted, insert-IsSorted, erase-IsSorted}
use mqtt_tunnel.Base.State.{◌>>=◌}
use mqtt_tunnel.Types.{SessionConfig}
use mqtt_tunnel.SessionMap.{add_session, remove_session, get_session_by_ip}
use mqtt_tunnel.SessionMap.Search.{get_session_by_ip-only}
use mqtt_tunnel.Libraries.{Libraries, Moment}
use mqtt_tunnel.Libraries.Calls.{log}
use mqtt_tunnel.Libraries.Observations.{Stays, bind-Stays}
use mqtt_tunnel.TunnelServer.State.{TunnelServer, server_log}
use mqtt_tunnel.TunnelServer.Loop.{serve}
use mqtt_tunnel.TunnelServer.Observed.{IsClosed, handle_message-Stays}
use mqtt_tunnel.TunnelServer.Leases.Frames.{IsServing}
use mqtt_tunnel.TunnelServer.Leases.Runs.{serve-IsServing, distinct_addresses}

abbrev IsOrdered : TunnelServer → Type 0
IsOrdered s = IsSorted s.active_clients

IsOrdered-IsClosed : IsClosed IsOrdered
unfolding log add_session remove_session
IsOrdered-IsClosed = record {
  logs = λ e s q p. p;
  crypto = λ m s p. p;
  pool = λ q s p. p;
  handshakes = λ m s p. p;
  added = λ id c s p. insert-IsSorted id c s.active_clients p;
  removed = λ id s p. erase-IsSorted id s.active_clients p;
}

serve-Stays :
    (lib : Libraries) (rounds : List (Moment × Option Str)) → Stays IsOrdered (serve lib rounds)
unfolding serve ◌>>=◌
serve-Stays lib [] = record { stays = λ s p. p }
serve-Stays lib ((at, none) ∷ rounds) = record { stays = (serve-Stays lib rounds).stays }
serve-Stays lib ((at, some payload) ∷ rounds) =
    bind-Stays (handle_message-Stays IsOrdered-IsClosed lib at payload)
      (λ _. serve-Stays lib rounds)

-- After any messages, and wherever the loop has stopped, the address of every session that has one leads
-- to that session and to no other, on a server that had the lease invariant and its sessions in order, as
-- a server that was just built has.
pub serve-finds :
    (lib : Libraries) (rounds : List (Moment × Option Str)) (s : TunnelServer) (id : Str)
    (c config : SessionConfig)
    → IsServing s
    → IsSorted s.active_clients
    → lookup id (serve lib rounds s).1.active_clients ≡ some c
    → c.client_address ≢ []
    → get_session_by_ip (serve lib rounds s).1.active_clients c.client_address config ≡ (true, c)
serve-finds lib rounds s id c config v w has ne =
    let t = (serve lib rounds s).1 in
    get_session_by_ip-only t.active_clients c.client_address config id c
      ((serve-Stays lib rounds).stays s w) has refl
      (λ j d l e.
        distinct_addresses t j id d c (serve-IsServing lib rounds s v) l has e
          (λ n. ne (sym e ∙ n)))
