-- ===== src/TunnelServer/Leases/Termination.antt =====
-- The end of a session keeps the invariant: its address goes back to the pool.
use mqtt_tunnel.Base.{
  ◌≡◌, ◌≢◌, refl, ap, ◌∙◌, Bool, true, false, some, arith, Result, ok, throw, fault, ℕ,
}
use mqtt_tunnel.Base.Text.{Str, str_eq_iff}
use mqtt_tunnel.Base.Dict.{Dict, lookup, erase, lookup-erase}
use mqtt_tunnel.Base.State.{◌>>◌, ◌>>=◌, modify}
use mqtt_tunnel.Types.{SessionConfig, empty_config, is_gateway}
use mqtt_tunnel.IpPool.{IpPool, release_ip}
use mqtt_tunnel.SessionMap.{get_session_found, remove_session, get_session}
use mqtt_tunnel.Libraries.{Libraries}
use mqtt_tunnel.TunnelServer.State.{TunnelServer}
use mqtt_tunnel.TunnelServer.Loop.{
  remove_masquerade_command, remove_masquerade_if, release, released, end_session,
  on_session_termination,
}
use mqtt_tunnel.TunnelServer.Leases.{Holder, active_session, in_handshake, table}
use mqtt_tunnel.TunnelServer.Leases.Moves.{keep_leases, end_lease}
use mqtt_tunnel.TunnelServer.Leases.Frames.{
  core_refl, IsServing, IsServing-core, Frame, frame_bind, call_bind, get_bind, Frame-run_command,
}

abbrev without : Str → TunnelServer → TunnelServer
without id s = record s { active_clients = remove_session s.active_clients id }

ended_address :
    (active d : Dict SessionConfig) (id : Str) (h : Holder) (a : Str)
    → table (erase id active) d h ≡ some a
    → (h ≢ active_session id) × (table active d h ≡ some a)
ended_address active d id (in_handshake k) a e = (λ x. cc, e)
ended_address active d id (active_session k) a e = (
  λ x. ground (arith, str_eq_iff id k, lookup-erase id k active),
  ground (arith, lookup-erase id k active),
)

without-IsServing : (s : TunnelServer) (id : Str) → IsServing s → IsServing (without id s)
unfolding remove_session
without-IsServing s id v =
    keep_leases s.ip_pool _ _
      (λ h a e n. (ended_address s.active_clients s.handshake_states id h a e).1) v

released-IsServing :
    (s : TunnelServer) (id : Str) (c : SessionConfig) (r : Result (ℕ × IpPool))
    → lookup id s.active_clients ≡ some c
    → release_ip s.ip_pool c.client_address ≡ r
    → IsServing s
    → IsServing (released (without id s) r).1
unfolding released remove_session
released-IsServing s id c (ok (n, q)) has e v =
    end_lease s.ip_pool q _ _ (active_session id) c.client_address n (ground (arith, has)) e
      (λ h a x m. ended_address s.active_clients s.handshake_states id h a x) v
released-IsServing s id c (throw x) has e v = without-IsServing s id v
released-IsServing s id c fault has e v = without-IsServing s id v

release_tail :
    (s : TunnelServer) (id a : Str)
    → ((modify (without id) >> release a) s) ≡ released (without id s) (release_ip s.ip_pool a)
unfolding ◌>>=◌ release
release_tail s id a = refl

Frame-remove_masquerade_if : (b : Bool) (a : Str) → Frame (remove_masquerade_if b a)
unfolding remove_masquerade_if
Frame-remove_masquerade_if true a s =
    Frame-run_command (remove_masquerade_command a s.interface_name) s
Frame-remove_masquerade_if false a s = core_refl

end_session-IsServing :
    (s : TunnelServer) (id : Str) (c : SessionConfig) (b : Bool)
    → (b ≡ true → lookup id s.active_clients ≡ some c)
    → IsServing s
    → IsServing (end_session id (b, c) s).1
unfolding end_session
end_session-IsServing s id c false has v = v
end_session-IsServing s id c true has v =
    frame_bind IsServing _ _ s (Frame-remove_masquerade_if (is_gateway c.tunnel_mode) _)
      (λ t e. IsServing-core s t e v)
      λ _ t e. rw (release_tail t id c.client_address) (
        released-IsServing t id c _ (ap (lookup id) e.same_active ∙ has refl) refl
          (IsServing-core s t e v))

pub on_session_termination-IsServing :
    (lib : Libraries) (payload : Str) (s : TunnelServer)
    → IsServing s
    → IsServing (on_session_termination lib payload s).1
unfolding on_session_termination
on_session_termination-IsServing lib payload s v = call_bind IsServing s _ _ v λ term _.
    get_bind IsServing s _ _ (
      end_session-IsServing s term.client_id
        (get_session s.active_clients term.client_id empty_config).1
        (get_session s.active_clients term.client_id empty_config).0 (found term.client_id) v)
  where
    found :
        (id : Str)
        → (get_session s.active_clients id empty_config).0 ≡ true
        → lookup id s.active_clients ≡ some (get_session s.active_clients id empty_config).1
    found id = get_session_found s.active_clients id empty_config
