-- ===== src/TunnelServer/Ending.antt =====
-- src/TunnelServer.cpp: the end of a session and what an acknowledgement leaves behind.
use mqtt_tunnel.TunnelServer.Handshake.{masquerade_command}
use mqtt_tunnel.Base.{
  sym, length, ◌∷◌, drop, ◌++◌, ℕ, ◌≡◌, ◌≢◌, ◌∙◌, ap, refl, Bool, true, false, none, some, [], set,
  get_elem?, get_elem?-set_self, ok, arith, append_assoc,
}
use mqtt_tunnel.Base.Text.{codes, Str}
use mqtt_tunnel.Base.Dict.{lookup, dict_laws}
use mqtt_tunnel.Base.Int.{pos}
use mqtt_tunnel.Base.State.{bind_ok, call, get, modify}
use mqtt_tunnel.Helpers.{c_string}
use mqtt_tunnel.Types.{SessionConfig, is_gateway}
use mqtt_tunnel.IpPool.{IpPool, address, release_ip}
use mqtt_tunnel.IpPool.Release.{release_ip-address}
use mqtt_tunnel.SessionMap.{get_session, remove_session}
use mqtt_tunnel.Messages.{
  from_string, header_from_string, SessionTermination, session_termination_serializable,
  client_ack_serializable,
}
use mqtt_tunnel.Libraries.{Libraries, Moment, ran_command}
use mqtt_tunnel.Libraries.Calls.{log, run_command}
use mqtt_tunnel.TunnelServer.State.{TunnelServer, server_log}
use mqtt_tunnel.TunnelServer.Loop.{
  remove_masquerade_command, remove_masquerade_if, released, release, end_session,
  on_session_termination, dispatch, handle_message,
}
use mqtt_tunnel.TunnelServer.Leases.{held, active_session}
use mqtt_tunnel.TunnelServer.Leases.Frames.{IsServing}

-- After the removal of the rule of a gateway client.
abbrev pub unmasked : Bool → Str → TunnelServer → TunnelServer
unmasked true a s = log (ran_command (c_string (remove_masquerade_command a s.interface_name))) s
unmasked false a s = s

remove_masquerade_if-unmasked :
    (b : Bool) (a : Str) (s : TunnelServer) → remove_masquerade_if b a s ≡ (ok tt, unmasked b a s)
unfolding remove_masquerade_if run_command
remove_masquerade_if-unmasked true a s = refl
remove_masquerade_if-unmasked false a s = refl

unmasked_pool : (b : Bool) (a : Str) (s : TunnelServer) → (unmasked b a s).ip_pool ≡ s.ip_pool
unfolding log
unmasked_pool true a s = refl
unmasked_pool false a s = refl

unmasked_clients :
    (b : Bool) (a : Str) (s : TunnelServer) → (unmasked b a s).active_clients ≡ s.active_clients
unfolding log
unmasked_clients true a s = refl
unmasked_clients false a s = refl

-- The session is gone, and its address is free again.
pub record Frees (s : TunnelServer) (id : Str) (c : SessionConfig) (t : TunnelServer) : Type 0 where
  pub gone : lookup id t.active_clients ≡ none
  pub index : ℕ
  pub its_address : c.client_address ≡ address s.ip_pool index
  pub free_again : get_elem? t.ip_pool.ip_usage index ≡ some false

abbrev pub ended : Str → SessionConfig → IpPool → TunnelServer → TunnelServer
ended id c q s =
    let u = unmasked (is_gateway c.tunnel_mode) c.client_address s in
    record u { active_clients = remove_session u.active_clients id; ip_pool = q }

end_session-ended :
    (s : TunnelServer) (id : Str) (c : SessionConfig) (q : IpPool) (n : ℕ)
    → release_ip s.ip_pool c.client_address ≡ ok (n, q)
    → end_session id (true, c) s ≡ (ok tt, ended id c q s)
unfolding end_session release released
end_session-ended s id c q n e =
    bind_ok (remove_masquerade_if (is_gateway c.tunnel_mode) c.client_address) _
      (remove_masquerade_if-unmasked (is_gateway c.tunnel_mode) c.client_address s)
    ∙ bind_ok (modify _) _ refl
    ∙ rw (unmasked_pool (is_gateway c.tunnel_mode) c.client_address s, e)

pub clients_ended :
    (id : Str) (c : SessionConfig) (q : IpPool) (s : TunnelServer)
    → (ended id c q s).active_clients ≡ remove_session s.active_clients id
clients_ended id c q s =
    ap (λ m. remove_session m id) (unmasked_clients (is_gateway c.tunnel_mode) c.client_address s)

-- A termination message that can be read, for a session whose address the pool takes back.
pub handle_message-ended :
    (lib : Libraries) (at : Moment) (payload : Str) (s : TunnelServer) (term : SessionTermination)
    (c : SessionConfig) (q : IpPool) (n : ℕ)
    → header_from_string lib.cereal payload ≡ ok (record { type = pos 8 })
    → from_string {M = SessionTermination} lib.cereal payload ≡ ok term
    → lookup term.client_id s.active_clients ≡ some c
    → release_ip s.ip_pool c.client_address ≡ ok (n, q)
    → handle_message lib at payload s ≡ (ok tt, ended term.client_id c q s)
unfolding handle_message dispatch on_session_termination get_session
handle_message-ended lib at payload s term c q n header reads there release =
    bind_ok (call _) _ (ap (λ r. (r, s)) header)
    ∙ bind_ok (call _) _ (ap (λ r. (r, s)) reads)
    ∙ bind_ok (get _) _ {t = s} {a = (true, c)} (rw there)
    ∙ end_session-ended s term.client_id c q n release

-- A termination message that can be read, for a session with an address, always succeeds in a server
-- that has the invariant: the session is removed, and its address is free in the pool again.
pub handle_message-Frees :
    (lib : Libraries) (at : Moment) (payload : Str) (s : TunnelServer) (term : SessionTermination)
    (c : SessionConfig)
    → IsServing s
    → header_from_string lib.cereal payload ≡ ok (record { type = pos 8 })
    → from_string {M = SessionTermination} lib.cereal payload ≡ ok term
    → lookup term.client_id s.active_clients ≡ some c
    → c.client_address ≢ []
    → (t : TunnelServer) × (handle_message lib at payload s ≡ (ok tt, t))
      × Frees s term.client_id c t
unfolding remove_session
handle_message-Frees lib at payload s term c v header reads there ne =
    let (i, l, m, e, used) =
      v.taken (active_session term.client_id) c.client_address (ap held there) ne in
    let q = record s.ip_pool { ip_usage = set s.ip_pool.ip_usage i false } in
    let release =
      ap (release_ip s.ip_pool) e ∙ release_ip-address s.ip_pool i v.valid v.dotted l m in
    (
      ended term.client_id c q s,
      handle_message-ended lib at payload s term c q 0 header reads there release,
      record {
        gone = simp (dict_laws);
        index = i;
        its_address = e;
        free_again = get_elem?-set_self s.ip_pool.ip_usage i false (omega (arith, v.valid.sized));
      },
    )

-- What follows "-A" or "-D" in a command of iptables.
abbrev pub rule_of : Str → Str
rule_of command = drop (length (codes "iptables -t nat -A")) command

abbrev second : Str → ℕ
second (c ∷ d ∷ s) = d
second _ = 0

masks_differ : (rest : Str) → codes "/24 -o " ++ rest ≢ codes "/32 -o " ++ rest
masks_differ rest e = omega (arith, ap second e)

append_cancel : (s t u : Str) → s ++ t ≡ s ++ u → t ≡ u
append_cancel [] t u e = e
append_cancel (c ∷ s) t u e = append_cancel s t u (ground arith)

grouped :
    (client mask interface : Str)
    → codes " POSTROUTING -s " ++ client ++ mask ++ interface ++ codes " -j MASQUERADE"
      ≡ codes " POSTROUTING -s " ++ client ++ (mask ++ (interface ++ codes " -j MASQUERADE"))
grouped client mask interface =
    append_assoc (codes " POSTROUTING -s " ++ client ++ mask) interface (codes " -j MASQUERADE")
    ∙ append_assoc (codes " POSTROUTING -s " ++ client) mask (interface ++ codes " -j MASQUERADE")

-- The rule that the end of a session deletes is not the one that its acknowledgement added: the one
-- is for the client's address alone, the other for its net.
pub remove_masquerade_command_ne :
    (client interface : Str)
    → rule_of (remove_masquerade_command client interface)
      ≢ rule_of (masquerade_command client interface)
remove_masquerade_command_ne client interface e = masks_differ _ (
    append_cancel (codes " POSTROUTING -s " ++ client) _ _ (
      sym (grouped client (codes "/24 -o ") interface)
      ∙ e
      ∙ grouped client (codes "/32 -o ") interface))
