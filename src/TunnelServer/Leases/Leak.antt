-- ===== src/TunnelServer/Leases/Leak.antt =====
-- src/TunnelServer.cpp: a client with an active session that says hello again.
use mqtt_tunnel.TunnelServer.Leases.Runs.{handle_message-IsServing}
use mqtt_tunnel.Base.Int.{pos}
use mqtt_tunnel.Base.{
  subst, ◌≡◌, ◌≢◌, inl, inr, ◌∙◌, sym, ap, refl, Bool, true, false, some, [], ◌∷◌, ok, arith,
}
use mqtt_tunnel.Base.Text.{Str, str_eq_refl}
use mqtt_tunnel.Base.Dict.{lookup, insert, erase, emplace, lookup-insert}
use mqtt_tunnel.Base.State.{next}
use mqtt_tunnel.Types.{SessionConfig, empty_config, is_gateway}
use mqtt_tunnel.SessionMap.{add_session}
use mqtt_tunnel.Messages.{
  from_string, header_from_string, ClientHello, ClientAck, client_hello_serializable,
  client_ack_serializable,
}
use mqtt_tunnel.Libraries.{Libraries, Moment}
use mqtt_tunnel.Libraries.Calls.{log}
use mqtt_tunnel.TunnelServer.State.{TunnelServer}
use mqtt_tunnel.TunnelServer.Handshake.{
  set_handshake, activate, log_established, may_greet, session_config_for,
}
use mqtt_tunnel.TunnelServer.Loop.{handle_message, serve}
use mqtt_tunnel.TunnelServer.Plain.{
  handle_message-acknowledged, handle_message-greeted, Delivers, masked, config_of, greeted,
  acknowledged, waiting_greeted,
}
use mqtt_tunnel.TunnelServer.Leases.{Taken, Holder, active_session, in_handshake, table, held}
use mqtt_tunnel.TunnelServer.Leases.Frames.{SameCore, core_refl, IsServing}
use mqtt_tunnel.TunnelServer.Leases.Acknowledgement.{established_address}

masked_core : (b : Bool) (a : Str) (s : TunnelServer) → SameCore s (masked b a s)
unfolding log
masked_core true a s = record { same_pool = refl; same_active = refl; same_handshakes = refl }
masked_core false a s = core_refl

-- Pool and maps after an acknowledgement.
record Acknowledged (ack : ClientAck) (c : SessionConfig) (t u : TunnelServer) : Type 0 where
  pool : u.ip_pool ≡ t.ip_pool
  active : u.active_clients ≡ insert c.client_id c t.active_clients
  handshakes :
      u.handshake_states
      ≡ emplace ack.client_id empty_config (erase ack.client_id t.handshake_states)

acknowledged-Acknowledged :
    (lib : Libraries) (ack : ClientAck) (c : SessionConfig) (t : TunnelServer)
    → Acknowledged ack c t (acknowledged lib ack c t)
unfolding activate log_established log add_session
acknowledged-Acknowledged lib ack c t =
    let core = masked_core (is_gateway c.tunnel_mode) c.client_address _ in
    record {
      pool = core.same_pool;
      active = ap (insert c.client_id c) core.same_active;
      handshakes =
          ap (λ d. emplace ack.client_id empty_config (erase ack.client_id d)) core.same_handshakes;
    }

serve_two :
    (lib : Libraries) (at later : Moment) (p q : Str) (s t u : TunnelServer)
    → handle_message lib at p s ≡ (ok tt, t)
    → handle_message lib later q t ≡ (ok tt, u)
    → serve lib ((at, some p) ∷ (later, some q) ∷ []) s ≡ (ok tt, u)
unfolding serve
serve_two lib at later p q s t u e f =
    ap (next (λ _. serve lib ((later, some q) ∷ []))) e ∙ ap (next (λ _. serve lib [])) f

module _ (t u : TunnelServer) (ack : ClientAck) (c : SessionConfig) (a : Str) (v : IsServing t)
    (waits : lookup ack.client_id t.handshake_states ≡ some c)
    (old : table t.active_clients t.handshake_states (active_session c.client_id) ≡ some a)
    (ne : a ≢ []) (after : Acknowledged ack c t u) where
  not_new : c.client_address ≢ a
  not_new e = differ (
      v.unique (in_handshake ack.client_id) (active_session c.client_id) a
        (ap held waits ∙ ap some e) old ne)
    where
      differ : in_handshake ack.client_id ≢ active_session c.client_id
      differ q = cc

  nobody_holds : (h : Holder) → table u.active_clients u.handshake_states h ≢ some a
  nobody_holds h x =
      elim (established_address t.active_clients t.handshake_states ack.client_id c waits h a
        (moved h x) ne) [
          | inl (_, y) ↦ not_new (ground (arith, ap held waits, y))
          | inr (_, y) ↦
              not_new
                (new_address h (v.unique h (active_session c.client_id) a y old ne) (moved h x))
        ]
    where
      moved :
          (h : Holder)
          → table u.active_clients u.handshake_states h ≡ some a
          → table
              (insert c.client_id c t.active_clients)
              (emplace ack.client_id empty_config (erase ack.client_id t.handshake_states))
              h
            ≡ some a
      moved h x =
          ap
            (λ m.
              table m (emplace ack.client_id empty_config (erase ack.client_id t.handshake_states))
                h)
            (sym after.active)
          ∙ ap (λ d. table u.active_clients d h) (sym after.handshakes)
          ∙ x

      new_address :
          (h : Holder)
          → h ≡ active_session c.client_id
          → table
              (insert c.client_id c t.active_clients)
              (emplace ack.client_id empty_config (erase ack.client_id t.handshake_states))
              h
            ≡ some a
          → c.client_address ≡ a
      new_address h q x = ground (
        arith,
        q,
        x,
        lookup-insert c.client_id c.client_id c t.active_clients,
        str_eq_refl c.client_id,
      )

-- The server after both messages of a handshake.
abbrev pub renewed : Libraries → Moment → ClientHello → ClientAck → TunnelServer → TunnelServer
renewed lib at hello ack s =
    acknowledged lib ack (config_of lib at hello s) (greeted lib at hello s)

module _ (lib : Libraries) (at later : Moment) (d : Delivers lib.mqtt) (p q : Str)
    (hello : ClientHello) (ack : ClientAck) (s : TunnelServer) (old : SessionConfig) where
  -- Without encryption and where the MQTT library delivers: if a client with an active session and
  -- an address says hello again to a server with the lease invariant, at a point where the server
  -- greets it, and acknowledges with the identifier of the reply, then the server serves both
  -- messages without an error, and afterwards the old address is still marked as used in the pool
  -- while no session and no handshake has it.
  pub serve_leaks_address :
      s.encryption_enabled ≡ false
      → IsServing s
      → lookup hello.client_base_id s.active_clients ≡ some old
      → old.client_address ≢ []
      → header_from_string lib.cereal p ≡ ok (record { type = pos 3 })
      → from_string {M = ClientHello} lib.cereal p ≡ ok hello
      → may_greet (lookup hello.client_base_id s.handshake_states) ≡ true
      → header_from_string lib.cereal q ≡ ok (record { type = pos 5 })
      → from_string {M = ClientAck} lib.cereal q ≡ ok ack
      → ack.client_id ≡ hello.client_base_id
      → ack.handshake_identifier ≡ (config_of lib at hello s).handshake_identifier
      → (serve lib ((at, some p) ∷ (later, some q) ∷ []) s ≡ (ok tt, renewed lib at hello ack s))
        × Taken (renewed lib at hello ack s).ip_pool old.client_address
        × ((h : Holder)
            → table
                (renewed lib at hello ack s).active_clients
                (renewed lib at hello ack s).handshake_states
                h
              ≢ some old.client_address)
  unfolding set_handshake log session_config_for
  serve_leaks_address plain v active ne header reads expected header' reads' same_id same =
      let t : TunnelServer = greeted lib at hello s in
      let c : SessionConfig = config_of lib at hello s in
      let first = handle_message-greeted lib at d p hello s plain header reads expected in
      let waits : lookup ack.client_id t.handshake_states ≡ some c =
        ap (λ k. lookup k t.handshake_states) same_id ∙ waiting_greeted lib at hello s in
      let second =
        handle_message-acknowledged lib later d q ack c t plain header' reads' waits refl same in
      let w : IsServing t =
        subst (λ r. IsServing r.1) first (handle_message-IsServing lib at p s v) in
      let holds : table t.active_clients t.handshake_states (active_session hello.client_base_id)
          ≡ some old.client_address =
        ap held active in
      let u : TunnelServer = renewed lib at hello ack s in
      let after = acknowledged-Acknowledged lib ack c t in
      (
        serve_two lib at later p q s t u first second,
        subst (λ m. Taken m old.client_address) (sym after.pool)
            (w.taken (active_session hello.client_base_id) old.client_address holds ne),
        nobody_holds t u ack c old.client_address w waits holds ne after,
      )
