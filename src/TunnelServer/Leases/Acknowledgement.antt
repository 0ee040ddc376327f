-- ===== src/TunnelServer/Leases/Acknowledgement.antt =====
-- The acknowledgement of a client keeps the invariant: the address moves from the handshake to the
-- session.
use mqtt_tunnel.Base.{
  ◌≡◌, ◌≢◌, ◌⊎◌, inl, inr, refl, sym, ap, Bool, true, false, Option, none, some, [], arith,
  Bool-cases, if◌then◌else◌,
}
use mqtt_tunnel.Base.Text.{Str, str_eq, str_eq_iff, str_eq_refl}
use mqtt_tunnel.Base.Dict.{Dict, lookup, insert, erase, emplace, lookup-insert, lookup-erase}
use mqtt_tunnel.Base.State.{◌>>◌, ◌>>=◌, modify}
use mqtt_tunnel.Types.{is_client_ack, SessionConfig, empty_config, is_gateway}
use mqtt_tunnel.SessionMap.{add_session}
use mqtt_tunnel.Messages.{ClientAck}
use mqtt_tunnel.Libraries.{Libraries, Moment}
use mqtt_tunnel.TunnelServer.State.{TunnelServer}
use mqtt_tunnel.TunnelServer.Handshake.{
  activate, log_established, acknowledge, waiting_for_ack, masquerade_if, masquerade_command,
  route_command, on_client_ack,
}
use mqtt_tunnel.TunnelServer.Leases.{Holder, active_session, in_handshake, table}
use mqtt_tunnel.TunnelServer.Leases.Moves.{move_lease}
use mqtt_tunnel.TunnelServer.Leases.Frames.{
  SameCore, core_refl, core_trans, IsServing, IsServing-core, Frame, frame_bind, call_bind,
  get_bind, Frame-run_command, Frame-subscribe,
}
use mqtt_tunnel.TunnelServer.Leases.Steps.{Frame-send, Frame-wrapped}

-- The handshakes after the acknowledgement: the log line put an empty entry in the place of the old.
pub lookup_established :
    (id k : Str) (d : Dict SessionConfig)
    → lookup k (emplace id empty_config (erase id d))
      ≡ (if str_eq id k then some empty_config else lookup k d)
unfolding emplace
lookup_established id k d = ground (
  arith,
  lookup-erase id id d,
  str_eq_refl id,
  lookup-insert id k empty_config (erase id d),
  lookup-erase id k d,
)

module _ (active d : Dict SessionConfig) (id : Str) (c : SessionConfig)
    (waits : lookup id d ≡ some c) where
  pub established_address :
      (h : Holder) (a : Str)
      → table (insert c.client_id c active) (emplace id empty_config (erase id d)) h ≡ some a
      → a ≢ []
      → ((h ≡ active_session c.client_id) × (table active d (in_handshake id) ≡ some a))
        ⊎ ((h ≢ in_handshake id) × (table active d h ≡ some a))
  established_address (active_session k) a e n = elim (Bool-cases (str_eq c.client_id k)) [
    | inl same ↦ inl (
      ap active_session (sym ((str_eq_iff c.client_id k).0 same)),
      ground (arith, same, waits, lookup-insert c.client_id k c active),
    )
    | inr other ↦ inr (λ x. cc, ground (arith, other, lookup-insert c.client_id k c active))
  ]
  established_address (in_handshake k) a e n = elim (Bool-cases (str_eq id k)) [
    | inl same ↦ absurd (ground (arith, same, lookup_established id k d))
    | inr other ↦ inr (
      λ x. ground (arith, other, str_eq_iff id k),
      ground (arith, other, lookup_established id k d),
    )
  ]

abbrev established : Str → SessionConfig → TunnelServer → TunnelServer
established id c s = log_established id (activate id c s)

established-IsServing :
    (id : Str) (c : SessionConfig) (s : TunnelServer)
    → lookup id s.handshake_states ≡ some c
    → IsServing s
    → IsServing (established id c s)
unfolding log_established activate add_session
established-IsServing id c s waits v =
    move_lease s.ip_pool _ _ (in_handshake id) (active_session c.client_id)
      (established_address s.active_clients s.handshake_states id c waits) v

established-core :
    (s t : TunnelServer) (id : Str) (c : SessionConfig)
    → SameCore s t
    → SameCore (established id c s) (established id c t)
unfolding log_established activate
established-core s t id c e = record {
  same_pool = e.same_pool;
  same_active = ap (λ m. add_session m c.client_id c) e.same_active;
  same_handshakes = ap (λ d. emplace id empty_config (erase id d)) e.same_handshakes;
}

established_tail :
    (s : TunnelServer) (id : Str) (c : SessionConfig)
    → ((modify (activate id c) >> modify (log_established id)) s).1 ≡ established id c s
unfolding ◌>>=◌
established_tail s id c = refl

Frame-masquerade_if : (b : Bool) (address : Str) → Frame (masquerade_if b address)
unfolding masquerade_if
Frame-masquerade_if true address s =
    Frame-run_command (masquerade_command address s.interface_name) s
Frame-masquerade_if false address s = core_refl

acknowledge-IsServing :
    (lib : Libraries) (at : Moment) (ack : ClientAck) (c : SessionConfig) (s : TunnelServer)
    → lookup ack.client_id s.handshake_states ≡ some c
    → IsServing s
    → IsServing (acknowledge lib at ack (some c) s).1
unfolding acknowledge
acknowledge-IsServing lib at ack c s waits v = call_bind IsServing s _ _ v λ _ _.
    frame_bind IsServing _ _ s (Frame-wrapped lib at ack.client_id _) kept λ _ t₁ c₁.
      frame_bind IsServing _ _ t₁ (Frame-send lib _) (later c₁) λ _ t₂ d₂.
        let c₂ = core_trans c₁ d₂ in
        frame_bind IsServing _ _ t₂ (Frame-run_command (route_command c.client_address)) (later c₂)
          λ _ t₃ d₃.
            let c₃ = core_trans c₂ d₃ in
            frame_bind IsServing _ _ t₃ (Frame-masquerade_if (is_gateway c.tunnel_mode) _)
              (later c₃)
              λ _ t₄ d₄.
                let c₄ = core_trans c₃ d₄ in
                frame_bind IsServing _ _ t₄ (Frame-subscribe lib _ _ 1) (later c₄) λ _ t₅ d₅.
                  rw (established_tail t₅ ack.client_id c) (
                    IsServing-core _ (established ack.client_id c t₅)
                      (established-core s t₅ ack.client_id c (core_trans c₄ d₅))
                      (established-IsServing ack.client_id c s waits v))
  where
    kept : (t : TunnelServer) → SameCore s t → IsServing t
    kept t e = IsServing-core s t e v

    later : {t : TunnelServer} → SameCore s t → (u : TunnelServer) → SameCore t u → IsServing u
    later e u f = kept u (core_trans e f)

pub on_client_ack-IsServing :
    (lib : Libraries) (at : Moment) (payload : Str) (s : TunnelServer)
    → IsServing s
    → IsServing (on_client_ack lib at payload s).1
unfolding on_client_ack
on_client_ack-IsServing lib at payload s v =
    call_bind IsServing s _ _ v
      λ ack _. get_bind IsServing s _ _ (guarded ack (lookup ack.client_id s.handshake_states) refl)
  where
    guarded :
        (ack : ClientAck) (o : Option SessionConfig)
        → lookup ack.client_id s.handshake_states ≡ o
        → IsServing (acknowledge lib at ack (waiting_for_ack o) s).1
    guarded ack none e = v
    guarded ack (some c) e = elim (Bool-cases (is_client_ack c.session_state)) [
      | inl waits ↦ rw waits (acknowledge-IsServing lib at ack c s e v)
      | inr other ↦ rw other v
    ]
