-- ===== src/TunnelServer/Leases/Steps.antt =====
-- Each message of the handshake, and the end of a session, keeps the invariant, whatever the outcome.
use mqtt_tunnel.Messages.Handshake.{ClientHello}
use mqtt_tunnel.IpPool.{allocate_ip}
use mqtt_tunnel.Base.{
  refl, sym, ◌∙◌, Bool-cases, ◌⊎◌, ap, ◌≡◌, ◌≢◌, inl, inr, Bool, true, false, some, [], arith,
  Option-cases,
}
use mqtt_tunnel.Base.Text.{str_eq, Str, str_eq_iff}
use mqtt_tunnel.Base.Dict.{insert, Dict, lookup, lookup-insert}
use mqtt_tunnel.Base.State.{◌>>=◌}
use mqtt_tunnel.Types.{SessionConfig, SessionState, empty_config}
use mqtt_tunnel.Libraries.{Libraries, Moment}
use mqtt_tunnel.TunnelServer.State.{Server, TunnelServer}
use mqtt_tunnel.TunnelServer.Handshake.{
  allocate, session_config_for, greet, set_handshake, on_client_hello, send, wrapped, wrap_if,
  set_state, note_hello, on_client_hello_crypto,
}
use mqtt_tunnel.TunnelServer.Leases.{Holder, active_session, in_handshake, table}
use mqtt_tunnel.TunnelServer.Leases.Moves.{grant_lease, keep_leases}
use mqtt_tunnel.TunnelServer.Leases.Frames.{
  get_bind, crypto_bind, call_bind, SameCore, core_refl, core_trans, IsServing, IsServing-core,
  Frame, frame_bind, Frame-publish,
}

pub Frame-send : (lib : Libraries) (payload : Str) → Frame (send lib payload)
unfolding send
Frame-send lib payload s = Frame-publish lib _ _ payload 1 s

Frame-wrap_if :
    (lib : Libraries) (at : Moment) (id payload : Str) (b : Bool)
    → Frame (wrap_if lib at id payload b)
unfolding wrap_if
Frame-wrap_if lib at id payload false s = core_refl
Frame-wrap_if lib at id payload true s =
    call_bind (SameCore s) s _ _ core_refl (λ packet e. core_refl)

pub Frame-wrapped :
    (lib : Libraries) (at : Moment) (id payload : Str) → Frame (wrapped lib at id payload)
unfolding wrapped
Frame-wrapped lib at id payload s = Frame-wrap_if lib at id payload s.encryption_enabled s

-- The entry of `set_state` has no address, or that of the entry before.
set_state_address :
    (active handshakes : Dict SessionConfig) (id : Str) (state : SessionState) (h : Holder)
    (a : Str)
    → table active (set_state id state handshakes) h ≡ some a
    → a ≢ []
    → table active handshakes h ≡ some a
unfolding set_state
set_state_address active d id state (active_session k) a e n = e
set_state_address active d id state (in_handshake k) a e n = elim (Option-cases (lookup id d)) [
  | inl none_there ↦ ground (
    arith,
    none_there,
    str_eq_iff id k,
    lookup-insert id k (record empty_config { session_state = state }) d,
  )
  | inr (c, there) ↦
      ground
        (arith, there, str_eq_iff id k, lookup-insert id k (record c { session_state = state }) d)
]

note_hello-IsServing : (id : Str) (s : TunnelServer) → IsServing s → IsServing (note_hello id s)
unfolding note_hello
note_hello-IsServing id s v =
    keep_leases s.ip_pool _ _ (set_state_address s.active_clients s.handshake_states id _) v

module _ (lib : Libraries) (at : Moment) (s : TunnelServer) (v : IsServing s) where
  pub on_client_hello_crypto-IsServing :
      (payload : Str) → IsServing (on_client_hello_crypto lib at payload s).1
  unfolding on_client_hello_crypto
  on_client_hello_crypto-IsServing payload = call_bind IsServing s _ _ v λ hello _.
      crypto_bind IsServing s _ _ kept λ reply t c.
        frame_bind IsServing _ _ t (Frame-send lib _) (λ u d. kept u (core_trans c d))
          λ _ u d. note_hello-IsServing reply.unique_identifier u (kept u (core_trans c d))
    where
      kept : (t : TunnelServer) → SameCore s t → IsServing t
      kept t c = IsServing-core s t c v

allocate_bind :
    {B : Type 0} (P : TunnelServer → Type 0) (k : Str → Server B) (s : TunnelServer)
    → P (k (allocate_ip s.ip_pool).0 (record s { ip_pool = (allocate_ip s.ip_pool).1 })).1
    → P ((allocate >>= k) s).1
unfolding ◌>>=◌ allocate
allocate_bind P k s h = h

allocated-IsServing :
    (s : TunnelServer) → IsServing s → IsServing (record s { ip_pool = (allocate_ip s.ip_pool).1 })
allocated-IsServing s v = grant_lease s.ip_pool _ _ (in_handshake []) (λ h a e n. inr e) v

set_handshake_address :
    (active handshakes : Dict SessionConfig) (id : Str) (c : SessionConfig) (h : Holder) (a : Str)
    → table active (insert id c handshakes) h ≡ some a
    → ((h ≡ in_handshake id) × (a ≡ c.client_address)) ⊎ (table active handshakes h ≡ some a)
set_handshake_address active d id c (active_session k) a e = inr e
set_handshake_address active d id c (in_handshake k) a e = elim (Bool-cases (str_eq id k)) [
  | inl same ↦ inl (
    ap in_handshake (sym ((str_eq_iff id k).0 same)),
    ground (arith, same, lookup-insert id k c d),
  )
  | inr other ↦ inr (ground (arith, other, lookup-insert id k c d))
]

granted-IsServing :
    (s : TunnelServer) (id : Str) (c : SessionConfig)
    → c.client_address ≡ (allocate_ip s.ip_pool).0
    → IsServing s
    → IsServing (set_handshake id c (record s { ip_pool = (allocate_ip s.ip_pool).1 }))
unfolding set_handshake
granted-IsServing s id c same v =
    grant_lease s.ip_pool _ _ (in_handshake id)
      (λ h a e n. elim (set_handshake_address s.active_clients s.handshake_states id c h a e) [
        | inl (here, is) ↦ inl (here, is ∙ same)
        | inr old ↦ inr old
      ])
      v

set_handshake-core :
    (s t : TunnelServer) (id : Str) (c : SessionConfig)
    → SameCore s t
    → SameCore (set_handshake id c s) (set_handshake id c t)
unfolding set_handshake
set_handshake-core s t id c e = record {
  same_pool = e.same_pool;
  same_active = e.same_active;
  same_handshakes = ap (insert id c) e.same_handshakes;
}

greet-IsServing :
    (lib : Libraries) (at : Moment) (hello : ClientHello) (b : Bool) (s : TunnelServer)
    → IsServing s
    → IsServing (greet lib at hello b s).1
unfolding greet session_config_for
greet-IsServing lib at hello false s v = v
greet-IsServing lib at hello true s v = allocate_bind IsServing _ s (
    get_bind IsServing t _ _ (
      frame_bind IsServing _ _ t (Frame-wrapped lib at hello.client_base_id _) kept λ _ u c.
        frame_bind IsServing _ _ u (Frame-send lib _) (λ w d. kept w (core_trans c d))
          λ _ w d.
            IsServing-core _ (set_handshake hello.client_base_id config w)
              (set_handshake-core t w hello.client_base_id config (core_trans c d))
              (granted-IsServing s hello.client_base_id config refl v)))
  where
    t : TunnelServer
    t = record s { ip_pool = (allocate_ip s.ip_pool).1 }

    config : SessionConfig
    config = session_config_for lib at hello (allocate_ip s.ip_pool).0 t

    kept : (u : TunnelServer) → SameCore t u → IsServing u
    kept u c = IsServing-core t u c (allocated-IsServing s v)

pub on_client_hello-IsServing :
    (lib : Libraries) (at : Moment) (payload : Str) (s : TunnelServer)
    → IsServing s
    → IsServing (on_client_hello lib at payload s).1
unfolding on_client_hello
on_client_hello-IsServing lib at payload s v =
    call_bind IsServing s _ _ v
      λ hello _. get_bind IsServing s _ _ (greet-IsServing lib at hello _ s v)
