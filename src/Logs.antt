-- ===== src/Logs.antt =====
-- What the logs of client and server show of a handshake, and the session that becomes active by it.
use mqtt_tunnel.Base.{
  Bool, true, false, ◌≡◌, refl, ap, ◌∙◌, some, List, [], ◌∷◌, ◌++◌, append_assoc,
}
use mqtt_tunnel.Base.Text.{Str, codes}
use mqtt_tunnel.Base.Dict.{lookup, dict_laws}
use mqtt_tunnel.Types.{SessionConfig, is_gateway}
use mqtt_tunnel.SessionMap.{add_session}
use mqtt_tunnel.Messages.{ClientAck}
use mqtt_tunnel.Libraries.{Effect, published, command, subscribed, data_channel}
use mqtt_tunnel.Libraries.Calls.{log}
use mqtt_tunnel.TunnelServer.State.{TunnelServer, server_log}
use mqtt_tunnel.TunnelServer.Handshake.{activate, log_established}
use mqtt_tunnel.TunnelServer.Replies.{masked, acknowledged_by}

-- The effect is one of the log.
abbrev pub Logged : Effect → List Effect → Type 0
Logged e l = (before : List Effect) × (after : List Effect) × (l ≡ before ++ e ∷ after)

pub Logged-last : (e : Effect) (l : List Effect) → Logged e (l ++ e ∷ [])
Logged-last e l = (l, [], refl)

pub Logged-before : (e x : Effect) (l : List Effect) → Logged e l → Logged e (l ++ x ∷ [])
Logged-before e x l (b, a, q) =
    (b, a ++ x ∷ [], ap (λ l. l ++ x ∷ []) q ∙ append_assoc b (e ∷ a) (x ∷ []))

Logged-masked :
    (e : Effect) (b : Bool) (address : Str) (s : TunnelServer)
    → Logged e s.effects
    → Logged e (masked b address s).effects
unfolding log
Logged-masked e true address s h = Logged-before e _ s.effects h
Logged-masked e false address s h = h

pub Logged-acknowledged_by :
    (text : Str) (ack : ClientAck) (c : SessionConfig) (s : TunnelServer)
    → Logged
        (published command (s.command_channel_name ++ codes "_TX") text 1)
        (acknowledged_by text ack c s).effects
unfolding activate log_established log
Logged-acknowledged_by text ack c s = Logged-before _ _ _ (
    Logged-masked _ (is_gateway c.tunnel_mode) c.client_address _
      (Logged-before _ _ _ (Logged-last _ s.effects)))

pub active_acknowledged_by :
    (text : Str) (ack : ClientAck) (c : SessionConfig) (s : TunnelServer)
    → lookup c.client_id (acknowledged_by text ack c s).active_clients ≡ some c
unfolding activate log_established log add_session
active_acknowledged_by text ack c s = simp (dict_laws)

-- The data client subscribes to the topic that the session's client sends on.
Logged-listens :
    (text : Str) (ack : ClientAck) (c : SessionConfig) (s : TunnelServer)
    → Logged (subscribed data_channel c.topic_outbound 1) (acknowledged_by text ack c s).effects
unfolding activate log_established log
Logged-listens text ack c s = Logged-last _ _

-- What the log leaves alone, the rule of a gateway client leaves alone.
masked_keeps {ℓ} :
    {A : Type ℓ} (f : TunnelServer → A) (b : Bool) (address : Str) (s : TunnelServer)
    → ((e : Effect) → f (log e s) ≡ f s)
    → f (masked b address s) ≡ f s
masked_keeps f true address s keeps = keeps _
masked_keeps f false address s keeps = refl

module _ (text : Str) (ack : ClientAck) (c : SessionConfig) (s : TunnelServer) where
  -- The acknowledgement leaves the keys alone, and whether the server encrypts, and adds one session.
  crypto_acknowledged_by : (acknowledged_by text ack c s).crypto_manager ≡ s.crypto_manager
  unfolding activate log_established log
  crypto_acknowledged_by =
      masked_keeps (λ t. t.crypto_manager) (is_gateway c.tunnel_mode) c.client_address _ (λ e. refl)

  encryption_acknowledged_by :
      (acknowledged_by text ack c s).encryption_enabled ≡ s.encryption_enabled
  unfolding activate log_established log
  encryption_acknowledged_by =
      masked_keeps (λ t. t.encryption_enabled) (is_gateway c.tunnel_mode) c.client_address _
        (λ e. refl)

  clients_acknowledged_by :
      (acknowledged_by text ack c s).active_clients ≡ add_session s.active_clients c.client_id c
  unfolding activate log_established log
  clients_acknowledged_by =
      ap (λ m. add_session m c.client_id c)
        (masked_keeps (λ t. t.active_clients) (is_gateway c.tunnel_mode) c.client_address _
          (λ e. refl))

  pool_acknowledged_by : (acknowledged_by text ack c s).ip_pool ≡ s.ip_pool
  unfolding activate log_established log
  pool_acknowledged_by =
      masked_keeps (λ t. t.ip_pool) (is_gateway c.tunnel_mode) c.client_address _ (λ e. refl)

-- What an acknowledgement makes of the server.
pub record Acknowledged (text : Str) (c : SessionConfig) (s t : TunnelServer) : Type 0 where
  pub sent : Logged (published command (s.command_channel_name ++ codes "_TX") text 1) t.effects
  pub listens : Logged (subscribed data_channel c.topic_outbound 1) t.effects
  pub active : lookup c.client_id t.active_clients ≡ some c
  pub same_crypto : t.crypto_manager ≡ s.crypto_manager
  pub same_encryption : t.encryption_enabled ≡ s.encryption_enabled
  pub same_pool : t.ip_pool ≡ s.ip_pool
  pub clients : t.active_clients ≡ add_session s.active_clients c.client_id c

pub acknowledged_by-Acknowledged :
    (text : Str) (ack : ClientAck) (c : SessionConfig) (s : TunnelServer)
    → Acknowledged text c s (acknowledged_by text ack c s)
acknowledged_by-Acknowledged text ack c s = record {
  sent = Logged-acknowledged_by text ack c s;
  listens = Logged-listens text ack c s;
  active = active_acknowledged_by text ack c s;
  same_crypto = crypto_acknowledged_by text ack c s;
  same_encryption = encryption_acknowledged_by text ack c s;
  same_pool = pool_acknowledged_by text ack c s;
  clients = clients_acknowledged_by text ack c s;
}
