-- ===== src/SecureHandshake/Release.antt =====
-- The end of a session between src/TunnelClient.cpp and src/TunnelServer.cpp: what `stop_tunnel` of the
-- client does to a server that it did the handshake with encryption with.
use mqtt_tunnel.Base.{
  subst, false, ◌≡◌, ◌≢◌, refl, sym, ap, ◌∙◌, ok, none, [], ◌++◌, if◌then◌else◌, inl, inr, arith,
}
use mqtt_tunnel.Base.Text.{Str, codes, str_eq}
use mqtt_tunnel.Base.Dict.{lookup, insert, lookup-insert, lookup-erase}
use mqtt_tunnel.Base.State.{bind_ok, get, modify}
use mqtt_tunnel.Cereal.{CerealLaws}
use mqtt_tunnel.Types.{SessionConfig}
use mqtt_tunnel.IpPool.{IpPool, allocate_ip, release_ip, IsValid, HasDot}
use mqtt_tunnel.IpPool.Allocation.{allocate_ip-Allocates}
use mqtt_tunnel.IpPool.Release.{release_ip-take_index}
use mqtt_tunnel.SessionMap.{SessionMap, add_session, remove_session}
use mqtt_tunnel.Messages.{to_string, session_termination_serializable}
use mqtt_tunnel.Messages.Laws.{
  a_session_termination, from_string-to_string, header_from_string-text,
}
use mqtt_tunnel.CryptoManager.{FileSystem}
use mqtt_tunnel.Libraries.{Libraries, Moment, command, published, disconnected, data_channel}
use mqtt_tunnel.Libraries.Calls.{log, publish}
use mqtt_tunnel.Logs.{Logged, Logged-last, Logged-before}
use mqtt_tunnel.TunnelServer.State.{TunnelServer}
use mqtt_tunnel.TunnelServer.Handshake.{session_config_for, note_hello}
use mqtt_tunnel.TunnelServer.Loop.{handle_message}
use mqtt_tunnel.TunnelServer.Replies.{Delivers}
use mqtt_tunnel.TunnelServer.Ending.{ended, clients_ended, handle_message-ended}
use mqtt_tunnel.TunnelServer.Leases.Frames.{IsServing}
use mqtt_tunnel.TunnelClient.State.{TunnelClient, client_log}
use mqtt_tunnel.TunnelClient.Session.{Draws, client_hello_for}
use mqtt_tunnel.TunnelClient.Tunnel.{join_thread, termination_message, stop_tunnel}
use mqtt_tunnel.SecureHandshake.{KeyExchange, session_name, session_made, SecureAgreement}

-- An address that the pool handed out goes back to it, and the pool is as it was.
release_ip-allocate_ip :
    (p : IpPool)
    → IsValid p
    → HasDot p
    → (allocate_ip p).0 ≢ []
    → release_ip (allocate_ip p).1 (allocate_ip p).0 ≡ ok (0, p)
release_ip-allocate_ip p v d has = elim (allocate_ip-Allocates p v) [
  | inl (full, e) ↦ absurd (has (ap (λ r. r.0) e))
  | inr (i, lowest, e) ↦ ap (λ r. release_ip r.1 r.0) e ∙ release_ip-take_index p i v d lowest
]

-- After `stop_tunnel`, where the MQTT library delivers.
abbrev stopped : Libraries → TunnelClient → TunnelClient
stopped lib t =
    let joined = join_thread (record t { tunnel_active = false }) in
    log (disconnected data_channel) (
      log
        (published command (joined.command_channel_name ++ codes "_RX")
          (to_string lib.cereal (termination_message joined)) 1)
        joined)

stop_tunnel-stopped :
    (lib : Libraries) (t : TunnelClient)
    → Delivers lib.mqtt
    → stop_tunnel lib t ≡ (ok tt, stopped lib t)
unfolding stop_tunnel publish
stop_tunnel-stopped lib t d =
    let joined = join_thread (record t { tunnel_active = false }) in
    bind_ok (modify (λ s. join_thread (record s { tunnel_active = false }))) _ refl
    ∙ bind_ok (get (λ s. to_string lib.cereal (termination_message s))) _ refl
    ∙ bind_ok
        (λ s.
          publish lib command (s.command_channel_name ++ codes "_RX")
            (to_string lib.cereal (termination_message joined)) 1 s)
        _
        (rw (
          d.publishes command (joined.command_channel_name ++ codes "_RX")
            (to_string lib.cereal (termination_message joined))))

-- The thread ends without a trace in the session.
join_thread-session :
    (t : TunnelClient)
    → ((join_thread t).session_config ≡ t.session_config)
      × ((join_thread t).command_channel_name ≡ t.command_channel_name)
unfolding join_thread log
join_thread-session t = ground arith

Logged-stopped :
    (lib : Libraries) (t : TunnelClient)
    → Logged
        (published command
          (t.command_channel_name ++ codes "_RX")
          (to_string lib.cereal
            (termination_message (join_thread (record t { tunnel_active = false }))))
          1)
        (stopped lib t).effects
unfolding log
Logged-stopped lib t =
    let joined = join_thread (record t { tunnel_active = false }) in
    let text = to_string lib.cereal (termination_message joined) in
    subst (λ n. Logged (published command (n ++ codes "_RX") text 1) (stopped lib t).effects)
      (join_thread-session (record t { tunnel_active = false })).1
      (Logged-before _ (disconnected data_channel) _ (Logged-last _ joined.effects))

lookup-removed :
    (id j : Str) (c : SessionConfig) (m : SessionMap)
    → lookup j (remove_session (add_session m id c) id) ≡ (if str_eq id j then none else lookup j m)
unfolding add_session remove_session
lookup-removed id j c m = ground (arith, lookup-erase id j (insert id c m), lookup-insert id j c m)

-- The client `t` stops: its message ends the session, the pool is as it was before the handshake, and
-- so are the sessions of all other clients.
pub record Released {lib : Libraries} {draws : Draws} {fs : FileSystem} {first : Moment}
    {s : TunnelServer} {c : TunnelClient} (x : KeyExchange lib draws fs first s c)
    {second third : Moment} (a : SecureAgreement x second third) (last : Moment) (t : TunnelClient)
    : Type 0 where
  pub text : Str
  pub client : TunnelClient
  pub server : TunnelServer
  pub stops : stop_tunnel lib t ≡ (ok tt, client)
  pub sent :
      Logged (published command (t.command_channel_name ++ codes "_RX") text 1) client.effects
  pub ends : handle_message lib last text a.server ≡ (ok tt, server)
  pub pool : server.ip_pool ≡ s.ip_pool
  pub sessions :
      (j : Str)
      → lookup j server.active_clients
        ≡ (if str_eq (session_name x) j then none else lookup j s.active_clients)

-- Where the MQTT library delivers and the JSON library reads what it wrote: when a client that has the
-- session of a handshake with encryption stops its tunnel, the server handles its message, and is left
-- with the pool that it had before the handshake, without the session, and with the other sessions as
-- they were. The server keeps its lease invariant, and its pool had an address left.
pub secure_handshake-Released :
    {lib : Libraries} {draws : Draws} {fs : FileSystem} {first second third : Moment}
    {s : TunnelServer} {c : TunnelClient} (x : KeyExchange lib draws fs first s c)
    (a : SecureAgreement x second third) (last : Moment) (t : TunnelClient)
    → CerealLaws lib.cereal
    → Delivers lib.mqtt
    → IsServing s
    → (session_made x second).client_address ≢ []
    → t.session_config ≡ a.client.session_config
    → Released x a last t
unfolding client_hello_for session_config_for note_hello log
secure_handshake-Released {lib} {second} {s} x a last t laws d v has same =
    let joined = join_thread (record t { tunnel_active = false }) in
    let term = termination_message joined in
    let kept = join_thread-session (record t { tunnel_active = false }) in
    let id : term.client_id ≡ session_name x =
      ap (λ u. u.client_id) (kept.0 ∙ same) ∙ sym a.same.client_id in
    let release : release_ip a.server.ip_pool (session_made x second).client_address
        ≡ ok (0, s.ip_pool) =
      ap (λ p. release_ip p (session_made x second).client_address) a.pool
      ∙ release_ip-allocate_ip s.ip_pool v.valid v.dotted has in
    record {
      text = to_string lib.cereal term;
      client = stopped lib t;
      server = ended term.client_id (session_made x second) s.ip_pool a.server;
      stops = stop_tunnel-stopped lib t d;
      sent = Logged-stopped lib t;
      ends =
          handle_message-ended lib last (to_string lib.cereal term) a.server term
            (session_made x second) s.ip_pool 0
            (header_from_string-text lib.cereal (a_session_termination term) laws tt)
            (from_string-to_string lib.cereal (a_session_termination term) laws (tt, tt))
            (ap (λ i. lookup i a.server.active_clients) id ∙ a.active) release;
      pool = refl;
      sessions = λ j.
          ap (lookup j) (
            clients_ended term.client_id (session_made x second) s.ip_pool a.server
            ∙ ap (λ i. remove_session a.server.active_clients i) id
            ∙ ap (λ m. remove_session m (session_name x)) a.clients)
          ∙ lookup-removed (session_name x) j (session_made x second) s.active_clients;
    }
