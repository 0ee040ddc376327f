-- ===== src/TunnelServer/Leases/Started.antt =====
-- The server from its construction on: the invariant holds at the start and after every run.
use mqtt_tunnel.Libraries.Calls.{run_command, subscribe, connect, log}
use mqtt_tunnel.Base.{
  ℕ, ◌≡◌, ◌≢◌, refl, Bool, true, false, List, Option, Result, throw, fault, some, [], ◌∷◌, ◌++◌, ok,
  arith, if◌then◌else◌,
}
use mqtt_tunnel.Base.Text.{codes, Str, Lacks}
use mqtt_tunnel.Base.Dict.{Dict, lookup}
use mqtt_tunnel.Base.State.{next, get, ◌>>◌, ◌>>=◌, modify}
use mqtt_tunnel.Types.{SessionConfig}
use mqtt_tunnel.IpPool
use mqtt_tunnel.IpPool.Construction.{create-IsValid, create-HasDot}
use mqtt_tunnel.CryptoManager.{FileSystem}
use mqtt_tunnel.Libraries.{Moment, thread_started, Channel, data_channel, command, Libraries}
use mqtt_tunnel.TunnelServer.State.{TunnelServer, Server, server_log}
use mqtt_tunnel.TunnelServer.Loop.{
  connect_command_channel, connect_data_channel, set_up, serve, run_loop, stop_server, start_server,
  attach_callback,
}
use mqtt_tunnel.TunnelServer.Build.{TunnelServerBuilder, build, to_int}
use mqtt_tunnel.TunnelServer.Leases.{table, Holder, active_session, in_handshake}
use mqtt_tunnel.TunnelServer.Leases.Frames.{
  IsServing-core, frame_bind, frame_bind, IsServing-core, SameCore, core_refl, IsServing, Frame,
  Frame-bind, Frame-connect, Frame-subscribe, Frame-run_command,
}
use mqtt_tunnel.TunnelServer.Leases.Runs.{serve-IsServing, distinct_addresses}

record Built (b : TunnelServerBuilder) (s : TunnelServer) : Type 0 where
  pool : IpPool.create b.ip_pool_base (to_int b.ip_pool_size) ≡ ok s.ip_pool
  no_active : s.active_clients ≡ []
  no_handshake : s.handshake_states ≡ []

build-Built :
    (lib : Libraries) (entropy : ℕ) (fs gs : FileSystem) (b : TunnelServerBuilder)
    (s : TunnelServer)
    → build lib entropy fs b ≡ (ok s, gs)
    → Built b s
unfolding build
build-Built lib entropy fs gs b s e = record {
  pool = ground arith;
  no_active = ground arith;
  no_handshake = ground arith;
}

table-nil_ne :
    (active d : Dict SessionConfig)
    → active ≡ []
    → d ≡ []
    → (h : Holder) (a : Str) → table active d h ≢ some a
unfolding lookup
table-nil_ne active d e f (active_session k) a x = ground arith
table-nil_ne active d e f (in_handshake k) a x = ground arith

-- A server that was built, on a net address with a dot, has the invariant: all its addresses are free.
pub build-IsServing :
    (lib : Libraries) (entropy : ℕ) (fs gs : FileSystem) (b : TunnelServerBuilder)
    (s : TunnelServer) (pre suf : Str)
    → b.ip_pool_base ≡ pre ++ b'.' ∷ suf
    → Lacks b'.' suf
    → build lib entropy fs b ≡ (ok s, gs)
    → IsServing s
build-IsServing lib entropy fs gs b s pre suf base l e = record {
  valid = (create-IsValid b.ip_pool_base (to_int b.ip_pool_size) s.ip_pool built.pool).0;
  dotted =
      (pre, create-HasDot pre suf (to_int b.ip_pool_size) s.ip_pool l (rw (← base) built.pool));
  taken = λ h a x n. absurd (unheld h a x);
  unique = λ h k a x y n. absurd (unheld h a x);
}
  where
    built : Built b s
    built = build-Built lib entropy fs gs b s e

    unheld : (h : Holder) (a : Str) → table s.active_clients s.handshake_states h ≢ some a
    unheld = table-nil_ne s.active_clients s.handshake_states built.no_active built.no_handshake

-- A frame as a record, so that the method can be read off its type.
record IsQuiet (m : Server (Unit {0})) : Type 0 where
  frame : Frame m

then-IsQuiet : {m k : Server (Unit {0})} → IsQuiet m → IsQuiet k → IsQuiet (m >> k)
then-IsQuiet {m} {k} f g = record { frame = Frame-bind m (λ _. k) f.frame (λ _. g.frame) }

modify-IsQuiet :
    (f : TunnelServer → TunnelServer)
    → ((s : TunnelServer) → (f s).ip_pool ≡ s.ip_pool)
    → ((s : TunnelServer) → (f s).active_clients ≡ s.active_clients)
    → ((s : TunnelServer) → (f s).handshake_states ≡ s.handshake_states)
    → IsQuiet (modify f)
modify-IsQuiet f p a h = record {
  frame = λ s. record { same_pool = p s; same_active = a s; same_handshakes = h s };
}

run_command-IsQuiet : (cmd : TunnelServer → Str) → IsQuiet (λ s. run_command (cmd s) s)
run_command-IsQuiet cmd = record { frame = λ s. Frame-run_command (cmd s) s }

connect-IsQuiet : (lib : Libraries) (c : Channel) → IsQuiet (connect lib c)
connect-IsQuiet lib c = record { frame = Frame-connect lib c }

subscribe-IsQuiet :
    (lib : Libraries) (c : Channel) (topic : TunnelServer → Str) (qos : ℕ)
    → IsQuiet (λ s. subscribe lib c (topic s) qos s)
subscribe-IsQuiet lib c topic qos = record { frame = λ s. Frame-subscribe lib c (topic s) qos s }

get-IsQuiet :
    (g : TunnelServer → Str) (k : Str → Server (Unit {0}))
    → ((a : Str) → IsQuiet (k a))
    → IsQuiet (get g >>= k)
get-IsQuiet g k quiet = record {
  frame = Frame-bind (get g) k (λ s. core_refl) (λ a. (quiet a).frame);
}

connect_command_channel-IsQuiet : (lib : Libraries) → IsQuiet (connect_command_channel lib)
unfolding connect_command_channel
connect_command_channel-IsQuiet lib = then-IsQuiet (connect-IsQuiet lib command) (
    get-IsQuiet _ _ λ topic. then-IsQuiet (subscribe-IsQuiet lib command (λ s. topic) 1) (
      modify-IsQuiet (λ s. record s { command_channel_connected = true }) (λ s. refl) (λ s. refl)
        (λ s. refl)))

connect_data_channel-IsQuiet : (lib : Libraries) → IsQuiet (connect_data_channel lib)
unfolding connect_data_channel
connect_data_channel-IsQuiet lib = then-IsQuiet (connect-IsQuiet lib data_channel) (
    modify-IsQuiet (λ s. record s { data_channel_connected = true }) (λ s. refl) (λ s. refl)
      (λ s. refl))

set_up-IsQuiet : (lib : Libraries) → IsQuiet (set_up lib)
unfolding set_up log
set_up-IsQuiet lib =
    then-IsQuiet
      (modify-IsQuiet (λ s. record s { own_ip_address = s.ip_pool.base_ip ++ codes "1" })
        (λ s. refl) (λ s. refl) (λ s. refl))
      (then-IsQuiet (run_command-IsQuiet _) (
        then-IsQuiet (run_command-IsQuiet _) (
          then-IsQuiet (run_command-IsQuiet _) (
            then-IsQuiet (run_command-IsQuiet _) (
              then-IsQuiet (run_command-IsQuiet _) (
                then-IsQuiet (connect_command_channel-IsQuiet lib) (
                  then-IsQuiet (connect_data_channel-IsQuiet lib) (
                    then-IsQuiet
                      (modify-IsQuiet attach_callback (λ s. refl) (λ s. refl) (λ s. refl))
                      (then-IsQuiet
                        (modify-IsQuiet
                          (λ s.
                            log thread_started
                              (record s { tunnel_active = true; thread_running = true }))
                          (λ s. refl) (λ s. refl) (λ s. refl))
                        (run_command-IsQuiet _))))))))))

stop_server-core : (s : TunnelServer) → SameCore s (stop_server s)
unfolding stop_server log
stop_server-core s = ground arith

run_loop-IsServing :
    (lib : Libraries) (rounds : List (Moment × Option Str)) (s : TunnelServer)
    → IsServing s
    → IsServing (run_loop lib rounds s).1
unfolding run_loop
run_loop-IsServing lib rounds s v = by_flag s.global_run_flag
  where
    by_flag : (b : Bool) → IsServing (if b then serve lib rounds s else (fault, s)).1
    by_flag true = serve-IsServing lib rounds s v
    by_flag false = v

stopped :
    (r : Result (Unit {0}) × TunnelServer)
    → IsServing r.1
    → IsServing (next (λ _. modify stop_server) r).1
stopped (ok _, t) v = IsServing-core t (stop_server t) (stop_server-core t) v
stopped (throw e, t) v = v
stopped (fault, t) v = v

-- A server that has the invariant still has it after `start_server`: after the set-up, the messages
-- and the shutdown, and also where one of these throws.
pub start_server-IsServing :
    (lib : Libraries) (rounds : List (Moment × Option Str)) (s : TunnelServer)
    → IsServing s
    → IsServing (start_server lib rounds s).1
unfolding start_server ◌>>=◌
start_server-IsServing lib rounds s v =
    frame_bind IsServing (set_up lib) (λ _. run_loop lib rounds >> modify stop_server) s
      (set_up-IsQuiet lib).frame (λ t c. IsServing-core s t c v)
      λ _ t c.
        stopped (run_loop lib rounds t) (run_loop-IsServing lib rounds t (IsServing-core s t c v))

-- A server that was built on a net address with a dot never gives one address to two sessions:
-- after any run of `start_server` two sessions with one address that is not empty are the same.
pub start_server_distinct_addresses :
    (lib : Libraries) (entropy : ℕ) (fs gs : FileSystem) (b : TunnelServerBuilder)
    (s : TunnelServer) (pre suf : Str) (rounds : List (Moment × Option Str)) (j k : Str)
    (c d : SessionConfig)
    → b.ip_pool_base ≡ pre ++ b'.' ∷ suf
    → Lacks b'.' suf
    → build lib entropy fs b ≡ (ok s, gs)
    → lookup j (start_server lib rounds s).1.active_clients ≡ some c
    → lookup k (start_server lib rounds s).1.active_clients ≡ some d
    → c.client_address ≡ d.client_address
    → c.client_address ≢ []
    → j ≡ k
start_server_distinct_addresses lib entropy fs gs b s pre suf rounds j k c d base l e hj hk same
      ne =
    distinct_addresses (start_server lib rounds s).1 j k c d
      (start_server-IsServing lib rounds s (build-IsServing lib entropy fs gs b s pre suf base l e))
      hj hk same ne
