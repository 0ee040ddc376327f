-- ===== src/TunnelServer/Leases/Frames.antt =====
-- The calls of the server that leave the pool and the two maps of sessions alone.
use mqtt_tunnel.Base.{ℕ, ◌≡◌, refl, ◌∙◌, Result, ok, throw, fault, arith}
use mqtt_tunnel.Base.Text.{Str}
use mqtt_tunnel.Base.Dict.{Dict}
use mqtt_tunnel.Base.State.{get, Method, next, ◌>>=◌, call}
use mqtt_tunnel.Types.{SessionConfig}
use mqtt_tunnel.IpPool.{IpPool}
use mqtt_tunnel.CryptoManager.{CryptoManager}
use mqtt_tunnel.Libraries.{Libraries, Channel}
use mqtt_tunnel.Libraries.Calls.{connect, subscribe, publish, run_command}
use mqtt_tunnel.TunnelServer.State.{TunnelServer, Server, with_crypto, server_log}
use mqtt_tunnel.TunnelServer.Leases.{IsLeased, table}

pub record SameCore (s t : TunnelServer) : Type 0 where
  pub same_pool : t.ip_pool ≡ s.ip_pool
  pub same_active : t.active_clients ≡ s.active_clients
  pub same_handshakes : t.handshake_states ≡ s.handshake_states

abbrev pub core_refl : {s : TunnelServer} → SameCore s s
core_refl = record { same_pool = refl; same_active = refl; same_handshakes = refl }

pub core_trans : {s t u : TunnelServer} → SameCore s t → SameCore t u → SameCore s u
core_trans c d = record {
  same_pool = d.same_pool ∙ c.same_pool;
  same_active = d.same_active ∙ c.same_active;
  same_handshakes = d.same_handshakes ∙ c.same_handshakes;
}

-- The invariant of the server.
abbrev pub IsServing : TunnelServer → Type 0
IsServing s = IsLeased s.ip_pool (table s.active_clients s.handshake_states)

IsLeased-along :
    (p q : IpPool) (a b h k : Dict SessionConfig)
    → q ≡ p
    → b ≡ a
    → k ≡ h
    → IsLeased p (table a h)
    → IsLeased q (table b k)
IsLeased-along p q a b h k e f g v = rw (e, f, g) v

pub IsServing-core : (s t : TunnelServer) → SameCore s t → IsServing s → IsServing t
IsServing-core s t c v =
    IsLeased-along s.ip_pool t.ip_pool s.active_clients t.active_clients s.handshake_states
      t.handshake_states c.same_pool c.same_active c.same_handshakes v

abbrev pub Frame : {A : Type 0} → Server A → Type 0
Frame m = (s : TunnelServer) → SameCore s (m s).1

next-frame :
    {A B : Type 0} (P : TunnelServer → Type 0) (f : A → Server B) (s : TunnelServer)
    (r : Result A × TunnelServer)
    → SameCore s r.1
    → ((t : TunnelServer) → SameCore s t → P t)
    → ((a : A) (t : TunnelServer) → SameCore s t → P (f a t).1)
    → P (next f r).1
next-frame P f s (ok a, t) c stop go = go a t c
next-frame P f s (throw e, t) c stop go = stop t c
next-frame P f s (fault, t) c stop go = stop t c

-- A property after a frame and what follows it: it must hold where the frame stops with an
-- exception, and after the rest.
pub frame_bind :
    {A B : Type 0} (P : TunnelServer → Type 0) (m : Server A) (f : A → Server B) (s : TunnelServer)
    → Frame m
    → ((t : TunnelServer) → SameCore s t → P t)
    → ((a : A) (t : TunnelServer) → SameCore s t → P (f a t).1)
    → P ((m >>= f) s).1
unfolding ◌>>=◌
frame_bind P m f s keeps stop go = next-frame P f s (m s) (keeps s) stop go

-- Frames in sequence are a frame.
pub Frame-bind :
    {A B : Type 0} (m : Server A) (f : A → Server B)
    → Frame m
    → ((a : A) → Frame (f a))
    → Frame (m >>= f)
Frame-bind m f keeps rest s =
    frame_bind (SameCore s) m f s keeps (λ t c. c) (λ a t c. core_trans c (rest a t))

module _ {A B : Type 0} (P : TunnelServer → Type 0) (s : TunnelServer) where
  -- A call that only reads the server either throws, or goes on with a value that it returns.
  pub call_bind :
      (f : TunnelServer → Result A) (k : A → Server B)
      → P s
      → ((a : A) → f s ≡ ok a → P (k a s).1)
      → P ((call f >>= k) s).1
  unfolding ◌>>=◌
  call_bind f k stop go = called (f s) refl
    where
      called : (r : Result A) → f s ≡ r → P (next k (r, s)).1
      called (ok a) e = go a e
      called (throw x) e = stop
      called fault e = stop

  pub get_bind : (g : TunnelServer → A) (k : A → Server B) → P (k (g s) s).1 → P ((get g >>= k) s).1
  unfolding ◌>>=◌
  get_bind g k h = h

Frame-with_crypto : {A : Type 0} (f : Method CryptoManager A) → Frame (with_crypto f)
unfolding with_crypto
Frame-with_crypto f s = record { same_pool = refl; same_active = refl; same_handshakes = refl }

module _ {A B : Type 0} (P : TunnelServer → Type 0) (s : TunnelServer) where
  pub crypto_bind :
      (f : Method CryptoManager A) (k : A → Server B)
      → ((t : TunnelServer) → SameCore s t → P t)
      → ((a : A) (t : TunnelServer) → SameCore s t → P (k a t).1)
      → P ((with_crypto f >>= k) s).1
  crypto_bind f k stop go = frame_bind P (with_crypto f) k s crypto stop go
    where
      crypto : Frame (with_crypto f)
      crypto t = Frame-with_crypto f t

pub Frame-publish :
    (lib : Libraries) (c : Channel) (topic payload : Str) (qos : ℕ)
    → Frame (publish lib c topic payload qos)
unfolding publish
Frame-publish lib c topic payload qos s = ground arith

pub Frame-subscribe :
    (lib : Libraries) (c : Channel) (topic : Str) (qos : ℕ) → Frame (subscribe lib c topic qos)
unfolding subscribe
Frame-subscribe lib c topic qos s = ground arith

pub Frame-connect : (lib : Libraries) (c : Channel) → Frame (connect lib c)
unfolding connect
Frame-connect lib c s = ground arith

pub Frame-run_command : (cmd : Str) → Frame (run_command cmd)
unfolding run_command
Frame-run_command cmd s = record { same_pool = refl; same_active = refl; same_handshakes = refl }
