-- ===== src/TunnelServer/Leases.antt =====
-- Which address of the pool each session and each handshake holds, as a table, and the invariant of
-- pool and table: what is held is marked in the pool, and nothing is held twice.
pub mod Moves
pub mod Frames
pub mod Steps
pub mod Acknowledgement
pub mod Termination
pub mod Runs
pub mod Started
pub mod Leak
use mqtt_tunnel.Base.{ℕ, ◌≤◌, ◌<◌, ◌≡◌, ◌≢◌, Bool, true, Option, none, some, [], get_elem?}
use mqtt_tunnel.Base.Text.{Str}
use mqtt_tunnel.Base.Dict.{Dict, lookup}
use mqtt_tunnel.Types.{SessionConfig}
use mqtt_tunnel.IpPool.{IpPool, address, IsValid, HasDot}

-- A client id in `active_clients_`, or one in `handshake_states_`.
pub data Holder : Type 0 where
  active_session in_handshake : Str → Holder

abbrev pub Table : Type 0
Table = Holder → Option Str

abbrev pub held : Option SessionConfig → Option Str
held none = none
held (some c) = some c.client_address

abbrev pub table : Dict SessionConfig → Dict SessionConfig → Table
table active handshakes (active_session k) = held (lookup k active)
table active handshakes (in_handshake k) = held (lookup k handshakes)

-- The address is one of the pool's, and marked as used.
abbrev pub Taken : IpPool → Str → Type 0
Taken p a =
    (i : ℕ) × (1 ≤ i) × (i < p.pool_size) × (a ≡ address p i) × (get_elem? p.ip_usage i ≡ some true)

-- An empty address is that of a session for which the pool had none left.
pub record IsLeased (p : IpPool) (t : Table) : Type 0 where
  pub valid : IsValid p
  pub dotted : HasDot p
  pub taken : (h : Holder) (a : Str) → t h ≡ some a → a ≢ [] → Taken p a
  pub unique : (h k : Holder) (a : Str) → t h ≡ some a → t k ≡ some a → a ≢ [] → h ≡ k
