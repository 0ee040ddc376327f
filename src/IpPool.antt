-- ===== src/IpPool.antt =====
-- src/ip_pool.h and src/ip_pool.cpp: the pool of tunnel addresses of a /24 net. The mutex makes each
-- method atomic, so a method is one function on the pool.
pub mod Construction
pub mod Allocation
pub mod Release
pub mod Counting
pub mod Bounds
pub mod Tests
use mqtt_tunnel.Base.{
  ℕ, zero, suc, ◌+◌, ◌-◌, ◌≤◌, ◌≡◌, get_elem?, Bool, true, false, not, ◌||◌, List, [], ◌∷◌, ◌++◌,
  Option, none, some, drop, replicate, set, length, ltb, if◌then◌else◌, Result, ok, throw, fault,
  ◌>>=◌, invalid_argument,
}
use mqtt_tunnel.Base.Text.{Str, codes, empty, ends_with, rfind, substr, next_pos}
use mqtt_tunnel.Base.Int.{ℤ, pos_part, int_gt, int_lt, int_ge}
use mqtt_tunnel.Base.Decimal.{to_string, stoi}

-- `pool_size` is an `int` that the constructor has checked to be positive.
pub record IpPool : Type 0 where
  pub net_ip : Str
  pub base_ip : Str
  pub pool_size : ℕ
  pub ip_usage : List Bool

-- `IPPool::IPPool`
unfoldable pub create : Str → ℤ → Result IpPool
unfolding rfind
create net_ip pool_size =
    if empty net_ip || not (int_gt pool_size 0) || int_gt pool_size 253
    then throw (invalid_argument (codes "Invalid network IP or pool size"))
    else if not (ends_with b'0' net_ip)
    then throw (
        invalid_argument
          (codes "Currently only /24 networks are supported with base IP ending in .0"))
    else ok (record {
      net_ip = net_ip;
      base_ip = substr net_ip 0 (next_pos (rfind b'.' net_ip));
      pool_size = pos_part pool_size;
      ip_usage = replicate (pos_part pool_size) false;
    })

-- The loop of `allocate_ip`: the first free index, from index `i` on.
first_free : List Bool → ℕ → Option ℕ
first_free [] i = none
first_free (true ∷ used) i = first_free used (suc i)
first_free (false ∷ used) i = some i

-- The address of the client at an index.
abbrev pub address : IpPool → ℕ → Str
address p i = p.base_ip ++ to_string (i + 1)

-- `IPPool::allocate_ip`: the empty string when no address is left.
unfoldable pub allocate_ip : IpPool → Str × IpPool
unfolding first_free
allocate_ip p = elim (first_free (drop 1 p.ip_usage) 1) [
  | some i ↦ (address p i, record p { ip_usage = set p.ip_usage i true })
  | none ↦ ([], p)
]

-- `ip_usage_[index] = false`: an index past the end is undefined behaviour.
free_index : IpPool → ℕ → Result (ℕ × IpPool)
free_index p i =
    if ltb i (length p.ip_usage)
    then ok (0, record p { ip_usage = set p.ip_usage i false })
    else fault

-- The rest of `release_ip`, at the last octet.
release_octet : IpPool → ℤ → Result (ℕ × IpPool)
unfolding free_index
release_octet p last_octet =
    if int_lt last_octet 2 || int_ge last_octet (p.pool_size + 2)
    then ok (1, p)
    else free_index p (pos_part last_octet - 1)

-- `IPPool::release_ip`
unfoldable pub release_ip : IpPool → Str → Result (ℕ × IpPool)
unfolding rfind release_octet
release_ip p ip = elim (rfind b'.' ip) [
  | none ↦ ok (1, p)
  | some last_dot ↦ stoi (drop (suc last_dot) ip) >>= release_octet p
]

count_used : List Bool → ℕ
count_used [] = 0
count_used (true ∷ used) = suc (count_used used)
count_used (false ∷ used) = count_used used

-- `IPPool::count_allocated`
unfoldable pub count_allocated : IpPool → ℕ
unfolding count_used
count_allocated p = count_used p.ip_usage

-- What the constructor sets up and the methods keep: the vector has `pool_size` entries, at most
-- 253, and index 0, the gateway's, is never taken.
pub record IsValid (p : IpPool) : Type 0 where
  pub sized : length p.ip_usage ≡ p.pool_size
  pub pos_size : 1 ≤ p.pool_size
  pub small : p.pool_size ≤ 253
  pub gateway_free : get_elem? p.ip_usage 0 ≡ some false

-- The net of the pool was written with a dot, so that the base ends in one.
abbrev pub HasDot : IpPool → Type 0
HasDot p = (b : Str) × (p.base_ip ≡ b ++ b'.' ∷ [])
