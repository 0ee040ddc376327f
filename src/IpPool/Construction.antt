-- ===== src/IpPool/Construction.antt =====
-- What the constructor of src/ip_pool.cpp sets up.
use mqtt_tunnel.Base.{
  ℕ, zero, suc, ◌≤◌, ◌≡◌, refl, ap, false, [], ◌∷◌, ◌++◌, arith, replicate, length-replicate,
  get_elem?, ok, some, take, length,
}
use mqtt_tunnel.Base.Text.{Str, Lacks, rfind-append}
use mqtt_tunnel.Base.Int.{ℤ, pos, negsuc}
use mqtt_tunnel.IpPool.{IpPool, create, count_used, count_allocated, IsValid}

count_used-replicate : (n : ℕ) → count_used (replicate n false) ≡ 0
unfolding count_used
count_used-replicate zero = refl
count_used-replicate (suc n) = count_used-replicate n

replicate_first : (n : ℕ) → 1 ≤ n → get_elem? (replicate n false) 0 ≡ some false
replicate_first zero h = elim h [ ]
replicate_first (suc n) h = refl

-- A pool that the constructor returns is well formed, of the size asked for, and has no address
-- allocated.
pub create-IsValid :
    (net_ip : Str) (pool_size : ℤ) (p : IpPool)
    → create net_ip pool_size ≡ ok p
    → IsValid p × (pos p.pool_size ≡ pool_size) × (count_allocated p ≡ 0)
unfolding create count_allocated
create-IsValid net_ip (pos n) p h =
    ground (arith, count_used-replicate n, length-replicate n false, replicate_first n)
create-IsValid net_ip (negsuc n) p h = ground arith

take-append_dot : (pre suf : Str) → take (suc (length pre)) (pre ++ b'.' ∷ suf) ≡ pre ++ b'.' ∷ []
take-append_dot [] suf = refl
take-append_dot (c ∷ pre) suf = ap (◌∷◌ c) (take-append_dot pre suf)

-- The base is the net up to its last dot, the dot included.
pub create-HasDot :
    (pre suf : Str) (pool_size : ℤ) (p : IpPool)
    → Lacks b'.' suf
    → create (pre ++ b'.' ∷ suf) pool_size ≡ ok p
    → p.base_ip ≡ pre ++ b'.' ∷ []
unfolding create
create-HasDot pre suf pool_size p l h =
    ground (arith, rfind-append b'.' pre suf l, take-append_dot pre suf)
