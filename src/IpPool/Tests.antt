-- ===== src/IpPool/Tests.antt =====
-- Runs of the pool on a small net, and the theorems about it applied to them.
use mqtt_tunnel.Base.{
  ◌+◌, ◌≡◌, ◌↔◌, refl, true, false, [], ◌∷◌, ◌++◌, ok, throw, fault, invalid_argument, arith,
}
use mqtt_tunnel.Base.Text.{Str, codes}
use mqtt_tunnel.Base.Int.{pos}
use mqtt_tunnel.Base.Decimal.{to_string, stoi}
use mqtt_tunnel.IpPool.{IpPool, create, allocate_ip, release_ip, address, IsValid, HasDot}
use mqtt_tunnel.IpPool.Construction.{create-HasDot}
use mqtt_tunnel.IpPool.Allocation.{Allocates, allocate_ip-Allocates, allocate_ip-IsValid}
use mqtt_tunnel.IpPool.Release.{release_ip-address, release_ip-fault_iff}
use mqtt_tunnel.IpPool.Counting.{Counts, allocate_ip-Counts}

abbrev net : Str
net = codes "10.0.0.0"

-- The pool after the constructor, and with the first client's address taken.
abbrev fresh_pool : IpPool
fresh_pool = record {
  net_ip = net;
  base_ip = codes "10.0.0.";
  pool_size = 4;
  ip_usage = false ∷ false ∷ false ∷ false ∷ [];
}

abbrev one_taken : IpPool
one_taken = record fresh_pool { ip_usage = false ∷ true ∷ false ∷ false ∷ [] }

abbrev all_taken : IpPool
all_taken = record fresh_pool { ip_usage = false ∷ true ∷ true ∷ true ∷ [] }

one_taken-IsValid : IsValid one_taken
one_taken-IsValid = record {
  sized = refl;
  pos_size = omega arith;
  small = omega arith;
  gateway_free = refl;
}

dotted : HasDot one_taken
dotted = (codes "10.0.0", refl)

create-net : create net (pos 4) ≡ ok fresh_pool
unfolding create
create-net = refl

create_refuses :
    (create [] (pos 4) ≡ throw (invalid_argument (codes "Invalid network IP or pool size")))
    × (create net (pos 254) ≡ throw (invalid_argument (codes "Invalid network IP or pool size")))
unfolding create
create_refuses = (refl, refl)

allocate_first : allocate_ip fresh_pool ≡ (codes "10.0.0.2", one_taken)
unfolding allocate_ip to_string
allocate_first = refl

allocate_none : allocate_ip all_taken ≡ ([], all_taken)
unfolding allocate_ip
allocate_none = refl

release_first : release_ip one_taken (codes "10.0.0.2") ≡ ok (0, fresh_pool)
unfolding release_ip stoi
release_first = refl

release_past_end : release_ip one_taken (codes "10.0.0.5") ≡ fault
unfolding release_ip stoi
release_past_end = refl

create-HasDot_example : fresh_pool.base_ip ≡ codes "10.0.0" ++ b'.' ∷ []
create-HasDot_example =
    create-HasDot (codes "10.0.0") (codes "0") (pos 4) fresh_pool (refl, tt) create-net

allocate_ip-Allocates_example : Allocates one_taken (allocate_ip one_taken)
allocate_ip-Allocates_example = allocate_ip-Allocates one_taken one_taken-IsValid

allocate_ip-IsValid_example : IsValid (allocate_ip one_taken).1
allocate_ip-IsValid_example = allocate_ip-IsValid one_taken one_taken-IsValid

allocate_ip-Counts_example : Counts one_taken (allocate_ip one_taken)
allocate_ip-Counts_example = allocate_ip-Counts one_taken one_taken-IsValid

release_ip-address_example : release_ip one_taken (address one_taken 1) ≡ ok (0, fresh_pool)
release_ip-address_example =
    release_ip-address one_taken 1 one_taken-IsValid dotted (omega arith) (omega arith)

release_ip-fault_iff_example :
    (release_ip one_taken (codes "10.0.0" ++ b'.' ∷ to_string 5) ≡ fault)
    ↔ (5 ≡ one_taken.pool_size + 1)
release_ip-fault_iff_example =
    release_ip-fault_iff one_taken (codes "10.0.0") 5 one_taken-IsValid (omega arith)
