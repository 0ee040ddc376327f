-- ===== src/IpPool/Counting.antt =====
-- `IPPool::count_allocated`, and how the methods move it.
use mqtt_tunnel.Base.Decimal.{append-to_string_ne}
use mqtt_tunnel.Base.{
  inr, inl, ok, ℕ, zero, suc, ◌+◌, ◌≤◌, ◌<◌, ◌≡◌, ◌↔◌, refl, ap, Bool, true, false, List, [], ◌∷◌,
  some, arith, get_elem?, set, length,
}
use mqtt_tunnel.Base.Text.{Str}
use mqtt_tunnel.IpPool.{
  IpPool, address, allocate_ip, release_ip, count_used, count_allocated, IsValid, HasDot,
}
use mqtt_tunnel.IpPool.Allocation.{allocate_ip-Allocates}
use mqtt_tunnel.IpPool.Release.{release_ip-address}

count_used-set-true :
    (bs : List Bool) (i : ℕ)
    → get_elem? bs i ≡ some false
    → count_used (set bs i true) ≡ suc (count_used bs)
unfolding count_used
count_used-set-true [] i h = ground arith
count_used-set-true (b ∷ bs) zero h = ground arith
count_used-set-true (true ∷ bs) (suc i) h = ap suc (count_used-set-true bs i h)
count_used-set-true (false ∷ bs) (suc i) h = count_used-set-true bs i h

count_used-set-false :
    (bs : List Bool) (i : ℕ)
    → get_elem? bs i ≡ some true
    → suc (count_used (set bs i false)) ≡ count_used bs
unfolding count_used
count_used-set-false [] i h = ground arith
count_used-set-false (b ∷ bs) zero h = ground arith
count_used-set-false (true ∷ bs) (suc i) h = ap suc (count_used-set-false bs i h)
count_used-set-false (false ∷ bs) (suc i) h = count_used-set-false bs i h

count_used-le : (bs : List Bool) → count_used bs ≤ length bs
unfolding count_used
count_used-le [] = omega arith
count_used-le (true ∷ bs) = omega (arith, count_used-le bs)
count_used-le (false ∷ bs) = omega (arith, count_used-le bs)

count_used-lt : (bs : List Bool) (i : ℕ) → get_elem? bs i ≡ some false → count_used bs < length bs
unfolding count_used
count_used-lt [] i h = ground arith
count_used-lt (b ∷ bs) zero h = ground (arith, count_used-le bs)
count_used-lt (true ∷ bs) (suc i) h = omega (arith, count_used-lt bs i h)
count_used-lt (false ∷ bs) (suc i) h = omega (arith, count_used-lt bs i h)

count_used_of_all :
    (bs : List Bool)
    → ((i : ℕ) → i < length bs → get_elem? bs i ≡ some true)
    → count_used bs ≡ length bs
unfolding count_used
count_used_of_all [] h = refl
count_used_of_all (true ∷ bs) h = ap suc (count_used_of_all bs (λ i l. h (suc i) (omega arith)))
count_used_of_all (false ∷ bs) h = ground (arith, h 0)

-- The gateway's index is free, so at most one less than the size is ever allocated.
count_used_full :
    (bs : List Bool)
    → get_elem? bs 0 ≡ some false
    → ((i : ℕ) → 1 ≤ i → i < length bs → get_elem? bs i ≡ some true)
    → suc (count_used bs) ≡ length bs
unfolding count_used
count_used_full [] g h = ground arith
count_used_full (true ∷ bs) g h = ground arith
count_used_full (false ∷ bs) g h =
    ap suc (count_used_of_all bs (λ i l. h (suc i) (omega arith) (omega arith)))

count_used_not_full :
    (bs : List Bool) (i : ℕ)
    → get_elem? bs 0 ≡ some false
    → 1 ≤ i
    → get_elem? bs i ≡ some false
    → suc (count_used bs) < length bs
unfolding count_used
count_used_not_full [] i g l h = ground arith
count_used_not_full (b ∷ bs) zero g l h = elim l [ ]
count_used_not_full (true ∷ bs) (suc i) g l h = ground arith
count_used_not_full (false ∷ bs) (suc i) g l h = omega (arith, count_used-lt bs i h)

-- What an allocation does to the count.
pub record Counts (p : IpPool) (r : Str × IpPool) : Type 0 where
  pub fails_at_capacity : (count_allocated p + 1 ≡ p.pool_size) ↔ (r.0 ≡ [])
  pub adds_one : count_allocated p + 1 < p.pool_size → count_allocated r.1 ≡ count_allocated p + 1

-- In a well-formed pool, `allocate_ip` fails exactly when one address less than the pool's size is
-- allocated, and below that it raises the count by one.
pub allocate_ip-Counts : (p : IpPool) → IsValid p → Counts p (allocate_ip p)
unfolding count_allocated
allocate_ip-Counts p v = elim (allocate_ip-Allocates p v) [
  | inl (full, e) ↦
      let full_count : count_allocated p + 1 ≡ p.pool_size = omega (
        arith,
        v.sized,
        count_used_full p.ip_usage v.gateway_free (λ j l m. full.used j l (omega (arith, v.sized))),
      ) in
      rw e (record {
        fails_at_capacity = (λ _. refl, λ _. full_count);
        adds_one = λ l. absurd (omega arith);
      })
  | inr (i, w, e) ↦
      let below : count_allocated p + 1 < p.pool_size = omega (
        arith,
        v.sized,
        count_used_not_full p.ip_usage i v.gateway_free w.above_gateway w.was_free,
      ) in
      rw e (record {
        fails_at_capacity =
            (λ c. absurd (omega arith), λ n. absurd (append-to_string_ne p.base_ip (i + 1) n));
        adds_one = λ _. omega (arith, count_used-set-true p.ip_usage i w.was_free);
      })
]

-- In a well-formed pool whose base ends in a dot, the release of an address that is allocated
-- lowers the count by one.
pub count_allocated-release_ip :
    (p q : IpPool) (i r : ℕ)
    → IsValid p
    → HasDot p
    → 1 ≤ i
    → i < p.pool_size
    → get_elem? p.ip_usage i ≡ some true
    → release_ip p (address p i) ≡ ok (r, q)
    → count_allocated q + 1 ≡ count_allocated p
unfolding count_allocated
count_allocated-release_ip p q i r v d l m used e =
    ground (arith, release_ip-address p i v d l m, count_used-set-false p.ip_usage i used)
