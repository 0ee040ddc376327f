-- ===== src/IpPool/Allocation.antt =====
-- `IPPool::allocate_ip`: which address it hands out, and what it changes.
use mqtt_tunnel.Base.{
  ℕ, zero, suc, ◌+◌, ◌≤◌, ◌<◌, ◌≡◌, refl, ap, ◌∙◌, ◌⊎◌, inl, inr, Bool, true, false, List, [], ◌∷◌,
  Option, none, some, arith, get_elem?, set, length, drop, length-set, length-drop,
  get_elem?-set_ne, lt-length_of_get_elem?,
}
use mqtt_tunnel.Base.Text.{Str}
use mqtt_tunnel.IpPool.{IpPool, first_free, allocate_ip, address, IsValid}

-- The two outcomes of the search from index `i` on.
abbrev FindsFree : List Bool → ℕ → Option ℕ → Type 0
FindsFree bs i r =
    ((r ≡ none) × ((k : ℕ) → k < length bs → get_elem? bs k ≡ some true))
    ⊎ ((k : ℕ) × (r ≡ some (i + k))
        × (get_elem? bs k ≡ some false)
        × ((j : ℕ) → j < k → get_elem? bs j ≡ some true))

all_true_cons :
    (bs : List Bool) (n : ℕ)
    → ((k : ℕ) → k < n → get_elem? bs k ≡ some true)
    → (k : ℕ) → k < suc n
    → get_elem? (true ∷ bs) k ≡ some true
all_true_cons bs n h zero l = refl
all_true_cons bs n h (suc k) l = h k (omega arith)

first_free-FindsFree : (bs : List Bool) (i : ℕ) → FindsFree bs i (first_free bs i)
unfolding first_free
first_free-FindsFree [] i = inl (refl, λ k l. elim l [ ])
first_free-FindsFree (false ∷ bs) i = inr (0, ap some (omega arith), refl, λ j l. elim l [ ])
first_free-FindsFree (true ∷ bs) i = elim (first_free-FindsFree bs (suc i)) [
  | inl (e, all) ↦ inl (e, all_true_cons bs (length bs) all)
  | inr (k, e, free, below) ↦ inr (suc k, e ∙ ap some (omega arith), free, all_true_cons bs k below)
]

get_elem?-drop_one : (bs : List Bool) (k : ℕ) → get_elem? (drop 1 bs) k ≡ get_elem? bs (suc k)
get_elem?-drop_one [] k = refl
get_elem?-drop_one (b ∷ bs) k = refl

-- The pool is used up, and nothing changes; or the lowest free index from 1 on is taken.
pub record IsFull (p : IpPool) : Type 0 where
  pub used : (i : ℕ) → 1 ≤ i → i < p.pool_size → get_elem? p.ip_usage i ≡ some true

pub record IsLowest (p : IpPool) (i : ℕ) : Type 0 where
  pub above_gateway : 1 ≤ i
  pub in_pool : i < p.pool_size
  pub was_free : get_elem? p.ip_usage i ≡ some false
  pub lower_used : (j : ℕ) → 1 ≤ j → j < i → get_elem? p.ip_usage j ≡ some true

abbrev pub take_index : IpPool → ℕ → IpPool
take_index p i = record p { ip_usage = set p.ip_usage i true }

abbrev pub Allocates : IpPool → Str × IpPool → Type 0
Allocates p r =
    (IsFull p × (r ≡ ([], p))) ⊎ ((i : ℕ) × IsLowest p i × (r ≡ (address p i, take_index p i)))

lower_index :
    (bs : List Bool) (n : ℕ)
    → ((k : ℕ) → k < n → get_elem? (drop 1 bs) k ≡ some true)
    → (i : ℕ) → 1 ≤ i
    → i < suc n
    → get_elem? bs i ≡ some true
lower_index bs n h zero l m = elim l [ ]
lower_index bs n h (suc i) l m = rw (← get_elem?-drop_one bs i) (h i (omega arith))

-- In a well-formed pool, `allocate_ip` fails, with the empty string and the pool unchanged, exactly
-- where every index from 1 on is taken; otherwise it marks the lowest free one and returns its
-- address.
pub allocate_ip-Allocates : (p : IpPool) → IsValid p → Allocates p (allocate_ip p)
unfolding allocate_ip
allocate_ip-Allocates p v = elim (first_free-FindsFree (drop 1 p.ip_usage) 1) [
  | inl (e, all) ↦ inl (
    record {
      used = λ i l m.
          lower_index p.ip_usage (length (drop 1 p.ip_usage)) all i l
            (omega (arith, v.sized, length-drop 1 p.ip_usage));
    },
    rw (e, allocate_ip),
  )
  | inr (k, e, free, below) ↦ inr (
    suc k,
    record {
      above_gateway = omega arith;
      in_pool = omega (
        arith,
        v.sized,
        length-drop 1 p.ip_usage,
        lt-length_of_get_elem? (drop 1 p.ip_usage) k false free,
      );
      was_free = rw (← get_elem?-drop_one p.ip_usage k) free;
      lower_used = lower_index p.ip_usage k below;
    },
    (let e' : first_free (drop 1 p.ip_usage) 1 ≡ some (suc k) = e ∙ ap some (omega arith) in
        rw (e', allocate_ip)),
  )
]

-- Whether it succeeds or not, the pool stays well formed.
pub allocate_ip-IsValid : (p : IpPool) → IsValid p → IsValid (allocate_ip p).1
allocate_ip-IsValid p v = elim (allocate_ip-Allocates p v) [
  | inl (full, e) ↦ rw e v
  | inr (i, lowest, e) ↦ rw e (record {
    sized = length-set p.ip_usage i true ∙ v.sized;
    pos_size = v.pos_size;
    small = v.small;
    gateway_free =
        get_elem?-set_ne p.ip_usage i 0 true (omega (arith, lowest.above_gateway)) ∙ v.gateway_free;
  })
]
