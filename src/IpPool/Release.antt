-- ===== src/IpPool/Release.antt =====
-- `IPPool::release_ip`: it undoes an allocation, and where its bound is off by one.
use mqtt_tunnel.Base.{
  inr, inl, ℕ, suc, ◌+◌, ◌-◌, ◌≤◌, ◌<◌, ◌≡◌, ◌≢◌, ◌↔◌, refl, true, false, [], ◌∷◌, ◌++◌, arith,
  Option-cases, >>=-eq-ok, set, length, drop, length-set, get_elem?-set_ne, set-set_back,
  append_assoc, ok, fault,
}
use mqtt_tunnel.Base.Text.{Str, rfind, rfind-append}
use mqtt_tunnel.Base.Int.{ℤ, pos, negsuc}
use mqtt_tunnel.Base.Decimal.{to_string, stoi, stoi-to_string, to_string-Lacks}
use mqtt_tunnel.IpPool.{IpPool, address, free_index, release_octet, release_ip, IsValid, HasDot}
use mqtt_tunnel.IpPool.Allocation.{IsLowest, take_index}

drop-append_dot : (b t : Str) → drop (suc (length b)) (b ++ b'.' ∷ t) ≡ t
drop-append_dot [] t = refl
drop-append_dot (c ∷ b) t = drop-append_dot b t

-- Of an address only the decimal after the last dot counts.
release_ip-dotted :
    (p : IpPool) (b : Str) (n : ℕ)
    → n ≤ 2147483647
    → release_ip p (b ++ b'.' ∷ to_string n) ≡ release_octet p (pos n)
unfolding release_ip
release_ip-dotted p b n h = ground (
  arith,
  rfind-append b'.' b (to_string n) (to_string-Lacks b'.' n (omega arith)),
  drop-append_dot b (to_string n),
  stoi-to_string n h,
)

address_dotted : (p : IpPool) (d : HasDot p) (i : ℕ) → address p i ≡ d.0 ++ b'.' ∷ to_string (i + 1)
address_dotted p (b, e) i = rw e (append_assoc b (b'.' ∷ []) (to_string (i + 1)))

-- Releasing the address of an index of the pool frees that index and no other, and returns 0.
pub release_ip-address :
    (p : IpPool) (i : ℕ)
    → IsValid p
    → HasDot p
    → 1 ≤ i
    → i < p.pool_size
    → release_ip p (address p i) ≡ ok (0, record p { ip_usage = set p.ip_usage i false })
unfolding release_octet free_index
release_ip-address p i v d l m =
    let e : i + 1 - 1 ≡ i = omega arith in
    rw (address_dotted p d i, release_ip-dotted p d.0 (i + 1) (omega (arith, v.small)))
      (ground (arith, v.sized, e))

pub release_ip-take_index :
    (p : IpPool) (i : ℕ)
    → IsValid p
    → HasDot p
    → IsLowest p i
    → release_ip (take_index p i) (address p i) ≡ ok (0, p)
unfolding release_octet free_index
release_ip-take_index p i v d w =
    let e : i + 1 - 1 ≡ i = omega arith in
    rw
      (
        address_dotted p d i,
        release_ip-dotted (take_index p i) d.0 (i + 1) (omega (arith, v.small, w.in_pool)),
      )
      (ground (
        arith,
        v.sized,
        w.in_pool,
        w.above_gateway,
        e,
        length-set p.ip_usage i true,
        set-set_back p.ip_usage i true false w.was_free,
      ))

-- In a well-formed pool, a release of a text that ends in a dot and the decimal of an `int` is
-- undefined behaviour exactly where that octet is `pool_size + 1`: the guard lets it pass, and its
-- index is one past the end of the vector.
pub release_ip-fault_iff :
    (p : IpPool) (b : Str) (n : ℕ)
    → IsValid p
    → n ≤ 2147483647
    → (release_ip p (b ++ b'.' ∷ to_string n) ≡ fault) ↔ (n ≡ p.pool_size + 1)
unfolding release_octet free_index
release_ip-fault_iff p b n v h = rw (release_ip-dotted p b n h) (ground (arith, v.sized))

release_octet-IsValid :
    (p q : IpPool) (z : ℤ) (r : ℕ) → IsValid p → release_octet p z ≡ ok (r, q) → IsValid q
unfolding release_octet free_index
release_octet-IsValid p q (negsuc n) r v e = ground arith
release_octet-IsValid p q (pos n) r v e = ground (
  arith,
  length-set p.ip_usage (n - 1) false,
  λ (h : n - 1 ≢ 0). get_elem?-set_ne p.ip_usage (n - 1) 0 false h,
)

-- A release that returns leaves the pool well formed, whatever the text of the address is.
pub release_ip-IsValid :
    (p q : IpPool) (ip : Str) (r : ℕ) → IsValid p → release_ip p ip ≡ ok (r, q) → IsValid q
unfolding release_ip
release_ip-IsValid p q ip r v e = elim (Option-cases (rfind b'.' ip)) [
  | inl absent ↦ ground (arith, absent)
  | inr (i, found) ↦
      let (z, _, h) =
        >>=-eq-ok (stoi (drop (suc i) ip)) (release_octet p) (rw (found, release_ip) at e) in
      release_octet-IsValid p q z r v h
]
