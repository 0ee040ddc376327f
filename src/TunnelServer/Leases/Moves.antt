-- ===== src/TunnelServer/Leases/Moves.antt =====
-- The moves on pool and table that keep the invariant.
use mqtt_tunnel.Base.{
  subst, ℕ, ◌≡◌, ◌≢◌, ◌⊎◌, inl, inr, refl, sym, ap, ◌∙◌, true, false, some, [], ◌∷◌, set,
  get_elem?-set_ne, get_elem?-set_self, arith, ok,
}
use mqtt_tunnel.Base.Text.{Str}
use mqtt_tunnel.IpPool.{IpPool, address, allocate_ip, release_ip, IsValid}
use mqtt_tunnel.IpPool.Allocation.{IsLowest, take_index, allocate_ip-Allocates, allocate_ip-IsValid}
use mqtt_tunnel.IpPool.Release.{release_ip-address, release_ip-IsValid}
use mqtt_tunnel.IpPool.Bounds.{address_injective}
use mqtt_tunnel.TunnelServer.Leases.{Holder, Table, Taken, IsLeased}

-- Nobody holds an address that was not held before.
pub keep_leases :
    (p : IpPool) (t u : Table)
    → ((h : Holder) (a : Str) → u h ≡ some a → a ≢ [] → t h ≡ some a)
    → IsLeased p t
    → IsLeased p u
keep_leases p t u old v = record {
  valid = v.valid;
  dotted = v.dotted;
  taken = λ h a e n. v.taken h a (old h a e n) n;
  unique = λ h k a e f n. v.unique h k a (old h a e n) (old k a f n) n;
}

-- The holder `j` passes its address on to `k`, and holds none.
pub move_lease :
    (p : IpPool) (t u : Table) (j k : Holder)
    → ((h : Holder) (a : Str)
        → u h ≡ some a
        → a ≢ []
        → ((h ≡ k) × (t j ≡ some a)) ⊎ ((h ≢ j) × (t h ≡ some a)))
    → IsLeased p t
    → IsLeased p u
move_lease p t u j k old v = record {
  valid = v.valid;
  dotted = v.dotted;
  taken =
      λ h a e n. elim (old h a e n) [ inl (_, f) ↦ v.taken j a f n | inr (_, f) ↦ v.taken h a f n ];
  unique = λ h i a e f n. elim (old h a e n) [
    | inl (hk, x) ↦ elim (old i a f n) [
      | inl (ik, y) ↦ hk ∙ sym ik
      | inr (ij, y) ↦ absurd (ij (v.unique i j a y x n))
    ]
    | inr (hj, x) ↦ elim (old i a f n) [
      | inl (ik, y) ↦ absurd (hj (v.unique h j a x y n))
      | inr (ij, y) ↦ v.unique h i a x y n
    ]
  ];
}

module _ (p : IpPool) (i : ℕ) (w : IsLowest p i) (valid : IsValid p) where
  Taken-take_index : (a : Str) → Taken p a → Taken (take_index p i) a
  Taken-take_index a (j, l, m, e, used) =
      (j, l, m, e, get_elem?-set_ne p.ip_usage i j true (λ same. ground (arith, w.was_free)) ∙ used)

  Taken-new : Taken (take_index p i) (address p i)
  Taken-new = (
    i,
    w.above_gateway,
    w.in_pool,
    refl,
    get_elem?-set_self p.ip_usage i true (omega (arith, valid.sized, w.in_pool)),
  )

  not_Taken_free : ¬ Taken p (address p i)
  not_Taken_free (j, l, m, e, used) =
      let same : i ≡ j =
        address_injective p i j (omega (arith, valid.small, w.in_pool)) (omega (arith, valid.small))
          e in
      ground (arith, w.was_free)

-- The address that was allocated goes to `k`; the others hold what they held.
pub grant_lease :
    (p : IpPool) (t u : Table) (k : Holder)
    → ((h : Holder) (a : Str)
        → u h ≡ some a
        → a ≢ []
        → ((h ≡ k) × (a ≡ (allocate_ip p).0)) ⊎ (t h ≡ some a))
    → IsLeased p t
    → IsLeased (allocate_ip p).1 u
grant_lease p t u k old v = elim (allocate_ip-Allocates p v.valid) [
  | inl (full, e) ↦ rw e (
      keep_leases p t u
        (λ h a f n. elim (old h a f n) [
          | inl (_, x) ↦ absurd (n (x ∙ ap (λ r. r.0) e))
          | inr x ↦ x
        ])
        v)
  | inr (i, w, e) ↦ rw e (record {
    valid = rw e at (allocate_ip-IsValid p v.valid);
    dotted = v.dotted;
    taken = λ h a f n. elim (old h a f n) [
      | inl (_, x) ↦ rw (x, e) (Taken-new p i w v.valid)
      | inr x ↦ Taken-take_index p i w v.valid a (v.taken h a x n)
    ];
    unique = λ h j a f g n. elim (old h a f n) [
      | inl (hk, x) ↦ elim (old j a g n) [
        | inl (jk, y) ↦ hk ∙ sym jk
        | inr y ↦
            absurd (
              not_Taken_free p i w v.valid
                (subst (Taken p) (x ∙ ap (λ r. r.0) e) (v.taken j a y n)))
      ]
      | inr x ↦ elim (old j a g n) [
        | inl (jk, y) ↦
            absurd (
              not_Taken_free p i w v.valid
                (subst (Taken p) (y ∙ ap (λ r. r.0) e) (v.taken h a x n)))
        | inr y ↦ v.unique h j a x y n
      ]
    ];
  })
]

release_ip_empty : (p : IpPool) → release_ip p [] ≡ ok (1, p)
unfolding release_ip
release_ip_empty p = refl

abbrev free_at : IpPool → ℕ → IpPool
free_at p i = record p { ip_usage = set p.ip_usage i false }

-- The index of another address stays marked.
Taken-free_at : (p : IpPool) (i : ℕ) (b : Str) → b ≢ address p i → Taken p b → Taken (free_at p i) b
Taken-free_at p i b other (j, l, m, e, used) = (
  j,
  l,
  m,
  e,
  get_elem?-set_ne p.ip_usage i j false (λ same. other (e ∙ ap (address p) (sym same))) ∙ used,
)

free_lease :
    (p : IpPool) (t u : Table) (j : Holder) (i : ℕ)
    → t j ≡ some (address p i)
    → ((h : Holder) (b : Str) → u h ≡ some b → b ≢ [] → (h ≢ j) × (t h ≡ some b))
    → IsValid (free_at p i)
    → IsLeased p t
    → IsLeased (free_at p i) u
free_lease p t u j i e old ok_pool v = record {
  valid = ok_pool;
  dotted = v.dotted;
  taken = λ h b g n.
      let (other, x) = old h b g n in
      Taken-free_at p i b (λ same. other (v.unique h j b x (e ∙ ap some (sym same)) n))
        (v.taken h b x n);
  unique = λ h k b f g n. v.unique h k b (old h b f n).1 (old k b g n).1 n;
}

-- The holder `j` gives its address back, and holds none.
pub end_lease :
    (p q : IpPool) (t u : Table) (j : Holder) (a : Str) (r : ℕ)
    → t j ≡ some a
    → release_ip p a ≡ ok (r, q)
    → ((h : Holder) (b : Str) → u h ≡ some b → b ≢ [] → (h ≢ j) × (t h ≡ some b))
    → IsLeased p t
    → IsLeased q u
end_lease p q t u j [] r e f old v =
    let same : q ≡ p = ground (arith, release_ip_empty p) in
    rw same (keep_leases p t u (λ h b g n. (old h b g n).1) v)
end_lease p q t u j (c ∷ a) r e f old v =
    let (i, l, m, here, used) = v.taken j (c ∷ a) e (λ x. cc) in
    let back = rw here at f in
    let same : q ≡ free_at p i = ground (arith, release_ip-address p i v.valid v.dotted l m) in
    let valid = release_ip-IsValid p q (c ∷ a) r v.valid f in
    rw same (free_lease p t u j i (rw (← here) e) old (rw same at valid) v)
