-- ===== src/Base/Leads.antt =====
-- Conditions before and after a method: one for where it returns, one for where it stops.
use mqtt_tunnel.Base.Outcome.{Result, ok, throw, fault}
use mqtt_tunnel.Base.State.{Method, next, ◌>>=◌, ◌>>◌}

abbrev pub Post : {S A : Type 0} → (S → Type 0) → (S → Type 0) → Result A × S → Type 0
Post Q E (ok a, s) = Q s
Post Q E (throw e, s) = E s
Post Q E (fault, s) = E s

pub record Leads {S A : Type 0} (P Q E : S → Type 0) (m : Method S A) : Type 0 where
  pub leads : (s : S) → P s → Post Q E (m s)

next-Post :
    {S A B : Type 0} {R Q E : S → Type 0} (f : A → Method S B) (r : Result A × S)
    → ((a : A) → Leads R Q E (f a))
    → Post R E r
    → Post Q E (next f r)
next-Post f (ok a, s) k p = (k a).leads s p
next-Post f (throw e, s) k p = p
next-Post f (fault, s) k p = p

module _ {S : Type 0} {P R Q E : S → Type 0} where
  pub bind-Leads :
      {A B : Type 0} {m : Method S A} {f : A → Method S B}
      → Leads P R E m
      → ((a : A) → Leads R Q E (f a))
      → Leads P Q E (m >>= f)
  unfolding ◌>>=◌
  bind-Leads {m} {f} l k = record { leads = λ s p. next-Post f (m s) k (l.leads s p) }

  pub then-Leads :
      {A B : Type 0} {m : Method S A} {n : Method S B}
      → Leads P R E m
      → Leads R Q E n
      → Leads P Q E (m >> n)
  then-Leads l k = bind-Leads l (λ a. k)

-- What holds wherever the method ends.
pub Post-always : {S A : Type 0} (P : S → Type 0) (r : Result A × S) → Post P P r → P r.1
Post-always P (ok a, s) p = p
Post-always P (throw e, s) p = p
Post-always P (fault, s) p = p

pub Post-of :
    {S A : Type 0} {Q E : S → Type 0} (r : Result A × S)
    → Q r.1
    → ((s : S) → Q s → E s)
    → Post Q E r
Post-of (ok a, s) p w = p
Post-of (throw e, s) p w = w s p
Post-of (fault, s) p w = w s p
