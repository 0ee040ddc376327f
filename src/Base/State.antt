-- ===== src/Base/State.antt =====
-- The methods of an object: a function from the object to the outcome and the object as the method
-- leaves it, also where it throws.
use mathlib.Core.Path.{ap, ◌≡◌}
use mqtt_tunnel.Base.Outcome.{Exception, Result, ok, throw, fault}

abbrev pub Method : Type 0 → Type 0 → Type 0
Method S A = S → Result A × S

abbrev pub next : {S A B : Type 0} → (A → Method S B) → Result A × S → Result B × S
next f (ok a, s) = f a s
next f (throw e, s) = (throw e, s)
next f (fault, s) = (fault, s)

infixl 5 ◌>>=◌ ◌>>◌
unfoldable pub ◌>>=◌ : {S A B : Type 0} → Method S A → (A → Method S B) → Method S B
◌>>=◌ m f s = next f (m s)

abbrev pub ◌>>◌ : {S A B : Type 0} → Method S A → Method S B → Method S B
◌>>◌ m k = m >>= λ _. k

abbrev pub return : {S A : Type 0} → A → Method S A
return a s = (ok a, s)

-- A call that reads the object, and may throw.
abbrev pub call : {S A : Type 0} → (S → Result A) → Method S A
call f s = (f s, s)

abbrev pub get : {S A : Type 0} → (S → A) → Method S A
get f s = (ok (f s), s)

abbrev pub modify : {S : Type 0} → (S → S) → Method S (Unit {0})
modify f s = (ok tt, f s)

-- After a method that returns, the rest runs on the object that it left.
pub bind_ok :
    {S A B : Type 0} (m : Method S A) (f : A → Method S B) {s t : S} {a : A}
    → m s ≡ (ok a, t)
    → (m >>= f) s ≡ f a t
unfolding ◌>>=◌
bind_ok m f e = ap (next f) e

-- After a method that throws, nothing of the rest runs.
pub bind_throw :
    {S A B : Type 0} (m : Method S A) (f : A → Method S B) {s t : S} {x : Exception}
    → m s ≡ (throw x, t)
    → (m >>= f) s ≡ (throw x, t)
unfolding ◌>>=◌
bind_throw m f e = ap (next f) e
