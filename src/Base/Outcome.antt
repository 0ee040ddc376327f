-- ===== src/Base/Outcome.antt =====
-- C++ exceptions as values, a marker for undefined behaviour, and the state-and-exception monad of
-- the methods: a method returns its outcome and the object as it is then, also when it throws.
use mathlib.Core.Path.{◌≡◌, refl}
use mathlib.Core.List.{List}
use Prim.Native.Nat.{ℕ}

-- `what()` is a list of bytes. Third-party exceptions carry no text. `process_exit` is a call of
-- `exit` with its code: no handler of the program that it passes catches it.
pub data Exception : Type 0 where
  runtime_error invalid_argument : List ℕ → Exception
  out_of_range length_error : Exception
  cereal_exception mqtt_exception : Exception
  process_exit : ℕ → Exception

-- `fault` is undefined behaviour: no handler catches it.
pub data Result {ℓ} (A : Type ℓ) : Type ℓ where
  fault : Result A
  throw : Exception → Result A
  ok : A → Result A

module _ {ℓ κ} {A : Type ℓ} {B : Type κ} where
  infixl 5 ◌>>=◌
  abbrev pub ◌>>=◌ : Result A → (A → Result B) → Result B
  fault >>= rest = fault
  throw x >>= rest = throw x
  ok a >>= rest = rest a

  -- What a chain that succeeds went through.
  pub >>=-eq-ok :
      (first : Result A) (rest : A → Result B) {b : B}
      → (first >>= rest) ≡ ok b
      → (a : A) × (first ≡ ok a) × (rest a ≡ ok b)
  >>=-eq-ok fault rest h = cc
  >>=-eq-ok (throw x) rest h = cc
  >>=-eq-ok (ok a) rest h = (a, refl, h)
