-- ===== src/Base/Dict/Order.antt =====
-- The keys of a `Dict` stand in increasing order, as in `std::map`, and each stands once.
use mqtt_tunnel.Base.Text.{Str, str_eq, str_lt, str_eq_iff}
use mqtt_tunnel.Base.Dict.{Dict, lookup, insert, erase}
use mathlib.Core.Path.{◌≡◌, refl}
use mathlib.Core.Bool.{true, false}
use mathlib.Core.Option.{some}
use mathlib.Core.List.{[], ◌∷◌}
use native.Mathlib.Omega.{arith}

str_lt_trans : (s t u : Str) → str_lt s t ≡ true → str_lt t u ≡ true → str_lt s u ≡ true
unfolding str_lt
str_lt_trans [] [] u h k = cc
str_lt_trans [] (d ∷ t) [] h k = cc
str_lt_trans [] (d ∷ t) (e ∷ u) h k = refl
str_lt_trans (c ∷ s) [] u h k = cc
str_lt_trans (c ∷ s) (d ∷ t) [] h k = cc
str_lt_trans (c ∷ s) (d ∷ t) (e ∷ u) h k = ground (arith, str_lt_trans s t u)

pub str_lt_irrefl : (s : Str) → str_lt s s ≡ false
unfolding str_lt
str_lt_irrefl [] = refl
str_lt_irrefl (c ∷ s) = ground (arith, str_lt_irrefl s)

pub str_lt_asymm : (s t : Str) → str_lt s t ≡ true → str_lt t s ≡ false
unfolding str_lt
str_lt_asymm [] [] h = refl
str_lt_asymm [] (d ∷ t) h = refl
str_lt_asymm (c ∷ s) [] h = cc
str_lt_asymm (c ∷ s) (d ∷ t) h = ground (arith, str_lt_asymm s t)

str_lt_total : (s t : Str) → str_eq s t ≡ false → str_lt t s ≡ false → str_lt s t ≡ true
unfolding str_lt str_eq
str_lt_total [] [] h k = cc
str_lt_total [] (d ∷ t) h k = refl
str_lt_total (c ∷ s) [] h k = cc
str_lt_total (c ∷ s) (d ∷ t) h k = ground (arith, str_lt_total s t)

module _ {ℓ} {V : Type ℓ} where
  abbrev pub Above : Str → Dict V → Type 0
  Above k [] = Unit
  Above k ((j, v) ∷ m) = (str_lt k j ≡ true) × Above k m

  abbrev pub IsSorted : Dict V → Type 0
  IsSorted [] = Unit
  IsSorted ((j, v) ∷ m) = Above j m × IsSorted m

  Above-trans : (i k : Str) (m : Dict V) → str_lt i k ≡ true → Above k m → Above i m
  Above-trans i k [] h a = tt
  Above-trans i k ((j, v) ∷ m) h a = (str_lt_trans i k j h a.0, Above-trans i k m h a.1)

  Above-insert :
      (i k : Str) (v : V) (m : Dict V) → str_lt i k ≡ true → Above i m → Above i (insert k v m)
  unfolding insert
  Above-insert i k v [] h a = (h, tt)
  Above-insert i k v ((j, w) ∷ m) h a = ground (arith, Above-insert i k v m h a.1)

  pub insert-IsSorted : (k : Str) (v : V) (m : Dict V) → IsSorted m → IsSorted (insert k v m)
  unfolding insert
  insert-IsSorted k v [] s = (tt, tt)
  insert-IsSorted k v ((j, w) ∷ m) s = ground (
    arith,
    str_eq_iff j k,
    insert-IsSorted k v m s.1,
    Above-trans k j m,
    str_lt_total j k,
    Above-insert j k v m,
  )

  Above-erase : (i k : Str) (m : Dict V) → Above i m → Above i (erase k m)
  unfolding erase
  Above-erase i k [] a = tt
  Above-erase i k ((j, w) ∷ m) a = ground (arith, Above-erase i k m a.1)

  pub erase-IsSorted : (k : Str) (m : Dict V) → IsSorted m → IsSorted (erase k m)
  unfolding erase
  erase-IsSorted k [] s = tt
  erase-IsSorted k ((j, w) ∷ m) s = ground (arith, erase-IsSorted k m s.1, Above-erase j k m s.0)

  -- In a sorted map a key above all of the map's is not looked up before them.
  pub lt_of_Above :
      (k j : Str) (v : V) (m : Dict V) → Above k m → lookup j m ≡ some v → str_lt k j ≡ true
  unfolding lookup
  lt_of_Above k j v [] a e = ground arith
  lt_of_Above k j v ((i, w) ∷ m) a e = ground (arith, str_eq_iff i j, lt_of_Above k j v m a.1)
