-- ===== src/Base/Text.antt =====
-- `std::string` as a list of bytes, with `find`, `rfind`, `substr` and the comparisons.
use Prim.Native.Char.{code}
use Prim.Native.String.{String}
use Prim.Native.Nat.{ℕ, suc, ◌+◌}
use mathlib.Core.Path.{◌≡◌, refl}
use mathlib.Core.Logic.{◌↔◌}
use mathlib.Core.Bool.{Bool, true, false, ◌&&◌}
use mathlib.Core.Option
use mathlib.Core.Option.{Option, none, some}
use mathlib.Core.List.{List, [], ◌∷◌, ◌++◌}
use native.Mathlib.Omega.{arith}
use mqtt_tunnel.Base.Tests.{◌==◌, ltb, if◌then◌else◌}
use mqtt_tunnel.Base.Lists.{length, take, drop}

abbrev pub Str : Type 0
Str = List ℕ

-- The bytes of an ASCII literal.
abbrev pub codes : String → Str
codes String.[] = []
codes (String.◌∷◌ c s) = code c ∷ codes s

abbrev pub empty : Str → Bool
empty [] = true
empty (c ∷ s) = false

unfoldable pub str_eq : Str → Str → Bool
str_eq [] [] = true
str_eq [] (d ∷ t) = false
str_eq (c ∷ s) [] = false
str_eq (c ∷ s) (d ∷ t) = (c == d) && str_eq s t

pub str_eq_refl : (s : Str) → str_eq s s ≡ true
unfolding str_eq
str_eq_refl [] = refl
str_eq_refl (c ∷ s) = ground (arith, str_eq_refl s)

pub str_eq→eq : (s t : Str) → str_eq s t ≡ true → s ≡ t
unfolding str_eq
str_eq→eq [] [] h = refl
str_eq→eq [] (d ∷ t) h = cc
str_eq→eq (c ∷ s) [] h = cc
str_eq→eq (c ∷ s) (d ∷ t) h = ground (arith, str_eq→eq s t)

pub str_eq_iff : (s t : Str) → (str_eq s t ≡ true) ↔ (s ≡ t)
str_eq_iff s t = (str_eq→eq s t, λ e. rw e (str_eq_refl t))

-- `operator<`: lexicographic on the bytes.
unfoldable pub str_lt : Str → Str → Bool
str_lt [] [] = false
str_lt [] (d ∷ t) = true
str_lt (c ∷ s) [] = false
str_lt (c ∷ s) (d ∷ t) = if c == d then str_lt s t else ltb c d

-- `find(c)` and `rfind(c)`; `none` is `npos`.
unfoldable pub find : ℕ → Str → Option ℕ
find c [] = none
find c (d ∷ s) = if d == c then some 0 else Option.map suc (find c s)

unfoldable pub rfind : ℕ → Str → Option ℕ
rfind c [] = none
rfind c (d ∷ s) = elim (rfind c s) [
  | some i ↦ some (suc i)
  | none ↦ if d == c then some 0 else none
]

-- `find(c, pos)`.
unfoldable pub find_from : ℕ → Str → ℕ → Option ℕ
unfolding find
find_from c s pos = Option.map (λ i. pos + i) (find c (drop pos s))

-- `p + 1` for a position that may be `npos`: `npos + 1` wraps to 0.
abbrev pub next_pos : Option ℕ → ℕ
next_pos none = 0
next_pos (some i) = suc i

abbrev pub substr : Str → ℕ → ℕ → Str
substr s pos n = take n (drop pos s)

abbrev pub ends_with : ℕ → Str → Bool
ends_with c [] = false
ends_with c (d ∷ []) = d == c
ends_with c (d ∷ e ∷ s) = ends_with c (e ∷ s)

-- No byte of the text is `c`.
abbrev pub Lacks : ℕ → Str → Type 0
Lacks c [] = Unit
Lacks c (d ∷ s) = ((d == c) ≡ false) × Lacks c s

pub rfind_of_Lacks : (c : ℕ) (s : Str) → Lacks c s → rfind c s ≡ none
unfolding rfind
rfind_of_Lacks c [] h = refl
rfind_of_Lacks c (d ∷ s) h = rw (rfind_of_Lacks c s h.1, h.0)

-- The last `c` of `s c t`, where `t` has none, is the one after `s`.
pub rfind-append : (c : ℕ) (s t : Str) → Lacks c t → rfind c (s ++ c ∷ t) ≡ some (length s)
unfolding rfind
rfind-append c [] t h = rw (rfind_of_Lacks c t h) (ground arith)
rfind-append c (d ∷ s) t h = rw (rfind-append c s t h)

pub find-append : (c : ℕ) (s t : Str) → Lacks c s → find c (s ++ c ∷ t) ≡ some (length s)
unfolding find
find-append c [] t h = ground arith
find-append c (d ∷ s) t h = rw (find-append c s t h.1, h.0)
