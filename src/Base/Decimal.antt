-- ===== src/Base/Decimal.antt =====
-- `std::to_string` of a number that is not negative, and `std::stoi` in base 10.
use mathlib.Core.Logic.{◌≢◌}
use mqtt_tunnel.Base.Text.{Str, codes, Lacks}
use mqtt_tunnel.Base.Int.{ℤ, pos, negsuc}
use mqtt_tunnel.Base.Tests.{◌==◌, ltb, leb, if◌then◌else◌}
use mqtt_tunnel.Base.Outcome.{Result, ok, throw, invalid_argument, out_of_range}
use Prim.Native.Nat.{ℕ, zero, suc, ◌+◌, ◌-◌, ◌*◌, ◌/◌, ◌%◌, ◌<◌, ◌≤◌}
use mathlib.Core.Path.{◌≡◌, refl, ap, ◌∙◌}
use mathlib.Core.Bool.{Bool, true, false, ◌&&◌, ◌||◌}
use mathlib.Core.List.{[], ◌∷◌, ◌++◌, append_assoc, append-nil}
use native.Mathlib.Omega.{arith}

-- One digit a round; `suc n` rounds are enough, since each round divides by 10.
digits : ℕ → ℕ → Str
digits zero n = []
digits (suc f) n =
    let longer = digits f (n / 10) ++ (48 + n % 10) ∷ [] in
    if ltb n 10 then (48 + n) ∷ [] else longer

unfoldable pub to_string : ℕ → Str
unfolding digits
to_string n = digits (suc n) n

abbrev is_space : ℕ → Bool
is_space c = (leb 9 c && leb c 13) || c == 32

abbrev pub is_digit : ℕ → Bool
is_digit c = leb 48 c && leb c 57

skip_spaces : Str → Str
skip_spaces [] = []
skip_spaces (c ∷ s) = if is_space c then skip_spaces s else c ∷ s

read_digits : ℕ → Str → ℕ
read_digits acc [] = acc
read_digits acc (c ∷ s) = if is_digit c then read_digits (acc * 10 + (c - 48)) s else acc

abbrev negate : ℕ → ℤ
negate zero = pos zero
negate (suc n) = negsuc n

-- `int` has 32 bits.
abbrev int_max : ℕ
int_max = 2147483647

make_int : Bool → ℕ → Result ℤ
make_int true v = if ltb (int_max + 1) v then throw out_of_range else ok (negate v)
make_int false v = if ltb int_max v then throw out_of_range else ok (pos v)

no_conversion : Result ℤ
no_conversion = throw (invalid_argument (codes "stoi"))

read_unsigned : Bool → Str → Result ℤ
unfolding make_int no_conversion
read_unsigned neg [] = no_conversion
read_unsigned neg (c ∷ s) =
    if is_digit c then make_int neg (read_digits 0 (c ∷ s)) else no_conversion

read_signed : Str → Result ℤ
unfolding read_unsigned
read_signed [] = no_conversion
read_signed (c ∷ s) =
    if c == b'-'
    then read_unsigned true s
    else if c == b'+'
    then read_unsigned false s
    else read_unsigned false (c ∷ s)

unfoldable pub stoi : Str → Result ℤ
unfolding skip_spaces read_signed read_digits
stoi s = read_signed (skip_spaces s)

read_digits-digits : (f n : ℕ) (t : Str) → n < f → read_digits 0 (digits f n ++ t) ≡ read_digits n t
unfolding read_digits digits
read_digits-digits zero n t h = elim h [ ]
read_digits-digits (suc f) n t h = ground (
  arith,
  read_digits-digits f (n / 10) ((48 + n % 10) ∷ t),
  append_assoc (digits f (n / 10)) ((48 + n % 10) ∷ []) t,
)

abbrev StartsWithDigit : Str → Type 0
StartsWithDigit [] = ⊥
StartsWithDigit (c ∷ s) = is_digit c ≡ true

StartsWithDigit-append : (s t : Str) → StartsWithDigit s → StartsWithDigit (s ++ t)
StartsWithDigit-append [] t h = elim h [ ]
StartsWithDigit-append (c ∷ s) t h = h

digits-StartsWithDigit : (f n : ℕ) → n < f → StartsWithDigit (digits f n)
unfolding digits
digits-StartsWithDigit zero n h = elim h [ ]
digits-StartsWithDigit (suc f) n h = ground (
  arith,
  digits-StartsWithDigit f (n / 10),
  StartsWithDigit-append (digits f (n / 10)) ((48 + n % 10) ∷ []),
)

stoi_of_digits :
    (s : Str) → StartsWithDigit s → read_digits 0 s ≤ int_max → stoi s ≡ ok (pos (read_digits 0 s))
unfolding stoi
stoi_of_digits [] h k = elim h [ ]
stoi_of_digits (c ∷ s) h k = ground arith

read_digits-digits_all : (n : ℕ) → read_digits 0 (digits (suc n) n) ≡ n
unfolding read_digits
read_digits-digits_all n =
    rw (← append-nil (digits (suc n) n)) (read_digits-digits (suc n) n [] (omega arith))

-- `stoi` reads back what `to_string` wrote.
pub stoi-to_string : (n : ℕ) → n ≤ 2147483647 → stoi (to_string n) ≡ ok (pos n)
unfolding to_string
stoi-to_string n h =
    stoi_of_digits _ (digits-StartsWithDigit (suc n) n (omega arith))
      (omega (arith, read_digits-digits_all n))
    ∙ ap (λ v. ok (pos v)) (read_digits-digits_all n)

Lacks-append : (c : ℕ) (s t : Str) → Lacks c s → Lacks c t → Lacks c (s ++ t)
Lacks-append c [] t h k = k
Lacks-append c (d ∷ s) t h k = (h.0, Lacks-append c s t h.1 k)

-- A decimal holds digits only, so no dot and no slash.
digits-Lacks : (c f n : ℕ) → c < 48 → Lacks c (digits f n)
unfolding digits
digits-Lacks c zero n h = tt
digits-Lacks c (suc f) n h =
    ground
      (arith, Lacks-append c (digits f (n / 10)) ((48 + n % 10) ∷ []) (digits-Lacks c f (n / 10) h))

pub to_string-Lacks : (c n : ℕ) → c < 48 → Lacks c (to_string n)
unfolding to_string
to_string-Lacks c n h = digits-Lacks c (suc n) n h

decimal_tests :
    (to_string 1024 ≡ codes "1024")
    × (stoi (codes " +17x") ≡ ok (pos 17))
    × (stoi (codes "-3") ≡ ok (negsuc 2))
    × (stoi (codes "x") ≡ no_conversion)
    × (stoi (codes "2147483648") ≡ throw out_of_range)
unfolding to_string stoi
decimal_tests = (refl, refl, refl, refl, refl)

ne_of_StartsWithDigit : (s : Str) → StartsWithDigit s → s ≢ []
ne_of_StartsWithDigit [] h e = elim h [ ]
ne_of_StartsWithDigit (c ∷ s) h e = cc

-- A text that ends in a decimal is not empty.
pub append-to_string_ne : (s : Str) (n : ℕ) → s ++ to_string n ≢ []
unfolding to_string
append-to_string_ne [] n e =
    ne_of_StartsWithDigit (to_string n) (digits-StartsWithDigit (suc n) n (omega arith)) e
append-to_string_ne (c ∷ s) n e = cc
