-- ===== src/Cereal/Toy.antt =====
-- A length-prefixed format that meets `CerealLaws`, for the examples.
use mqtt_tunnel.Base.{
  ℕ, zero, suc, Option, none, some, [], ◌∷◌, ◌++◌, ◌≡◌, refl, length, take, drop, true, false,
  arith, take-append, drop-append,
}
use mqtt_tunnel.Base.Text.{Str}
use mqtt_tunnel.Base.Int.{pos, negsuc}
use mqtt_tunnel.Cereal.{Value, int, bool, str, bytes, Document, Cereal, CerealLaws}

-- A tag, a number or a length, and then as many bytes as the length says.
write_value : Value → Str → Str
write_value (int (pos n)) r = 0 ∷ n ∷ r
write_value (int (negsuc n)) r = 1 ∷ n ∷ r
write_value (bool true) r = 2 ∷ 0 ∷ r
write_value (bool false) r = 3 ∷ 0 ∷ r
write_value (str s) r = 4 ∷ length s ∷ (s ++ r)
write_value (bytes b) r = 5 ∷ length b ∷ (b ++ r)

write_entries : Document → Str
write_entries [] = []
write_entries ((k, v) ∷ d) = length k ∷ (k ++ write_value v (write_entries d))

write : Document → Str
unfolding write_entries write_value
write d = length d ∷ write_entries d

parse_value : Str → Option (Value × Str)
parse_value (zero ∷ n ∷ r) = some (int (pos n), r)
parse_value (suc zero ∷ n ∷ r) = some (int (negsuc n), r)
parse_value (suc (suc zero) ∷ n ∷ r) = some (bool true, r)
parse_value (suc (suc (suc zero)) ∷ n ∷ r) = some (bool false, r)
parse_value (suc (suc (suc (suc zero))) ∷ n ∷ r) = some (str (take n r), drop n r)
parse_value (suc (suc (suc (suc (suc t)))) ∷ n ∷ r) = some (bytes (take n r), drop n r)
parse_value _ = none

add_entry : Str → Value → Option Document → Option Document
add_entry k v none = none
add_entry k v (some d) = some ((k, v) ∷ d)

parse_entries : ℕ → Str → Option Document
parse_entries zero r = some []
parse_entries (suc f) [] = none
parse_entries (suc f) (n ∷ r) = elim (parse_value (drop n r)) [
  | none ↦ none
  | some (v, rest) ↦ add_entry (take n r) v (parse_entries f rest)
]

parse : Str → Option Document
unfolding parse_entries parse_value add_entry
parse [] = none
parse (n ∷ r) = parse_entries n r

parse_value-write_value : (v : Value) (r : Str) → parse_value (write_value v r) ≡ some (v, r)
unfolding parse_value write_value
parse_value-write_value (int (pos n)) r = refl
parse_value-write_value (int (negsuc n)) r = refl
parse_value-write_value (bool true) r = refl
parse_value-write_value (bool false) r = refl
parse_value-write_value (str s) r = rw (take-append s r, drop-append s r)
parse_value-write_value (bytes s) r = rw (take-append s r, drop-append s r)

parse_entries-write_entries : (d : Document) → parse_entries (length d) (write_entries d) ≡ some d
unfolding parse_entries write_entries add_entry
parse_entries-write_entries [] = refl
parse_entries-write_entries ((k, v) ∷ d) = ground (
  arith,
  take-append k (write_value v (write_entries d)),
  drop-append k (write_value v (write_entries d)),
  parse_value-write_value v (write_entries d),
  parse_entries-write_entries d,
)

parse-write : (d : Document) → parse (write d) ≡ some d
unfolding parse write
parse-write d = parse_entries-write_entries d

unfoldable pub toy : Cereal
unfolding write parse
toy = record { write = write; parse = parse }

pub toy_laws : CerealLaws toy
unfolding toy
toy_laws = record { parse-write = parse-write }
