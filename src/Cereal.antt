-- ===== src/Cereal.antt =====
-- cereal's JSON archives, as src/messages.h uses them: a message is saved as named values, and each
-- is loaded back by its name. The JSON text itself is the library's, a parameter.
pub mod Toy
use mqtt_tunnel.Base.{
  ℕ, ◌^◌, Option, some, List, ◌≡◌, length, take, ltb, leb, if◌then◌else◌, Bool, Result, ok, throw,
  cereal_exception,
}
use mqtt_tunnel.Base.Text.{str_eq, Str}
use mqtt_tunnel.Base.Int.{ℤ, pos, negsuc}
use mqtt_tunnel.Base.Dict.{Dict, lookup}

-- `bytes` is an array of numbers, each a byte.
pub data Value : Type 0 where
  int : ℤ → Value
  bool : Bool → Value
  str : Str → Value
  bytes : List ℕ → Value

abbrev pub Document : Type 0
Document = Dict Value

-- `JSONOutputArchive` and `JSONInputArchive`; `none` is a parse error.
pub record Cereal : Type 0 where
  pub write : Document → Str
  pub parse : Str → Option Document

-- What was written is read back.
pub record CerealLaws (c : Cereal) : Type 0 where
  pub parse-write : (d : Document) → c.parse (c.write d) ≡ some d

-- A value that is missing, of another kind or out of the range of its type is an exception.
to_str : Option Value → Result Str
to_str (some (str s)) = ok s
to_str _ = throw cereal_exception

to_bool : Option Value → Result Bool
to_bool (some (bool b)) = ok b
to_bool _ = throw cereal_exception

to_int : Option Value → Result ℤ
to_int (some (int (pos n))) = if ltb n (2 ^ 31) then ok (pos n) else throw cereal_exception
to_int (some (int (negsuc n))) = if ltb n (2 ^ 31) then ok (negsuc n) else throw cereal_exception
to_int _ = throw cereal_exception

-- An enumeration, whose underlying type is `unsigned int`.
to_enum : Option Value → Result ℕ
to_enum (some (int (pos n))) = if ltb n (2 ^ 32) then ok n else throw cereal_exception
to_enum _ = throw cereal_exception

-- A `std::vector<uint8_t>`, and an array of `n` bytes: it takes the first `n`.
to_vector : Option Value → Result (List ℕ)
to_vector (some (bytes b)) = ok b
to_vector _ = throw cereal_exception

to_array : ℕ → Option Value → Result (List ℕ)
to_array n (some (bytes b)) = if leb n (length b) then ok (take n b) else throw cereal_exception
to_array n _ = throw cereal_exception

module _ (name : Str) (d : Document) where
  unfoldable pub load_str : Result Str
  unfolding lookup str_eq to_str
  load_str = to_str (lookup name d)

  unfoldable pub load_bool : Result Bool
  unfolding lookup str_eq to_bool
  load_bool = to_bool (lookup name d)

  unfoldable pub load_int : Result ℤ
  unfolding lookup str_eq to_int
  load_int = to_int (lookup name d)

  unfoldable pub load_enum : Result ℕ
  unfolding lookup str_eq to_enum
  load_enum = to_enum (lookup name d)

  unfoldable pub load_vector : Result (List ℕ)
  unfolding lookup str_eq to_vector
  load_vector = to_vector (lookup name d)

  unfoldable pub load_array : ℕ → Result (List ℕ)
  unfolding lookup str_eq to_array
  load_array n = to_array n (lookup name d)
