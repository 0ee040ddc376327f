-- ===== src/Helpers.antt =====
-- src/helpers.h: the digest of a text, the text of an address, and the client id in a topic.
-- libsodium and `inet_ntop` are parameters.
pub mod Topic
use mqtt_tunnel.Base.{
  ℕ, suc, ◌+◌, ◌-◌, Bool, true, false, Option, none, some, [], ◌∷◌, ◌==◌, if◌then◌else◌,
}
use mqtt_tunnel.Base.Text.{Str, find, find_from, next_pos, substr}

-- `std::string(char*)`: the bytes up to the first zero.
abbrev pub c_string : Str → Str
c_string [] = []
c_string (c ∷ s) = if c == 0 then [] else c ∷ c_string s

pub record HelperLibrary : Type 0 where
  pub crypto_hash_sha256 : Str → Str
  pub sodium_bin2hex : Str → Str
  pub inet_ntop : ℕ → Str

unfoldable pub get_sha256_string : HelperLibrary → Str → Str
get_sha256_string lib input = c_string (lib.sodium_bin2hex (lib.crypto_hash_sha256 input))

unfoldable pub ip_to_string : HelperLibrary → ℕ → Str
ip_to_string lib ip_addr = c_string (lib.inet_ntop ip_addr)

-- The text between two positions, where both were found.
between : Str → Option ℕ → Option ℕ → Str
between topic (some i) (some j) = substr topic (i + 1) (j - i - 1)
between topic _ _ = []

unfoldable pub extract_client_id_from_topic : Str → Str
unfolding find find_from between
extract_client_id_from_topic topic =
    let first_slash = find b'/' topic in
    between topic first_slash (find_from b'/' topic (next_pos first_slash))
