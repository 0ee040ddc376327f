-- ===== src/Helpers/Topic.antt =====
-- Which part of a topic `extract_client_id_from_topic` takes for the client id.
use mqtt_tunnel.Base.{
  some, ◌∙◌, ℕ, suc, ◌+◌, ◌-◌, ◌≡◌, refl, [], ◌∷◌, ◌++◌, arith, length, drop, take-append,
}
use mqtt_tunnel.Base.Text.{find, find_from, Str, Lacks, find-append}
use mqtt_tunnel.Helpers.{between, extract_client_id_from_topic}

drop-append_slash : (s t : Str) → drop (suc (length s)) (s ++ b'/' ∷ t) ≡ t
drop-append_slash [] t = refl
drop-append_slash (c ∷ s) t = drop-append_slash s t

abbrev topic_of : Str → Str → Str → Str
topic_of a b rest = a ++ b'/' ∷ (b ++ b'/' ∷ rest)

find_from_part :
    (a b rest : Str)
    → Lacks b'/' b
    → find_from b'/' (topic_of a b rest) (suc (length a)) ≡ some (suc (length a) + length b)
unfolding find_from
find_from_part a b rest lb = rw (drop-append_slash a (b ++ b'/' ∷ rest), find-append b'/' b rest lb)

between_parts :
    (a b rest : Str)
    → between (topic_of a b rest) (some (length a)) (some (suc (length a) + length b)) ≡ b
unfolding between
between_parts a b rest =
    let w : suc (length a) + length b - length a - 1 ≡ length b = omega arith in
    let s : length a + 1 ≡ suc (length a) = omega arith in
    rw (w, s, drop-append_slash a (b ++ b'/' ∷ rest)) (take-append b (b'/' ∷ rest))

between-find :
    (topic : Str) (i j : ℕ)
    → find b'/' topic ≡ some i
    → find_from b'/' topic (suc i) ≡ some j
    → extract_client_id_from_topic topic ≡ between topic (some i) (some j)
unfolding extract_client_id_from_topic
between-find topic i j h k = rw (h, extract_client_id_from_topic) (rw (k, between))

-- The second of at least three parts of a topic is taken for the client id, provided that the first
-- two parts hold no slash.
pub extract_second_part :
    (a b rest : Str)
    → Lacks b'/' a
    → Lacks b'/' b
    → extract_client_id_from_topic (a ++ b'/' ∷ (b ++ b'/' ∷ rest)) ≡ b
extract_second_part a b rest la lb =
    between-find (topic_of a b rest) (length a) (suc (length a) + length b)
      (find-append b'/' a (b ++ b'/' ∷ rest) la) (find_from_part a b rest lb)
    ∙ between_parts a b rest
