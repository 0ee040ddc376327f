-- ===== src/SessionMap/Search.antt =====
-- `SessionMap::get_session_by_ip`: what it finds, and which of several.
use mqtt_tunnel.Base.{
  ap, ◌∙◌, sym, Bool, true, false, some, [], ◌∷◌, ◌≡◌, ◌≢◌, ◌⊎◌, inl, inr, refl, arith, Bool-cases,
}
use mqtt_tunnel.Base.Text.{Str, str_eq, str_lt, str_eq_iff}
use mqtt_tunnel.Base.Dict.{lookup}
use mqtt_tunnel.Base.Dict.Order.{IsSorted, lt_of_Above, str_lt_irrefl, str_lt_asymm}
use mqtt_tunnel.Types.{SessionConfig}
use mqtt_tunnel.SessionMap.{SessionMap, get_session_by_ip}

-- Nobody has the address, or the session with the least client id among those that have it.
abbrev pub FindsFirst : SessionMap → Str → SessionConfig → Bool × SessionConfig → Type 0
FindsFirst m ip config r =
    ((r ≡ (false, config))
      × ((k : Str) (c : SessionConfig) → lookup k m ≡ some c → c.client_address ≢ ip))
    ⊎ ((k : Str) × (c : SessionConfig) × (r ≡ (true, c))
        × (lookup k m ≡ some c)
        × (c.client_address ≡ ip)
        × ((j : Str) (d : SessionConfig)
            → lookup j m ≡ some d
            → d.client_address ≡ ip
            → str_lt j k ≡ false))

-- In a map in the order of its keys, the search finds a session exactly when one has the address,
-- and then it is the one with the least client id.
pub get_session_by_ip-FindsFirst :
    (m : SessionMap) (ip : Str) (config : SessionConfig)
    → IsSorted m
    → FindsFirst m ip config (get_session_by_ip m ip config)
unfolding get_session_by_ip lookup
get_session_by_ip-FindsFirst [] ip config s = inl (refl, λ k c e. ground arith)
get_session_by_ip-FindsFirst ((k, c) ∷ m) ip config s =
    elim (Bool-cases (str_eq c.client_address ip)) [
      | inl same ↦ inr (
        k,
        c,
        rw same,
        rw ((str_eq_iff k k).1 refl),
        (str_eq_iff c.client_address ip).0 same,
        λ j d e a.
            ground
              (arith, str_eq_iff k j, str_lt_irrefl k, lt_of_Above k j d m s.0, str_lt_asymm k j),
      )
      | inr other ↦ elim (get_session_by_ip-FindsFirst m ip config s.1) [
        | inl (e, none_has) ↦
            inl
              (rw other e, λ j d l a. ground (arith, none_has j d, str_eq_iff c.client_address ip))
        | inr (i, d, e, l, a, least) ↦ inr (
          i,
          d,
          rw other e,
          ground (arith, str_eq_iff k i, lt_of_Above k i d m s.0 l, str_lt_irrefl k),
          a,
          λ j b lj aj. ground (arith, least j b, str_eq_iff c.client_address ip),
        )
      ]
    ]

-- Where one session has the address, the search finds it.
pub get_session_by_ip-only :
    (m : SessionMap) (ip : Str) (config : SessionConfig) (k : Str) (c : SessionConfig)
    → IsSorted m
    → lookup k m ≡ some c
    → c.client_address ≡ ip
    → ((j : Str) (d : SessionConfig) → lookup j m ≡ some d → d.client_address ≡ ip → j ≡ k)
    → get_session_by_ip m ip config ≡ (true, c)
get_session_by_ip-only m ip config k c s l a only =
    elim (get_session_by_ip-FindsFirst m ip config s) [
      | inl (e, none_has) ↦ absurd (none_has k c l a)
      | inr (i, d, e, f, b, least) ↦
          let same : some d ≡ some c = sym f ∙ ap (λ j. lookup j m) (only i d f b) ∙ l in
          e ∙ cc same
    ]
