-- ===== src/IpPool/Bounds.antt =====
-- The addresses of a pool: distinct, and never the gateway's.
use mqtt_tunnel.Base.{ℕ, ◌+◌, ◌≤◌, ◌<◌, ◌≡◌, ap, sym, ◌∙◌, [], ◌∷◌, ◌++◌, arith, ok}
use mqtt_tunnel.Base.Text.{Str}
use mqtt_tunnel.Base.Int.{pos}
use mqtt_tunnel.Base.Decimal.{to_string, stoi, stoi-to_string}
use mqtt_tunnel.IpPool.{IpPool, address}

append_cancel : (s t u : Str) → s ++ t ≡ s ++ u → t ≡ u
append_cancel [] t u e = e
append_cancel (c ∷ s) t u e = append_cancel s t u (ground arith)

to_string_injective :
    (m n : ℕ) → m ≤ 2147483647 → n ≤ 2147483647 → to_string m ≡ to_string n → m ≡ n
to_string_injective m n h k e =
    let p : ok (pos m) ≡ ok (pos n) = sym (stoi-to_string m h) ∙ ap stoi e ∙ stoi-to_string n k in
    ground arith

-- Two indices below 2147483647 have distinct addresses.
pub address_injective :
    (p : IpPool) (i j : ℕ) → i < 2147483647 → j < 2147483647 → address p i ≡ address p j → i ≡ j
address_injective p i j h k e = omega (
  arith,
  to_string_injective (i + 1) (j + 1) (omega arith) (omega arith)
      (append_cancel p.base_ip (to_string (i + 1)) (to_string (j + 1)) e),
)
