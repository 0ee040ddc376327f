-- ===== src/MqttChannels/Ids.antt =====
-- src/MQTTChannels.cpp: the ids under which the clients of all programs meet at the broker, which
-- cuts off a client when another one comes with its id.
use mathlib.Core.List.{append_cancel_right}
use mqtt_tunnel.Base.{ℕ, ◌≡◌, ◌≢◌, ◌↔◌, refl, sym, ap, [], ◌∷◌, ◌++◌, arith}
use mqtt_tunnel.Base.Text.{Str, codes}
use mqtt_tunnel.MqttChannels.{MqttChannels, create}

final : Str → ℕ
final [] = 0
final (c ∷ []) = c
final (c ∷ d ∷ s) = final (d ∷ s)

-- The last byte of a text that ends in another one.
final-append : (s : Str) (c : ℕ) (t : Str) → final (s ++ c ∷ t) ≡ final (c ∷ t)
unfolding final
final-append [] c t = refl
final-append (d ∷ []) c t = refl
final-append (d ∷ e ∷ s) c t = final-append (e ∷ s) c t

suffixes_ne : (s t : Str) → s ++ codes "_cmd" ≢ t ++ codes "_data"
unfolding final
suffixes_ne s t e =
    absurd
      (omega (arith, final-append s 95 (codes "cmd"), final-append t 95 (codes "data"), ap final e))

-- No two of the four clients of two programs have one id.
pub record Apart (m n : MqttChannels) : Type 0 where
  pub commands : m.command_client.client_id ≢ n.command_client.client_id
  pub datas : m.data_client.client_id ≢ n.data_client.client_id
  pub command_data : m.command_client.client_id ≢ n.data_client.client_id
  pub data_command : m.data_client.client_id ≢ n.command_client.client_id
  pub own : m.command_client.client_id ≢ m.data_client.client_id
  pub own' : n.command_client.client_id ≢ n.data_client.client_id

-- Two programs, on whatever brokers, have four different client ids exactly when their base ids
-- differ. The base id is the client id that the user gives for a client, and the name of the command
-- channel for a server.
pub create-Apart_iff :
    (broker other : Str) (base id : Str)
    → Apart (create broker base) (create other id) ↔ (base ≢ id)
unfolding create
create-Apart_iff broker other base id = (
  λ a e. a.commands (ap (λ s. s ++ codes "_cmd") e),
  λ n. record {
    commands = λ e. n (append_cancel_right base id (codes "_cmd") e);
    datas = λ e. n (append_cancel_right base id (codes "_data") e);
    command_data = suffixes_ne base id;
    data_command = λ e. suffixes_ne id base (sym e);
    own = suffixes_ne base base;
    own' = suffixes_ne id id;
  },
)
