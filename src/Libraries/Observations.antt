-- ===== src/Libraries/Observations.antt =====
-- What methods leave alone: a view of an object that a method does not change, whatever its outcome, and
-- the calls to the outside, which change the log at most.
use mqtt_tunnel.Base.{
  ℕ, Bool, true, false, ◌≡◌, refl, ◌∙◌, Result, ok, throw, fault, inl, inr, Bool-cases,
}
use mqtt_tunnel.Base.Text.{Str}
use mqtt_tunnel.Base.State.{Method, next, ◌>>=◌, ◌>>◌, call, get, modify}
use mqtt_tunnel.Libraries.{
  Libraries, Channel, Effect, thread_started, thread_joined, connected, subscribed, published,
  ran_command,
}
use mqtt_tunnel.Libraries.Calls.{HasLog, log, connect, subscribe, publish, run_command}

pub record Keeps {S A B : Type 0} (view : S → B) (m : Method S A) : Type 0 where
  pub kept : (s : S) → view (m s).1 ≡ view s

-- Whether the effect starts or ends no thread.
abbrev pub is_quiet : Effect → Bool
is_quiet thread_started = false
is_quiet thread_joined = false
is_quiet _ = true

module _ {S B : Type 0} {view : S → B} where
  next-kept :
      {A C : Type 0} (f : A → Method S C) (s : S) (r : Result A × S)
      → view r.1 ≡ view s
      → ((a : A) → Keeps view (f a))
      → view (next f r).1 ≡ view s
  next-kept f s (ok a, t) e k = (k a).kept t ∙ e
  next-kept f s (throw x, t) e k = e
  next-kept f s (fault, t) e k = e

  pub bind-Keeps :
      {A C : Type 0} {m : Method S A} {f : A → Method S C}
      → Keeps view m
      → ((a : A) → Keeps view (f a))
      → Keeps view (m >>= f)
  unfolding ◌>>=◌
  bind-Keeps {m} {f} k g = record { kept = λ s. next-kept f s (m s) (k.kept s) g }

  pub then-Keeps :
      {A C : Type 0} {m : Method S A} {n : Method S C}
      → Keeps view m
      → Keeps view n
      → Keeps view (m >> n)
  then-Keeps k g = bind-Keeps k (λ a. g)

  pub call-Keeps : {A : Type 0} (f : S → Result A) → Keeps view (call f)
  call-Keeps f = record { kept = λ s. refl }

  pub get-Keeps : {A : Type 0} (f : S → A) → Keeps view (get f)
  get-Keeps f = record { kept = λ s. refl }

  pub modify-Keeps : (f : S → S) → ((s : S) → view (f s) ≡ view s) → Keeps view (modify f)
  modify-Keeps f e = record { kept = e }

  -- A method that reads its object first.
  pub self-Keeps :
      {A : Type 0} (m : S → Method S A) → ((s : S) → Keeps view (m s)) → Keeps view (λ s. m s s)
  self-Keeps m k = record { kept = λ s. (k s).kept s }

  -- Where the view sees no quiet effect.
  module _ ⦃l : HasLog S⦄
      (logs : (e : Effect) (s : S) → is_quiet e ≡ true → view (log e s) ≡ view s) where
    pub run_command-Keeps : (cmd : Str) → Keeps view (run_command cmd)
    unfolding run_command
    run_command-Keeps cmd = record { kept = λ s. logs (ran_command _) s refl }

    pub connect-Keeps : (lib : Libraries) (c : Channel) → Keeps view (connect lib c)
    unfolding connect
    connect-Keeps lib c = record {
      kept = λ s. elim (Bool-cases (lib.mqtt.connects c)) [
        | inl e ↦ rw e (logs (connected c) s refl)
        | inr e ↦ rw e refl
      ];
    }

    pub subscribe-Keeps :
        (lib : Libraries) (c : Channel) (topic : Str) (qos : ℕ)
        → Keeps view (subscribe lib c topic qos)
    unfolding subscribe
    subscribe-Keeps lib c topic qos = record {
      kept = λ s. elim (Bool-cases (lib.mqtt.subscribes c topic)) [
        | inl e ↦ rw e (logs (subscribed c topic qos) s refl)
        | inr e ↦ rw e refl
      ];
    }

    pub publish-Keeps :
        (lib : Libraries) (c : Channel) (topic payload : Str) (qos : ℕ)
        → Keeps view (publish lib c topic payload qos)
    unfolding publish
    publish-Keeps lib c topic payload qos = record {
      kept = λ s. elim (Bool-cases (lib.mqtt.publishes c topic payload)) [
        | inl e ↦ rw e (logs (published c topic payload qos) s refl)
        | inr e ↦ rw e refl
      ];
    }

-- What a method preserves, whatever its outcome.
pub record Stays {S A : Type 0} (P : S → Type 0) (m : Method S A) : Type 0 where
  pub stays : (s : S) → P s → P (m s).1

-- A method that preserves each value of a view keeps the view.
pub Stays-Keeps :
    {S A B : Type 0} {view : S → B} {m : Method S A}
    → ((b : B) → Stays (λ s. view s ≡ b) m)
    → Keeps view m
Stays-Keeps k = record { kept = λ s. (k _).stays s refl }

module _ {S : Type 0} {P : S → Type 0} where
  next-stays :
      {A C : Type 0} (f : A → Method S C) (r : Result A × S)
      → P r.1
      → ((a : A) → Stays P (f a))
      → P (next f r).1
  next-stays f (ok a, t) p k = (k a).stays t p
  next-stays f (throw x, t) p k = p
  next-stays f (fault, t) p k = p

  pub bind-Stays :
      {A C : Type 0} {m : Method S A} {f : A → Method S C}
      → Stays P m
      → ((a : A) → Stays P (f a))
      → Stays P (m >>= f)
  unfolding ◌>>=◌
  bind-Stays {m} {f} k g = record { stays = λ s p. next-stays f (m s) (k.stays s p) g }

  pub call-Stays : {A : Type 0} (f : S → Result A) → Stays P (call f)
  call-Stays f = record { stays = λ s p. p }

  pub get-Stays : {A : Type 0} (f : S → A) → Stays P (get f)
  get-Stays f = record { stays = λ s p. p }

  pub modify-Stays : (f : S → S) → ((s : S) → P s → P (f s)) → Stays P (modify f)
  modify-Stays f e = record { stays = e }

  -- Where a quiet effect preserves it.
  module _ ⦃l : HasLog S⦄
      (logs : (e : Effect) (s : S) → is_quiet e ≡ true → P s → P (log e s)) where
    pub run_command-Stays : (cmd : Str) → Stays P (run_command cmd)
    unfolding run_command
    run_command-Stays cmd = record { stays = λ s p. logs (ran_command _) s refl p }

    pub subscribe-Stays :
        (lib : Libraries) (c : Channel) (topic : Str) (qos : ℕ)
        → Stays P (subscribe lib c topic qos)
    unfolding subscribe
    subscribe-Stays lib c topic qos = record {
      stays = λ s p. elim (Bool-cases (lib.mqtt.subscribes c topic)) [
        | inl e ↦ rw e (logs (subscribed c topic qos) s refl p)
        | inr e ↦ rw e p
      ];
    }

    pub publish-Stays :
        (lib : Libraries) (c : Channel) (topic payload : Str) (qos : ℕ)
        → Stays P (publish lib c topic payload qos)
    unfolding publish
    publish-Stays lib c topic payload qos = record {
      stays = λ s p. elim (Bool-cases (lib.mqtt.publishes c topic payload)) [
        | inl e ↦ rw e (logs (published c topic payload qos) s refl p)
        | inr e ↦ rw e p
      ];
    }
