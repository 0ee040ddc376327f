-- ===== src/Main/ThreadLog.antt =====
-- The threads in the log of client and server. A `std::thread` that is assigned or destroyed while it
-- can be joined ends the program, src/TunnelServer.cpp and src/TunnelClient.cpp each have one as a member.
use mqtt_tunnel.Base.{
  subst, Bool, true, false, ◌≡◌, refl, sym, ap, ◌∙◌, Option, none, some, List, [], ◌∷◌, ◌++◌,
}
use mqtt_tunnel.Base.State.{Method}
use mqtt_tunnel.Base.Leads.{Leads, Post-of}
use mqtt_tunnel.Libraries.{Effect, thread_started, thread_joined}
use mqtt_tunnel.Libraries.Observations.{Keeps, is_quiet}

-- Whether the thread can be joined after an effect; nothing after the program was ended.
abbrev thread_step : Effect → Option Bool → Option Bool
thread_step thread_started (some false) = some true
thread_step thread_started _ = none
thread_step thread_joined (some true) = some false
thread_step thread_joined _ = none
thread_step e b = b

abbrev thread_from : Option Bool → List Effect → Option Bool
thread_from b [] = b
thread_from b (e ∷ l) = thread_from (thread_step e b) l

-- After the effects of a log, where there was no thread before.
unfoldable pub thread_after : List Effect → Option Bool
thread_after l = thread_from (some false) l

thread_from-snoc :
    (b : Option Bool) (l : List Effect) (e : Effect)
    → thread_from b (l ++ e ∷ []) ≡ thread_step e (thread_from b l)
thread_from-snoc b [] e = refl
thread_from-snoc b (x ∷ l) e = thread_from-snoc (thread_step x b) l e

quiet_step : (e : Effect) (b : Option Bool) → is_quiet e ≡ true → thread_step e b ≡ b
quiet_step thread_started b q = cc
quiet_step thread_joined b q = cc
quiet_step e b q = refl

pub thread_after-quiet :
    (l : List Effect) (e : Effect) → is_quiet e ≡ true → thread_after (l ++ e ∷ []) ≡ thread_after l
unfolding thread_after
thread_after-quiet l e q = thread_from-snoc (some false) l e ∙ quiet_step e _ q

pub thread_after-started :
    (l : List Effect)
    → thread_after l ≡ some false
    → thread_after (l ++ thread_started ∷ []) ≡ some true
unfolding thread_after
thread_after-started l h =
    thread_from-snoc (some false) l thread_started ∙ ap (thread_step thread_started) h

pub thread_after-joined :
    (l : List Effect)
    → thread_after l ≡ some true
    → thread_after (l ++ thread_joined ∷ []) ≡ some false
unfolding thread_after
thread_after-joined l h =
    thread_from-snoc (some false) l thread_joined ∙ ap (thread_step thread_joined) h

-- The member and the log: no thread, or the two agree.
abbrev pub Idle : Bool × Option Bool → Type 0
Idle v = v ≡ (false, some false)

abbrev pub Sound : Bool × Option Bool → Type 0
Sound v = v.1 ≡ some v.0

pub Idle-Sound : (v : Bool × Option Bool) → Idle v → Sound v
Idle-Sound v i = ap (λ v. v.1) i ∙ sym (ap (λ v. some v.0) i)

-- A method that leaves a view alone leaves alone what holds of it.
pub Keeps-Leads :
    {S A B : Type 0} {view : S → B} {m : Method S A} (P E : B → Type 0)
    → Keeps view m
    → ((b : B) → P b → E b)
    → Leads (λ s. P (view s)) (λ s. P (view s)) (λ s. E (view s)) m
Keeps-Leads {view} {m} P E k w = record {
  leads = λ s p. Post-of (m s) (subst P (sym (k.kept s)) p) (λ t q. w (view t) q);
}
