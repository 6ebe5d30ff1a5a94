-- ===== src/Voice/Outcome.antt =====
-- What a call reports to the recovery orchestrator.
use vasuli.Prelude.{
  String, ◌≡◌, ◌∙◌, refl, subst, ◌⊎◌, inl, inr, Bool, true, false, some, List, [], ◌∷◌, arith,
  str_eq,
}
use vasuli.Voice.Session.{Session, SessionState, attach, transition_to, signal_done, set_outcome}
use vasuli.Voice.Call.{
  Call, attached, Main, selecting, collecting, half_closing, awaiting, reading, cancelling, joining,
  reporting, returned,
}
use vasuli.Voice.Steps

-- The engine has delivered this outcome.
abbrev pub Heard : String → String → List (String × String) → Type 0
Heard o p [] = ⊥
Heard o p ((a, b) ∷ rest) = ((o ≡ a) × (p ≡ b)) ⊎ Heard o p rest

-- What may be reported: an outcome that the engine delivered, if it is not empty, or the fallback.
abbrev pub Honest : String → String → List (String × String) → Type 0
Honest o p heard =
    ((o ≡ Steps.fallback_outcome) × (p ≡ "")) ⊎ ((str_eq o "" ≡ false) × Heard o p heard)

abbrev Decided : Main → List (String × String) → Type 0
Decided (cancelling o p) heard = Honest o p heard
Decided (joining o p) heard = Honest o p heard
Decided (reporting o p) heard = Honest o p heard
Decided _ heard = Unit

-- The reports of a call that has returned: one if a session was assigned, else none.
abbrev pub Reported : Bool → List (String × String) → List (String × String) → Type 0
Reported false reports heard = reports ≡ []
Reported true reports heard =
    (o : String) × (p : String) × (reports ≡ (o, p) ∷ []) × Honest o p heard

abbrev Told : Main → Bool → List (String × String) → List (String × String) → Type 0
Told returned assigned reports heard = Reported assigned reports heard
Told _ assigned reports heard = reports ≡ []

pub record Telling (c : Call) : Type 0 where
  pub stored :
      (str_eq c.session.outcome "" ≡ true)
      ⊎ Heard c.session.outcome c.session.promise_date c.classified
  pub decided : Decided c.main c.classified
  pub told : Told c.main c.assigned c.reports c.classified

Honest-more :
    (o p a b : String) (heard : List (String × String))
    → Honest o p heard
    → Honest o p ((a, b) ∷ heard)
Honest-more o p a b heard (inl h) = inl h
Honest-more o p a b heard (inr (n, h)) = inr (n, inr h)

Decided-more :
    (m : Main) (a b : String) (heard : List (String × String))
    → Decided m heard
    → Decided m ((a, b) ∷ heard)
Decided-more (cancelling o p) a b heard h = Honest-more o p a b heard h
Decided-more (joining o p) a b heard h = Honest-more o p a b heard h
Decided-more (reporting o p) a b heard h = Honest-more o p a b heard h
Decided-more selecting a b heard h = tt
Decided-more (collecting x) a b heard h = tt
Decided-more half_closing a b heard h = tt
Decided-more awaiting a b heard h = tt
Decided-more reading a b heard h = tt
Decided-more returned a b heard h = tt

Reported-more :
    (assigned : Bool) (a b : String) (reports heard : List (String × String))
    → Reported assigned reports heard
    → Reported assigned reports ((a, b) ∷ heard)
Reported-more false a b reports heard h = h
Reported-more true a b reports heard (o, p, e, h) = (o, p, e, Honest-more o p a b heard h)

Told-more :
    (m : Main) (assigned : Bool) (a b : String) (reports heard : List (String × String))
    → Told m assigned reports heard
    → Told m assigned reports ((a, b) ∷ heard)
Told-more returned assigned a b reports heard h = Reported-more assigned a b reports heard h
Told-more (cancelling o p) assigned a b reports heard h = h
Told-more (joining o p) assigned a b reports heard h = h
Told-more (reporting o p) assigned a b reports heard h = h
Told-more selecting assigned a b reports heard h = h
Told-more (collecting x) assigned a b reports heard h = h
Told-more half_closing assigned a b reports heard h = h
Told-more awaiting assigned a b reports heard h = h
Told-more reading assigned a b reports heard h = h

-- A transition leaves the outcome alone.
transition_to-outcome :
    (t : SessionState) (s : Session)
    → ((transition_to t s).1.outcome ≡ s.outcome)
      × ((transition_to t s).1.promise_date ≡ s.promise_date)
unfolding transition_to
transition_to-outcome t s = ground arith

step-Telling : (a : Steps.Action) (c c' : Call) → Steps.step a c ≡ some c' → Telling c → Telling c'
unfolding Steps.step Steps.receive signal_done set_outcome transition_to Steps.collect
    Steps.read_outcome
step-Telling (Steps.pump_receive i) c c' e v = ground arith
step-Telling Steps.pump_answer c c' e v = ground arith
step-Telling Steps.pump_push c c' e v = ground arith
step-Telling Steps.pump_signal c c' e v = ground arith
step-Telling Steps.pump_close c c' e v = ground arith
step-Telling Steps.idle_fire c c' e v = ground arith
step-Telling Steps.idle_look c c' e v = ground arith
step-Telling Steps.idle_move c c' e v = ground arith
step-Telling (Steps.relay_receive x) c c' e v = ground arith
step-Telling (Steps.relay_send ok) c c' e v = ground arith
step-Telling Steps.relay_publish c c' e v = ground arith
step-Telling (Steps.outbound_send ok) c c' e v = ground arith
step-Telling Steps.outbound_stop c c' e v = ground arith
step-Telling Steps.main_done c c' e v = ground arith
step-Telling Steps.main_inbound c c' e v = ground arith
step-Telling Steps.main_collect c c' e v = ground arith
step-Telling (Steps.main_half_close ok) c c' e v = ground arith
step-Telling (Steps.main_wake why) c c' e v = ground arith
step-Telling Steps.main_read c c' e v = ground arith
step-Telling Steps.main_cancel c c' e v = ground arith
step-Telling Steps.main_join c c' e v = ground arith
step-Telling Steps.main_report c c' e v = ground arith

attached-Telling : (assigned : Bool) → Telling (attached assigned)
unfolding attach transition_to
attached-Telling assigned = ground arith

Reach-Telling : {start c : Call} → Telling start → Steps.Reach start c → Telling c
Reach-Telling v Steps.here = v
Reach-Telling v (Steps.later {c} {c'} a r e) = step-Telling a c c' e (Reach-Telling v r)

step-assigned :
    (a : Steps.Action) (c c' : Call) → Steps.step a c ≡ some c' → c'.assigned ≡ c.assigned
unfolding Steps.step Steps.receive
step-assigned a c c' e = ground arith

Reach-assigned : {start c : Call} → Steps.Reach start c → c.assigned ≡ start.assigned
Reach-assigned Steps.here = refl
Reach-assigned (Steps.later {c} {c'} a r e) = step-assigned a c c' e ∙ Reach-assigned r

-- However the goroutines of a call interleave and whatever the engine and the caller do, a call that
-- has returned has reported to the recovery orchestrator exactly once if a recovery session was
-- assigned to it, and never otherwise; and what it reported is an outcome that the engine delivered
-- during this call, with its promise date, or UNCLEAR with no promise date.
pub returned-Reported :
    (assigned : Bool) (c : Call)
    → Steps.Reach (attached assigned) c
    → c.main ≡ returned
    → Reported assigned c.reports c.classified
returned-Reported assigned c r e =
    let v = Reach-Telling (attached-Telling assigned) r in
    let t : Reported c.assigned c.reports c.classified =
      subst (λ m. Told m c.assigned c.reports c.classified) e v.told in
    subst (λ b. Reported b c.reports c.classified) (Reach-assigned r) t
