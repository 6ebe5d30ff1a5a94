-- ===== src/Voice/Audio.antt =====
-- The agent's audio on its way from the engine to the caller.
use vasuli.Prelude.{
  ◌≡◌, ◌⊎◌, refl, ap, inl, inr, Bool, Bool-cases, true, some, List, [], ◌++◌, arith,
}
use vasuli.Voice.Call.{Call, attached, Chunk}
use vasuli.Voice.Steps
use vasuli.Voice.InOrder.{
  held, has_failed, InOrder, step_receive-InOrder, step_push-InOrder, step_play-InOrder,
}

step-InOrder : (a : Steps.Action) (c c' : Call) → Steps.step a c ≡ some c' → InOrder c → InOrder c'
unfolding Steps.step Steps.receive
step-InOrder (Steps.pump_receive i) c c' e v = step_receive-InOrder c.pump i c c' refl e v
step-InOrder Steps.pump_answer c c' e v = record {
  thrown = v.thrown;
  order = ground (arith, v.order);
  kept = ground arith;
}
step-InOrder Steps.pump_push c c' e v = step_push-InOrder c.pump c c' refl e v
step-InOrder Steps.pump_signal c c' e v = record {
  thrown = v.thrown;
  order = ground (arith, v.order);
  kept = ground arith;
}
step-InOrder Steps.pump_close c c' e v = record {
  thrown = v.thrown;
  order = ground (arith, v.order);
  kept = ground arith;
}
step-InOrder Steps.idle_fire c c' e v = record {
  thrown = v.thrown;
  order = ground (arith, v.order);
  kept = ground arith;
}
step-InOrder Steps.idle_look c c' e v = record {
  thrown = v.thrown;
  order = ground (arith, v.order);
  kept = ground arith;
}
step-InOrder Steps.idle_move c c' e v = record {
  thrown = v.thrown;
  order = ground (arith, v.order);
  kept = ground arith;
}
step-InOrder (Steps.relay_receive x) c c' e v = record {
  thrown = v.thrown;
  order = ground (arith, v.order);
  kept = ground arith;
}
step-InOrder (Steps.relay_send ok) c c' e v = record {
  thrown = v.thrown;
  order = ground (arith, v.order);
  kept = ground arith;
}
step-InOrder Steps.relay_publish c c' e v = record {
  thrown = v.thrown;
  order = ground (arith, v.order);
  kept = ground arith;
}
step-InOrder (Steps.outbound_send ok) c c' e v =
    step_play-InOrder c.outbound c.buffer ok c c' refl refl e v
step-InOrder Steps.outbound_stop c c' e v = record {
  thrown = v.thrown;
  order = ground (arith, v.order);
  kept = ground arith;
}
step-InOrder Steps.main_done c c' e v = record {
  thrown = v.thrown;
  order = ground (arith, v.order);
  kept = ground arith;
}
step-InOrder Steps.main_inbound c c' e v = record {
  thrown = v.thrown;
  order = ground (arith, v.order);
  kept = ground arith;
}
step-InOrder Steps.main_collect c c' e v = record {
  thrown = v.thrown;
  order = ground (arith, v.order);
  kept = ground arith;
}
step-InOrder (Steps.main_half_close ok) c c' e v = record {
  thrown = v.thrown;
  order = ground (arith, v.order);
  kept = ground arith;
}
step-InOrder (Steps.main_wake why) c c' e v = record {
  thrown = v.thrown;
  order = ground (arith, v.order);
  kept = ground arith;
}
step-InOrder Steps.main_read c c' e v = record {
  thrown = v.thrown;
  order = ground (arith, v.order);
  kept = ground arith;
}
step-InOrder Steps.main_cancel c c' e v = record {
  thrown = v.thrown;
  order = ground (arith, v.order);
  kept = ground arith;
}
step-InOrder Steps.main_join c c' e v = record {
  thrown = v.thrown;
  order = ground (arith, v.order);
  kept = ground arith;
}
step-InOrder Steps.main_report c c' e v = record {
  thrown = v.thrown;
  order = ground (arith, v.order);
  kept = ground arith;
}

attached-InOrder : (assigned : Bool) → InOrder (attached assigned)
attached-InOrder assigned = record { thrown = []; order = refl; kept = λ e. refl }

Reach-InOrder : {start c : Call} → InOrder start → Steps.Reach start c → InOrder c
Reach-InOrder v Steps.here = v
Reach-InOrder v (Steps.later {c} {c'} a r e) = step-InOrder a c c' e (Reach-InOrder v r)

-- In every state that a call can reach, what the caller has been played is the beginning of what the
-- engine delivered, in the same order and with no chunk left out, repeated or changed; and unless a
-- send to the caller has failed, what is still to be played is what waits in the channel and in the
-- read loop, and nothing else.
pub Reach-played :
    (assigned : Bool) (c : Call)
    → Steps.Reach (attached assigned) c
    → (rest : List Chunk) × (c.played ++ rest ≡ c.delivered)
      × ((has_failed c.outbound ≡ true) ⊎ (rest ≡ c.buffer ++ held c.pump))
Reach-played assigned c r =
    let v = Reach-InOrder (attached-InOrder assigned) r in
    (
      v.thrown ++ (c.buffer ++ held c.pump),
      v.order,
      elim (Bool-cases (has_failed c.outbound)) [
        | inl t ↦ inl t
        | inr f ↦ inr (ap (λ x. x ++ (c.buffer ++ held c.pump)) (v.kept f))
      ],
    )
