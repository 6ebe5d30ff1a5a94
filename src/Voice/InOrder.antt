-- ===== src/Voice/InOrder.antt =====
-- The audio in the order in which the engine delivered it, and the single actions that keep it so.
use mathlib.Core.List.{append-nil, append_assoc}
use vasuli.Prelude.{
  ◌≡◌, ◌∙◌, refl, subst, ap, inl, inr, Bool, true, false, Bool-cases, some, List, [], ◌∷◌, ◌++◌,
  arith, length, ltb,
}
use vasuli.Voice.Session.{responding, state_eq}
use vasuli.Voice.Call.{
  Call, Chunk, Incoming, classification, audio, ignored, eof, gone, Pump, receiving, answering,
  pushing, stopping, closing, stopped, Outbound, draining, drained,
}
use vasuli.Voice.Steps

-- The chunk that readPump holds.
abbrev pub held : Pump → List Chunk
held (answering d) = d ∷ []
held (pushing d) = d ∷ []
held _ = []

abbrev pub has_failed : Outbound → Bool
has_failed (draining failed) = failed
has_failed (drained failed) = failed

-- What was played, what was thrown away after a send that failed, what waits in the channel and what
-- readPump holds are together what the engine delivered, in order.
pub record InOrder (c : Call) : Type 0 where
  pub thrown : List Chunk
  pub order : c.played ++ (thrown ++ (c.buffer ++ held c.pump)) ≡ c.delivered
  pub kept : has_failed c.outbound ≡ false → thrown ≡ []

-- One more chunk at the end.
extend :
    (played thrown buffer delivered more : List Chunk)
    → played ++ (thrown ++ (buffer ++ [])) ≡ delivered
    → played ++ (thrown ++ (buffer ++ more)) ≡ delivered ++ more
extend played thrown buffer delivered more e = rw (← e) (simp (append-nil, append_assoc))

pub receive-InOrder :
    (i : Incoming) (c : Call) → c.pump ≡ receiving → InOrder c → InOrder (Steps.receive i c)
unfolding Steps.receive
receive-InOrder (audio d) c p v =
    let order : c.played ++ (v.thrown ++ (c.buffer ++ d ∷ [])) ≡ c.delivered ++ d ∷ [] =
      extend c.played v.thrown c.buffer c.delivered (d ∷ []) (ground (arith, p, v.order)) in
    elim (Bool-cases (state_eq c.session.state responding)) [
      | inl t ↦ rw t (record { thrown = v.thrown; order = order; kept = v.kept })
      | inr f ↦ rw f (record { thrown = v.thrown; order = order; kept = v.kept })
    ]
receive-InOrder (classification o q) c p v = record {
  thrown = v.thrown;
  order = v.order;
  kept = v.kept;
}
receive-InOrder ignored c p v = v
receive-InOrder eof c p v = record {
  thrown = v.thrown;
  order = ground (arith, p, v.order);
  kept = v.kept;
}
receive-InOrder gone c p v = record {
  thrown = v.thrown;
  order = ground (arith, p, v.order);
  kept = v.kept;
}

pub step_receive-InOrder :
    (p : Pump) (i : Incoming) (c c' : Call)
    → c.pump ≡ p
    → Steps.step_receive p i c ≡ some c'
    → InOrder c
    → InOrder c'
unfolding Steps.step_receive
step_receive-InOrder receiving i c c' p e v = subst InOrder (cc) (receive-InOrder i c p v)
step_receive-InOrder (answering d) i c c' p e v = absurd (cc)
step_receive-InOrder (pushing d) i c c' p e v = absurd (cc)
step_receive-InOrder stopping i c c' p e v = absurd (cc)
step_receive-InOrder closing i c c' p e v = absurd (cc)
step_receive-InOrder stopped i c c' p e v = absurd (cc)

pub push-InOrder :
    (d : Chunk) (c : Call)
    → c.pump ≡ pushing d
    → InOrder c
    → InOrder (record c { buffer = c.buffer ++ d ∷ []; pump = receiving })
push-InOrder d c p v = record {
  thrown = v.thrown;
  order =
      ap (λ x. c.played ++ (v.thrown ++ x)) (append-nil (c.buffer ++ d ∷ []))
      ∙ ground (arith, p, v.order);
  kept = v.kept;
}

pub step_push-InOrder :
    (p : Pump) (c c' : Call) → c.pump ≡ p → Steps.step_push p c ≡ some c' → InOrder c → InOrder c'
unfolding Steps.step_push
step_push-InOrder (pushing d) c c' p e v =
    elim (Bool-cases (ltb (length c.buffer) Steps.agent_audio_capacity)) [
      | inl t ↦ subst InOrder (cc (rw t at e)) (push-InOrder d c p v)
      | inr f ↦ absurd (cc (rw f at e))
    ]
step_push-InOrder receiving c c' p e v = absurd (cc)
step_push-InOrder (answering d) c c' p e v = absurd (cc)
step_push-InOrder stopping c c' p e v = absurd (cc)
step_push-InOrder closing c c' p e v = absurd (cc)
step_push-InOrder stopped c c' p e v = absurd (cc)

pub play-InOrder :
    (failed ok : Bool) (d : Chunk) (rest : List Chunk) (c : Call)
    → c.outbound ≡ draining failed
    → c.buffer ≡ d ∷ rest
    → InOrder c
    → InOrder (Steps.play failed ok d rest c)
play-InOrder true ok d rest c o b v = record {
  thrown = v.thrown ++ d ∷ [];
  order =
      ap (λ x. c.played ++ x) (append_assoc v.thrown (d ∷ []) (rest ++ held c.pump))
      ∙ ground (arith, b, v.order);
  kept = λ k. absurd (cc);
}
play-InOrder false false d rest c o b v = record {
  thrown = v.thrown ++ d ∷ [];
  order =
      ap (λ x. c.played ++ x) (append_assoc v.thrown (d ∷ []) (rest ++ held c.pump))
      ∙ ground (arith, b, v.order);
  kept = λ k. absurd (cc);
}
play-InOrder false true d rest c o b v =
    let none_thrown : v.thrown ≡ [] = v.kept (ap has_failed o) in
    record {
      thrown = [];
      order =
          append_assoc c.played (d ∷ []) (rest ++ held c.pump)
          ∙ ground (arith, b, none_thrown, v.order);
      kept = λ k. refl;
    }

pub step_play-InOrder :
    (o : Outbound) (b : List Chunk) (ok : Bool) (c c' : Call)
    → c.outbound ≡ o
    → c.buffer ≡ b
    → Steps.step_play o b ok c ≡ some c'
    → InOrder c
    → InOrder c'
unfolding Steps.step_play
step_play-InOrder (draining failed) (d ∷ rest) ok c c' o b e v =
    subst InOrder (cc) (play-InOrder failed ok d rest c o b v)
step_play-InOrder (draining failed) [] ok c c' o b e v = absurd (cc)
step_play-InOrder (drained _) b ok c c' o b' e v = absurd (cc)
