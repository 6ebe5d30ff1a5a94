-- ===== src/Voice/Teardown.antt =====
-- The end of a call: once the first select of StreamAudio has fired, the call returns.
use vasuli.Prelude.{
  ℕ, zero, suc, ◌+◌, ◌<◌, String, ◌≡◌, ◌≢◌, ◌⊎◌, refl, inl, inr, Bool, true, false, Option, none,
  some, List, [], ◌∷◌, ◌++◌, arith, length,
}
use vasuli.Voice.Call.{
  Call, attached, Chunk, gone, Pump, receiving, answering, pushing, stopping, closing, stopped,
  Outbound, draining, drained, Main, selecting, collecting, half_closing, awaiting, reading,
  cancelling, joining, reporting, returned,
}
use vasuli.Voice.Steps
use vasuli.Voice.Control.{Control, step-Control, Reach-Control, attached-Control}

abbrev pump_rank : Pump → ℕ
pump_rank (answering d) = 7
pump_rank (pushing d) = 6
pump_rank receiving = 3
pump_rank stopping = 2
pump_rank closing = 1
pump_rank stopped = 0

abbrev outbound_rank : Outbound → ℕ
outbound_rank (draining failed) = 1
outbound_rank (drained _) = 0

abbrev main_rank : Main → ℕ
main_rank selecting = 8
main_rank (collecting x) = 7
main_rank half_closing = 6
main_rank awaiting = 5
main_rank reading = 4
main_rank (cancelling o p) = 3
main_rank (joining o p) = 2
main_rank (reporting o p) = 1
main_rank returned = 0

-- How far the call is from its return.
abbrev distance : Call → ℕ
distance c = main_rank c.main + outbound_rank c.outbound + pump_rank c.pump + length c.buffer

abbrev is_ending : Main → Bool
is_ending selecting = false
is_ending _ = true

-- The actions that the end of a call can count on: those of the gateway itself, of the two loops over
-- the agent's audio, and Recv on the inference stream failing once its context is cancelled. A send
-- and a wait may end either way.
abbrev pub is_certain : Steps.Action → Call → Bool
is_certain (Steps.pump_receive gone) c = c.cancelled
is_certain (Steps.pump_receive i) c = false
is_certain (Steps.relay_receive e) c = false
is_certain (Steps.relay_send ok) c = false
is_certain Steps.relay_publish c = false
is_certain Steps.idle_fire c = false
is_certain Steps.idle_look c = false
is_certain Steps.idle_move c = false
is_certain _ c = true

-- A certain action that a call can take next, unless it has returned.
abbrev pub CanMove : Call → Type 0
CanMove c = (a : Steps.Action) × (c' : Call) × (is_certain a c ≡ true) × (Steps.step a c ≡ some c')

can_move : (a : Steps.Action) (c : Call) → is_certain a c ≡ true → Steps.step a c ≢ none → CanMove c
can_move a c s n = found (Steps.step a c) refl
  where
    found : (o : Option Call) → Steps.step a c ≡ o → CanMove c
    found none e = absurd (n e)
    found (some c') e = (a, c', s, e)

joining-CanMove :
    (c : Call) (out : Outbound) (b : List Chunk) (p : Pump) (o q : String)
    → c.main ≡ joining o q
    → c.outbound ≡ out
    → c.buffer ≡ b
    → c.pump ≡ p
    → Control c
    → CanMove c
unfolding Steps.step
joining-CanMove c (drained _) b p o q em eo eb ep v =
    can_move Steps.main_join c refl (rw (em, eo) (cc))
joining-CanMove c (draining f) (d ∷ rest) p o q em eo eb ep v =
    can_move (Steps.outbound_send true) c refl (rw (eo, eb) (cc))
joining-CanMove c (draining f) [] receiving o q em eo eb ep v =
    can_move (Steps.pump_receive gone) c (ground (arith, em, v.cancel)) (rw ep (cc))
joining-CanMove c (draining f) [] (answering d) o q em eo eb ep v =
    can_move Steps.pump_answer c refl (rw ep (cc))
joining-CanMove c (draining f) [] (pushing d) o q em eo eb ep v =
    can_move Steps.pump_push c refl (rw (ep, eb) (cc))
joining-CanMove c (draining f) [] stopping o q em eo eb ep v =
    can_move Steps.pump_signal c refl (rw ep (cc))
joining-CanMove c (draining f) [] closing o q em eo eb ep v =
    can_move Steps.pump_close c refl (rw ep (cc))
joining-CanMove c (draining f) [] stopped o q em eo eb ep v =
    let closed : c.audio_closed ≡ true = ground (arith, ep, v.audio) in
    can_move Steps.outbound_stop c refl (rw (eo, eb, closed) (cc))

ending-CanMove :
    (c : Call) (m : Main) → c.main ≡ m → is_ending m ≡ true → Control c → (m ≡ returned) ⊎ CanMove c
unfolding Steps.step
ending-CanMove c selecting e n v = absurd (cc)
ending-CanMove c (collecting x) e n v = inr (can_move Steps.main_collect c refl (rw e (cc)))
ending-CanMove c half_closing e n v = inr (can_move (Steps.main_half_close true) c refl (rw e (cc)))
ending-CanMove c awaiting e n v =
    inr (can_move (Steps.main_wake Steps.on_timeout) c refl (rw e (cc)))
ending-CanMove c reading e n v = inr (can_move Steps.main_read c refl (rw e (cc)))
ending-CanMove c (cancelling o p) e n v = inr (can_move Steps.main_cancel c refl (rw e (cc)))
ending-CanMove c (joining o p) e n v =
    inr (joining-CanMove c c.outbound c.buffer c.pump o p e refl refl refl v)
ending-CanMove c (reporting o p) e n v = inr (can_move Steps.main_report c refl (rw e (cc)))
ending-CanMove c returned e n v = inl refl

length-snoc : (b : List Chunk) (d : Chunk) → length (b ++ d ∷ []) ≡ suc (length b)
length-snoc [] d = refl
length-snoc (x ∷ b) d = ground (arith, length-snoc b d)

push-distance :
    (p : Pump) (c c' : Call)
    → c.pump ≡ p
    → is_ending c.main ≡ true
    → Steps.step_push p c ≡ some c'
    → (distance c' < distance c) × (is_ending c'.main ≡ true)
unfolding Steps.step_push
push-distance (pushing d) c c' p n e = ground (arith, e, length-snoc c.buffer d)
push-distance receiving c c' p n e = absurd (cc)
push-distance (answering d) c c' p n e = absurd (cc)
push-distance stopping c c' p n e = absurd (cc)
push-distance closing c c' p n e = absurd (cc)
push-distance stopped c c' p n e = absurd (cc)

-- Every certain action brings an ending call nearer to its return, and keeps it ending.
step-distance :
    (a : Steps.Action) (c c' : Call)
    → is_certain a c ≡ true
    → is_ending c.main ≡ true
    → Steps.step a c ≡ some c'
    → (distance c' < distance c) × (is_ending c'.main ≡ true)
unfolding Steps.step Steps.receive Steps.collect Steps.read_outcome
step-distance Steps.pump_push c c' s n e = push-distance c.pump c c' refl n e
step-distance a c c' s n e = ground arith

-- The call will return: it has, or it can take a certain action, and every certain action leads to a
-- call that will return.
pub data WillReturn : Call → Type 0 where
  will_return :
      (c : Call)
      → (c.main ≡ returned) ⊎ CanMove c
      → ((a : Steps.Action) (c' : Call)
          → is_certain a c ≡ true
          → Steps.step a c ≡ some c'
          → WillReturn c')
      → WillReturn c

ending-WillReturn :
    (fuel : ℕ) (c : Call) → distance c < fuel → is_ending c.main ≡ true → Control c → WillReturn c
ending-WillReturn zero c h n v = absurd (omega arith)
ending-WillReturn (suc fuel) c h n v = will_return c (ending-CanMove c c.main refl n v) (λ a c' s e.
    let (near, still) = step-distance a c c' s n e in
    ending-WillReturn fuel c' (omega arith) still (step-Control a c c' e v))

-- The end of a call cannot hang: in every state that a call can reach after its first select has
-- fired, it has returned, or one of its goroutines can take a next action, and every such action leads
-- to a state of which the same holds, in finitely many actions until the return. The actions meant
-- are those of the gateway, of the read loop and of the loop that plays the audio, with either result
-- of a send and of the wait, and the end of Recv on the inference stream after its context is
-- cancelled.
pub Reach-WillReturn :
    (assigned : Bool) (c : Call)
    → Steps.Reach (attached assigned) c
    → c.main ≢ selecting
    → WillReturn c
Reach-WillReturn assigned c r n =
    ending-WillReturn (suc (distance c)) c (omega arith) (ending c.main n)
      (Reach-Control (attached-Control assigned) r)
  where
    ending : (m : Main) → m ≢ selecting → is_ending m ≡ true
    ending selecting n = absurd (n refl)
    ending (collecting x) n = refl
    ending half_closing n = refl
    ending awaiting n = refl
    ending reading n = refl
    ending (cancelling o p) n = refl
    ending (joining o p) n = refl
    ending (reporting o p) n = refl
    ending returned n = refl
