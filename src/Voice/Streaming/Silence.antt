-- ===== src/Voice/Streaming/Silence.antt =====
-- The loop of StreamSilence sends all of the silence.
use vasuli.Prelude.{
  ℕ, zero, suc, ◌+◌, ◌-◌, ◌≤◌, ◌<◌, ◌≡◌, refl, sym, ap, ◌∙◌, subst, inl, inr, Bool, true, false,
  Bool-cases, Option, some, [], ◌∷◌, ◌++◌, length, take, drop, take-append-drop, ltb, arith,
  if◌then◌else◌,
}
use vasuli.Exec.{Result, ok, err}
use vasuli.Voice.Call.{Chunk}
use vasuli.Voice.Streaming.{
  audio, Wire, send, chunk_size, replicate, slice, min, after_send, silence_loop, loop_ended,
  silence_bytes, stream_silence,
}
use vasuli.Voice.Streaming.Delivery.{
  Delivers, DeliversFrom, send-Delivers, proceed-Delivers, pure-Delivers,
}

drop-all : (n : ℕ) (bs : Chunk) → length bs ≤ n → drop n bs ≡ []
drop-all zero [] h = refl
drop-all zero (b ∷ bs) h = absurd (omega arith)
drop-all (suc n) [] h = refl
drop-all (suc n) (b ∷ bs) h = drop-all n bs (omega arith)

drop-drop : (m n k : ℕ) (bs : Chunk) → m + n ≡ k → drop n (drop m bs) ≡ drop k bs
drop-drop zero n k bs e = let same : n ≡ k = omega arith in rw same refl
drop-drop (suc m) n k [] e = drop-all n [] (omega arith) ∙ sym (drop-all k [] (omega arith))
drop-drop (suc m) n zero (b ∷ bs) e = absurd (omega arith)
drop-drop (suc m) n (suc k) (b ∷ bs) e = drop-drop m n k bs (omega arith)

-- The rest of the silence is the next chunk and what follows it.
slice-drop :
    (offset : ℕ) (silence : Chunk)
    → offset < length silence
    → drop offset silence
      ≡ slice offset (min (offset + chunk_size) (length silence)) silence
        ++ drop (offset + chunk_size) silence
slice-drop offset silence h =
    let n = min (offset + chunk_size) (length silence) - offset in
    sym (take-append-drop n (drop offset silence))
    ∙ ap (λ x. take n (drop offset silence) ++ x)
        (rest (ltb (length silence) (offset + chunk_size)) refl)
  where
    rest :
        (b : Bool)
        → ltb (length silence) (offset + chunk_size) ≡ b
        → drop ((if b then length silence else offset + chunk_size) - offset) (drop offset silence)
          ≡ drop (offset + chunk_size) silence
    rest true e =
        drop-drop offset (length silence - offset) (length silence) silence (omega arith)
        ∙ drop-all (length silence) silence (omega arith)
        ∙ sym (drop-all (offset + chunk_size) silence (ground arith))
    rest false e =
        drop-drop offset (offset + chunk_size - offset) (offset + chunk_size) silence (omega arith)

module _ (a b : Chunk) (rest : Wire → Option (Result (Unit {0}) × Wire)) where
  after_send-Delivers :
      (w w' : Wire) (r : Result (Unit {0}))
      → Delivers [] a w w' r
      → ((u : Wire)
          → (rest u ≡ some (loop_ended u (rest u)))
            × Delivers [] b u (loop_ended u (rest u)).1 (loop_ended u (rest u)).0)
      → (after_send rest (r, w') ≡ some (loop_ended w (after_send rest (r, w'))))
        × Delivers []
            (a ++ b)
            w
            (loop_ended w (after_send rest (r, w'))).1
            (loop_ended w (after_send rest (r, w'))).0
  after_send-Delivers w w' (err e) d h =
      (refl, proceed-Delivers [] [] a b (λ u. loop_ended u (rest u)) w w' (err e) d (h w').1)
  after_send-Delivers w w' (ok tt) d h =
      let (runs, delivers) = h w' in
      rw runs
        (refl, proceed-Delivers [] [] a b (λ u. loop_ended u (rest u)) w w' (ok tt) d delivers)

silence_loop-Delivers :
    (fuel offset : ℕ) (silence : Chunk) (w : Wire)
    → length silence - offset < fuel
    → (silence_loop fuel offset silence w
        ≡ some (loop_ended w (silence_loop fuel offset silence w)))
      × Delivers []
          (drop offset silence)
          w
          (loop_ended w (silence_loop fuel offset silence w)).1
          (loop_ended w (silence_loop fuel offset silence w)).0
unfolding silence_loop
silence_loop-Delivers zero offset silence w h = absurd (omega arith)
silence_loop-Delivers (suc fuel) offset silence w h =
    elim (Bool-cases (ltb offset (length silence))) [
      | inl t ↦
          let within : offset < length silence = ground (arith, t) in
          let chunk = slice offset (min (offset + chunk_size) (length silence)) silence in
          let next = silence_loop fuel (offset + chunk_size) silence in
          let out = loop_ended w (after_send next (send "silence send error" (audio chunk) w)) in
          let (runs, delivers) =
            after_send-Delivers chunk (drop (offset + chunk_size) silence) next w
              (send "silence send error" (audio chunk) w).1
              (send "silence send error" (audio chunk) w).0
              (send-Delivers "silence send error" chunk w (cc))
              (λ u. silence_loop-Delivers fuel (offset + chunk_size) silence u (omega arith)) in
          rw t (
            runs,
            subst (λ x. Delivers [] x w out.1 out.0) (sym (slice-drop offset silence within))
                delivers,
          )
      | inr f ↦
          let past : drop offset silence ≡ [] = drop-all offset silence (ground (arith, f)) in
          rw (f, past) (refl, pure-Delivers w)
    ]

length-replicate : (n b : ℕ) → length (replicate n b) ≡ n
unfolding replicate
length-replicate zero b = refl
length-replicate (suc n) b = ap suc (length-replicate n b)

pub stream_silence-Delivers :
    (duration_ms : ℕ) (w : Wire)
    → DeliversFrom [] (replicate (silence_bytes duration_ms) 0) (stream_silence duration_ms) w
unfolding stream_silence
stream_silence-Delivers duration_ms w =
    (silence_loop-Delivers (suc (silence_bytes duration_ms)) 0
      (replicate (silence_bytes duration_ms) 0) w
      (omega (arith, length-replicate (silence_bytes duration_ms) 0))).1
