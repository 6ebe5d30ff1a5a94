-- ===== src/Voice/Streaming/Delivery.antt =====
-- What reaches the engine of the audio that is streamed.
use mathlib.Core.List.{append-nil, append_assoc}
use vasuli.Prelude.{
  String, ◌≡◌, ◌≢◌, refl, sym, ap, ◌∙◌, subst, inl, inr, Option, none, some, List, [], ◌∷◌, ◌++◌,
  All, All-append,
}
use text.Mathlib.TextPositions.{eq_refl}
use vasuli.Exec.{Exec, Result, other, pure, raise, proceed, ◌>>=◌, ◌>>◌}
use vasuli.Voice.Call.{Chunk}
use vasuli.Voice.Streaming.Causes.{Outcome, then-Outcome, still-among}
use vasuli.Voice.Streaming.{
  Message, start_session, audio, end_of_utterance, call_start, call_end, Wire, send, ReadEnd, more,
  at_eof, broken, AudioFile, unopened, opened, send_read, stream_reads, stream_audio, out_of_fuel,
}

-- The audio in a list of messages, in order.
unfoldable pub heard : List Message → Chunk
heard [] = []
heard (audio d ∷ ms) = d ++ heard ms
heard (start_session name prompt ∷ ms) = heard ms
heard (end_of_utterance ∷ ms) = heard ms
heard (call_start rate ∷ ms) = heard ms
heard (call_end ∷ ms) = heard ms

abbrev pub IsAudio : Message → Type 0
IsAudio (audio d) = Unit
IsAudio (start_session name prompt) = ⊥
IsAudio end_of_utterance = ⊥
IsAudio (call_start rate) = ⊥
IsAudio call_end = ⊥

-- The audio `d` was sent, all of it if the result is success, and otherwise a beginning of it.
-- `errors` are the errors of what is read, and `used` says of each send whether it failed.
pub record Delivers (errors : List String) (d : Chunk) (w w' : Wire) (r : Result (Unit {0}))
    : Type 0 where
  pub messages : List Message
  pub arrived : w'.sent ≡ w.sent ++ messages
  pub only_audio : All IsAudio messages
  pub lost : Chunk
  pub split : d ≡ heard messages ++ lost
  pub used : List (Option String)
  pub spent : w.failures ≡ used ++ w'.failures
  pub outcome : Outcome errors used lost r

abbrev pub DeliversFrom : List String → Chunk → Exec Wire Unit → Wire → Type 0
DeliversFrom errors d m w = Delivers errors d w (m w).1 (m w).0

heard-append : (ms ns : List Message) → heard (ms ++ ns) ≡ heard ms ++ heard ns
unfolding heard
heard-append [] ns = refl
heard-append (audio d ∷ ms) ns = simp (heard-append ms ns, append_assoc)
heard-append (start_session name prompt ∷ ms) ns = heard-append ms ns
heard-append (end_of_utterance ∷ ms) ns = heard-append ms ns
heard-append (call_start rate ∷ ms) ns = heard-append ms ns
heard-append (call_end ∷ ms) ns = heard-append ms ns

pub send-Delivers :
    (what : String) (d : Chunk) (w : Wire)
    → what ≢ out_of_fuel
    → DeliversFrom [] d (send what (audio d)) w
unfolding send heard
send-Delivers what d w n = with_failures w.failures
  where
    whole : d ≡ (d ++ []) ++ []
    whole = sym (append-nil (d ++ []) ∙ append-nil d)

    with_failures :
        (fs : List (Option String))
        → Delivers [] d
            (record w { failures = fs })
            (send what (audio d) (record w { failures = fs })).1
            (send what (audio d) (record w { failures = fs })).0
    with_failures [] = record {
      messages = audio d ∷ [];
      arrived = refl;
      only_audio = (tt, tt);
      lost = [];
      split = whole;
      used = [];
      spent = refl;
      outcome = inl (refl, refl, refl, refl);
    }
    with_failures (none ∷ fs) = record {
      messages = audio d ∷ [];
      arrived = refl;
      only_audio = (tt, tt);
      lost = [];
      split = whole;
      used = none ∷ [];
      spent = refl;
      outcome = inl (refl, refl, refl, refl);
    }
    with_failures (some cause ∷ fs) = record {
      messages = [];
      arrived = sym (append-nil w.sent);
      only_audio = tt;
      lost = d;
      split = refl;
      used = some cause ∷ [];
      spent = refl;
      outcome = inr (what, refl, n, inr refl);
    }

-- One delivery, and another if it succeeded.
pub proceed-Delivers :
    (ea eb : List String) (a b : Chunk) (n : Exec Wire Unit) (w w' : Wire) (r : Result (Unit {0}))
    → Delivers ea a w w' r
    → DeliversFrom eb b n w'
    → Delivers (ea ++ eb) (a ++ b) w (proceed r (λ _. n) w').1 (proceed r (λ _. n) w').0
proceed-Delivers ea eb a b n w w' r d e = elim d.outcome [
  | inl (good, all, none_met, all_sent) ↦
      let whole : a ≡ heard d.messages =
        d.split ∙ ap (λ x. heard d.messages ++ x) all ∙ append-nil (heard d.messages) in
      rw good (record {
        messages = d.messages ++ e.messages;
        arrived =
            e.arrived
            ∙ ap (λ x. x ++ e.messages) d.arrived
            ∙ append_assoc w.sent d.messages e.messages;
        only_audio = All-append IsAudio d.messages e.messages d.only_audio e.only_audio;
        lost = e.lost;
        split =
            ap (λ x. x ++ b) whole
            ∙ ap (λ x. heard d.messages ++ x) e.split
            ∙ sym (append_assoc (heard d.messages) (heard e.messages) e.lost)
            ∙ ap (λ x. x ++ e.lost) (sym (heard-append d.messages e.messages));
        used = d.used ++ e.used;
        spent =
            d.spent
            ∙ ap (λ x. d.used ++ x) e.spent
            ∙ sym (append_assoc d.used e.used (n w').1.failures);
        outcome = then-Outcome ea eb d.used e.used e.lost _ none_met all_sent e.outcome;
      })
  | inr (why, bad, told, cause) ↦ rw bad (record {
    messages = d.messages;
    arrived = d.arrived;
    only_audio = d.only_audio;
    lost = d.lost ++ b;
    split = ap (λ x. x ++ b) d.split ∙ append_assoc (heard d.messages) d.lost b;
    used = d.used;
    spent = d.spent;
    outcome = inr (why, refl, told, still-among why ea eb d.used cause);
  })
]

pub bind-Delivers :
    (ea eb : List String) (a b : Chunk) (m n : Exec Wire Unit) (w : Wire)
    → DeliversFrom ea a m w
    → ((u : Wire) → DeliversFrom eb b n u)
    → DeliversFrom (ea ++ eb) (a ++ b) (m >> n) w
unfolding ◌>>=◌
bind-Delivers ea eb a b m n w d h = proceed-Delivers ea eb a b n w (m w).1 (m w).0 d (h (m w).1)

pub raise-Delivers :
    (why : String) (errors : List String) (d : Chunk) (w : Wire)
    → why ≢ out_of_fuel
    → DeliversFrom (why ∷ errors) d (raise (other why)) w
unfolding heard
raise-Delivers why errors d w n = record {
  messages = [];
  arrived = sym (append-nil w.sent);
  only_audio = tt;
  lost = d;
  split = refl;
  used = [];
  spent = refl;
  outcome = inr (why, refl, n, inl (rw (eq_refl why) refl));
}

pub pure-Delivers : (w : Wire) → DeliversFrom [] [] (pure tt) w
unfolding heard
pure-Delivers w = record {
  messages = [];
  arrived = sym (append-nil w.sent);
  only_audio = tt;
  lost = [];
  split = refl;
  used = [];
  spent = refl;
  outcome = inl (refl, refl, refl, refl);
}

send_read-Delivers : (d : Chunk) (w : Wire) → DeliversFrom [] d (send_read d) w
send_read-Delivers [] w = pure-Delivers w
send_read-Delivers (b ∷ bs) w = send-Delivers "audio send error" (b ∷ bs) w (cc)

-- What the reads return up to the end of the file or an error.
unfoldable pub contents : List (Chunk × ReadEnd) → Chunk
contents [] = []
contents ((d, at_eof) ∷ rs) = d
contents ((d, broken cause) ∷ rs) = d
contents ((d, more) ∷ rs) = d ++ contents rs

-- The error that ends the reads.
unfoldable pub read_errors : List (Chunk × ReadEnd) → List String
read_errors [] = []
read_errors ((d, at_eof) ∷ rs) = []
read_errors ((d, broken cause) ∷ rs) = "file read error" ∷ []
read_errors ((d, more) ∷ rs) = read_errors rs

stream_reads-Delivers :
    (rs : List (Chunk × ReadEnd)) (w : Wire)
    → DeliversFrom (read_errors rs) (contents rs) (stream_reads rs) w
unfolding stream_reads contents read_errors
stream_reads-Delivers [] w = pure-Delivers w
stream_reads-Delivers ((d, at_eof) ∷ rs) w = send_read-Delivers d w
stream_reads-Delivers ((d, broken cause) ∷ rs) w =
    subst
      (λ x.
        DeliversFrom ("file read error" ∷ []) x (send_read d >> raise (other "file read error")) w)
      (append-nil d)
      (bind-Delivers [] ("file read error" ∷ []) d [] (send_read d) _ w (send_read-Delivers d w)
        (λ u. raise-Delivers "file read error" [] [] u (cc)))
stream_reads-Delivers ((d, more) ∷ rs) w =
    bind-Delivers [] (read_errors rs) d (contents rs) (send_read d) (stream_reads rs) w
      (send_read-Delivers d w) (stream_reads-Delivers rs)

abbrev pub contents_of : AudioFile → Chunk
contents_of (unopened cause) = []
contents_of (opened rs) = contents rs

-- What is wrong with a file.
abbrev pub file_errors : AudioFile → List String
file_errors (unopened cause) = "failed to open audio file" ∷ []
file_errors (opened rs) = read_errors rs

pub stream_audio-Delivers :
    (f : AudioFile) (w : Wire) → DeliversFrom (file_errors f) (contents_of f) (stream_audio f) w
unfolding stream_audio
stream_audio-Delivers (unopened cause) w = raise-Delivers "failed to open audio file" [] [] w (cc)
stream_audio-Delivers (opened rs) w = stream_reads-Delivers rs w
