-- ===== src/Voice/Streaming/Causes.antt =====
-- How a run that streams audio ends: success, or the text of what failed.
use vasuli.Prelude.{
  String, ◌≡◌, ◌≢◌, refl, ◌⊎◌, inl, inr, Option, none, some, List, [], ◌∷◌, ◌++◌, Bool, true, false,
  Bool-cases, ◌||◌, str_eq,
}
use vasuli.Exec.{Result, ok, err, other}
use vasuli.Voice.Call.{Chunk}
use vasuli.Voice.Streaming.{out_of_fuel}

-- One of a list of sends failed.
abbrev pub failed_in : List (Option String) → Bool
failed_in [] = false
failed_in (none ∷ fs) = failed_in fs
failed_in (some cause ∷ fs) = true

abbrev pub is_among : String → List String → Bool
is_among message [] = false
is_among message (m ∷ ms) = str_eq message m || is_among message ms

-- Success, with nothing lost, if no error was met and no send failed; otherwise the text of an error
-- that was met, or of a send that failed. `out_of_fuel` is not such a text.
abbrev pub Outcome : List String → List (Option String) → Chunk → Result (Unit {0}) → Type 0
Outcome errors used lost r =
    ((r ≡ ok tt) × (lost ≡ []) × (errors ≡ []) × (failed_in used ≡ false))
    ⊎ ((why : String) × (r ≡ err (other why))
        × (why ≢ out_of_fuel)
        × ((is_among why errors ≡ true) ⊎ (failed_in used ≡ true)))

failed_in-append : (a b : List (Option String)) → failed_in (a ++ b) ≡ (failed_in a || failed_in b)
failed_in-append [] b = refl
failed_in-append (none ∷ a) b = failed_in-append a b
failed_in-append (some cause ∷ a) b = refl

is_among-append :
    (message : String) (a b : List String)
    → is_among message (a ++ b) ≡ (is_among message a || is_among message b)
is_among-append message [] b = refl
is_among-append message (m ∷ a) b = elim (Bool-cases (str_eq message m)) [
  | inl t ↦ rw t refl
  | inr f ↦ rw f (is_among-append message a b)
]

module _ (a b : List String) (u v : List (Option String)) where
  pub then-Outcome :
      (lost : Chunk) (r : Result (Unit {0}))
      → a ≡ []
      → failed_in u ≡ false
      → Outcome b v lost r
      → Outcome (a ++ b) (u ++ v) lost r
  then-Outcome lost r none_met all_sent (inl (good, all, none_left, sent)) =
      inl (good, all, rw none_met none_left, rw (failed_in-append u v, all_sent) sent)
  then-Outcome lost r none_met all_sent (inr (why, bad, told, inl met)) =
      inr (why, bad, told, inl (rw none_met met))
  then-Outcome lost r none_met all_sent (inr (why, bad, told, inr refused)) =
      inr (why, bad, told, inr (rw (failed_in-append u v, all_sent) refused))

-- More that is never reached does not change the cause.
pub still-among :
    (why : String) (a b : List String) (u : List (Option String))
    → (is_among why a ≡ true) ⊎ (failed_in u ≡ true)
    → (is_among why (a ++ b) ≡ true) ⊎ (failed_in u ≡ true)
still-among why a b u (inl met) = inl (rw (is_among-append why a b, met) refl)
still-among why a b u (inr refused) = inr refused
