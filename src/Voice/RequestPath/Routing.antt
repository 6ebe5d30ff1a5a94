-- ===== src/Voice/RequestPath/Routing.antt =====
-- The requests of the recovery client reach their handlers.
use mathlib.Core.Option.{some-injective}
use vasuli.Prelude.{
  ℕ, ◌+◌, ◌*◌, ◌/◌, ◌%◌, ◌<◌, ◌≡◌, ◌≢◌, refl, sym, ap, ◌∙◌, inl, inr, Bool, true, false, Bool-cases,
  some, List, [], ◌∷◌, ◌++◌, All, ◌==◌, arith, if◌then◌else◌,
}
use vasuli.Startup.DotEnv.{Text, text_eq}
use vasuli.Startup.Precedence.{text_eq_sound}
use vasuli.Api.Router.{
  unhex, outside, keep, unescape, or_itself, slash, segment_value, segments, is_dots, is_blank,
  is_clean, get, post, h_assign_call, h_end_call, match_parts, handled, not_allowed, find_pattern,
  route,
}
use vasuli.Voice.RequestPath.{is_plain, upper_hex, escape_byte, path_escape, assign_path, end_path}

abbrev pub IsByte : ℕ → Type 0
IsByte c = c < 256

unhex-upper_hex : (n : ℕ) → n < 16 → unhex (upper_hex n) ≡ some n
unhex-upper_hex n h = ground arith

upper_hex-≢ : (n : ℕ) → (upper_hex n == b'/') ≡ false
upper_hex-≢ n = ground arith

is_plain-≢ : (c : ℕ) → is_plain c ≡ true → ((c == b'/') ≡ false) × ((c == b'%') ≡ false)
is_plain-≢ c h = ground (arith, h)

unescape-plain :
    (c : ℕ) (s : Text)
    → (c == b'%') ≡ false
    → unescape outside (c ∷ s) ≡ keep c (unescape outside s)
unfolding unescape
unescape-plain c s h = rw (unescape, h) refl

unescape-coded :
    (a b h l : ℕ) (s : Text)
    → unhex a ≡ some h
    → unhex b ≡ some l
    → unescape outside (b'%' ∷ a ∷ b ∷ s) ≡ keep (h * 16 + l) (unescape outside s)
unfolding unescape
unescape-coded a b h l s d e = rw (unescape, d, e) refl

unescape-escape_byte :
    (c : ℕ) (s : Text) → IsByte c → unescape outside (escape_byte c s) ≡ keep c (unescape outside s)
unescape-escape_byte c s h = elim (Bool-cases (is_plain c)) [
  | inl plain ↦ rw plain (unescape-plain c s (is_plain-≢ c plain).1)
  | inr coded ↦
      let whole : c / 16 * 16 + c % 16 ≡ c = omega arith in
      rw coded (
        unescape-coded _ _ (c / 16) (c % 16) s (unhex-upper_hex (c / 16) (omega arith))
          (unhex-upper_hex (c % 16) (omega arith))
        ∙ ap (λ x. keep x (unescape outside s)) whole)
]

unescape-path_escape : (id : Text) → All IsByte id → unescape outside (path_escape id) ≡ some id
unfolding path_escape unescape
unescape-path_escape [] h = refl
unescape-path_escape (c ∷ id) (h, hs) =
    unescape-escape_byte c (path_escape id) h ∙ ap (keep c) (unescape-path_escape id hs)

segments-escape_byte :
    (c : ℕ) (s t : Text) (ss : List Text)
    → segments (s ++ t) ≡ s ∷ ss
    → segments (escape_byte c s ++ t) ≡ escape_byte c s ∷ ss
unfolding segments
segments-escape_byte c s t ss h = elim (Bool-cases (is_plain c)) [
  | inl plain ↦ rw (plain, (is_plain-≢ c plain).0, h) refl
  | inr coded ↦ rw (coded, upper_hex-≢ (c / 16), upper_hex-≢ (c % 16), h) refl
]

-- An escaped text is one segment.
segments-path_escape :
    (id t : Text) → segments (path_escape id ++ b'/' ∷ t) ≡ path_escape id ∷ segments t
unfolding path_escape segments
segments-path_escape [] t = refl
segments-path_escape (c ∷ id) t =
    segments-escape_byte c (path_escape id) (b'/' ∷ t) (segments t) (segments-path_escape id t)

text_eq-≢ : (s t : Text) → s ≢ t → text_eq s t ≡ false
text_eq-≢ s t n = elim (Bool-cases (text_eq s t)) [
  | inl same ↦ absurd (n (text_eq_sound s t same))
  | inr differ ↦ differ
]

-- What another text unescapes to tells it from the escaped one.
path_escape-≢ :
    (id s : Text) → All IsByte id → unescape outside s ≡ some s → id ≢ s → path_escape id ≢ s
path_escape-≢ id s h plain n e =
    n (some-injective _ _ (sym (unescape-path_escape id h) ∙ ap (unescape outside) e ∙ plain))

-- The segments that net/http reads as something else than the value of a wildcard.
pub record IsSegment (id : Text) : Type 0 where
  pub not_empty : id ≢ []
  pub not_dot : id ≢ b'.' ∷ []
  pub not_dots : id ≢ b'.' ∷ b'.' ∷ []
  pub not_slash : id ≢ slash

either_way : {A : Type 0} {x : A} (b : Bool) → (if b then x else x) ≡ x
either_way true = refl
either_way false = refl

module _ (id : Text) (bytes : All IsByte id) (proper : IsSegment id) where
  is_dots-path_escape : is_dots (path_escape id) ≡ false
  unfolding unescape is_dots
  is_dots-path_escape =
      rw
        (
          text_eq-≢ (path_escape id) (b'.' ∷ []) (path_escape-≢ id _ bytes refl proper.not_dot),
          text_eq-≢ (path_escape id) (b'.' ∷ b'.' ∷ [])
              (path_escape-≢ id _ bytes refl proper.not_dots),
        )
        refl

  is_blank-path_escape : is_blank (path_escape id) ≡ false
  unfolding unescape
  is_blank-path_escape =
      not_empty (path_escape id) (path_escape-≢ id [] bytes refl proper.not_empty)
    where
      not_empty : (s : Text) → s ≢ [] → is_blank s ≡ false
      not_empty [] n = absurd (n refl)
      not_empty (c ∷ s) n = refl

  segment_value-path_escape : segment_value (path_escape id) ≡ id
  unfolding unescape segment_value
  segment_value-path_escape =
      value (path_escape id) (path_escape-≢ id [] bytes refl proper.not_empty)
        (unescape-path_escape id bytes)
    where
      value : (s : Text) → s ≢ [] → unescape outside s ≡ some id → segment_value s ≡ id
      value [] n e = absurd (n refl)
      value (c ∷ s) n e = ap (or_itself (c ∷ s)) e

  -- The recovery client's requests reach the handlers that they are meant for: the path of
  -- AssignSession reaches AssignCall, and that of EndSession, with the call's id escaped by
  -- url.PathEscape, reaches EndCall, which is given the same id again, whatever bytes it is made of;
  -- a request for either path with the method GET is refused. The id is not empty, not a dot or two
  -- dots, which the server takes for steps of the path, and not a single slash.
  pub route-end_path :
      (route post assign_path ≡ handled h_assign_call [])
      × (route post (end_path id) ≡ handled h_end_call (id ∷ []))
      × (route get assign_path ≡ not_allowed)
      × (route get (end_path id) ≡ not_allowed)
  unfolding route end_path segments is_clean find_pattern match_parts segment_value unescape text_eq
      is_dots
  route-end_path =
      rw
        (
          segments-path_escape id (b'e' ∷ b'n' ∷ b'd' ∷ []),
          is_dots-path_escape,
          is_blank-path_escape,
          segment_value-path_escape,
          text_eq-≢ id slash proper.not_slash,
          either_way (text_eq (b'a' ∷ b's' ∷ b's' ∷ b'i' ∷ b'g' ∷ b'n' ∷ []) id),
        )
        (refl, refl, refl, refl)
