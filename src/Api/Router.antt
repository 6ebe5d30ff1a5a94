-- ===== src/Api/Router.antt =====
-- NewRouter of internal/api/router.go: which handler a method and an escaped path reach through the
-- ServeMux of net/http, with the values of its wildcards. Paths are lists of bytes.
use vasuli.Prelude.{
  ℕ, ◌+◌, ◌-◌, ◌*◌, Bool, true, false, ◌&&◌, ◌||◌, Option, none, some, List, [], ◌∷◌, leb, ◌==◌,
  if◌then◌else◌,
}
use vasuli.Startup.DotEnv.{Text, text_eq}

-- A hexadecimal digit.
abbrev pub unhex : ℕ → Option ℕ
unhex c =
    if leb 48 c && leb c 57
    then some (c - 48)
    else if leb 65 c && leb c 70
    then some (c - 55)
    else if leb 97 c && leb c 102
    then some (c - 87)
    else none

-- What was read of an escape.
pub data Escape : Type 0 where
  outside percent : Escape
  half : ℕ → Escape

abbrev pub keep : ℕ → Option Text → Option Text
keep c none = none
keep c (some s) = some (c ∷ s)

-- url.PathUnescape.
unfoldable pub unescape : Escape → Text → Option Text
unescape outside [] = some []
unescape percent [] = none
unescape (half h) [] = none
unescape outside (c ∷ s) = elim (c == b'%') [
  | true ↦ unescape percent s
  | false ↦ keep c (unescape outside s)
]
unescape percent (c ∷ s) = elim (unhex c) [ none ↦ none | some h ↦ unescape (half h) s ]
unescape (half h) (c ∷ s) = elim (unhex c) [
  | none ↦ none
  | some l ↦ keep (h * 16 + l) (unescape outside s)
]

abbrev pub or_itself : Text → Option Text → Text
or_itself s none = s
or_itself s (some t) = t

abbrev pub slash : Text
slash = b'/' ∷ []

-- The value of a segment; the empty one behind a trailing slash counts as a slash.
unfoldable pub segment_value : Text → Text
unfolding unescape
segment_value [] = slash
segment_value (c ∷ s) = or_itself (c ∷ s) (unescape outside (c ∷ s))

abbrev pub put_first : ℕ → List Text → List Text
put_first c [] = (c ∷ []) ∷ []
put_first c (t ∷ ts) = (c ∷ t) ∷ ts

-- The path behind its first slash, cut at the slashes.
unfoldable pub segments : Text → List Text
segments [] = [] ∷ []
segments (c ∷ s) = let rest = segments s in if c == b'/' then [] ∷ rest else put_first c rest

unfoldable pub is_dots : Text → Bool
unfolding text_eq
is_dots s = text_eq s (b'.' ∷ []) || text_eq s (b'.' ∷ b'.' ∷ [])

abbrev pub is_blank : Text → Bool
is_blank [] = true
is_blank (c ∷ s) = false

-- The path is what cleanPath makes of it.
unfoldable pub is_clean : List Text → Bool
unfolding is_dots
is_clean [] = true
is_clean (s ∷ []) = if is_dots s then false else true
is_clean (s ∷ t ∷ ts) =
    let rest = is_clean (t ∷ ts) in if is_blank s || is_dots s then false else rest

pub data Method : Type 0 where
  get head post other_method : Method

pub data Endpoint : Type 0 where
  h_create_campaign h_campaign_metrics h_campaign_queue h_assign_call h_end_call h_razorpay_webhook
        h_health :
      Endpoint

pub data Part : Type 0 where
  literal : Text → Part
  wildcard : Part

pub record Pattern : Type 0 where
  pub method : Method
  pub parts : List Part
  pub endpoint : Endpoint

abbrev pub api_v1 : List Part → List Part
api_v1 ps = literal (b'a' ∷ b'p' ∷ b'i' ∷ []) ∷ literal (b'v' ∷ b'1' ∷ []) ∷ ps

abbrev pub campaigns : Text
campaigns = b'c' ∷ b'a' ∷ b'm' ∷ b'p' ∷ b'a' ∷ b'i' ∷ b'g' ∷ b'n' ∷ b's' ∷ []

abbrev pub calls : Text
calls = b'c' ∷ b'a' ∷ b'l' ∷ b'l' ∷ b's' ∷ []

abbrev pub patterns : List Pattern
patterns =
    record { method = post; parts = api_v1 (literal campaigns ∷ []); endpoint = h_create_campaign }
    ∷ record {
      method = get;
      parts = api_v1 (
          literal campaigns
          ∷ wildcard
          ∷ literal (b'm' ∷ b'e' ∷ b't' ∷ b'r' ∷ b'i' ∷ b'c' ∷ b's' ∷ [])
          ∷ []);
      endpoint = h_campaign_metrics;
    }
    ∷ record {
      method = get;
      parts =
          api_v1
            (literal campaigns ∷ wildcard ∷ literal (b'q' ∷ b'u' ∷ b'e' ∷ b'u' ∷ b'e' ∷ []) ∷ []);
      endpoint = h_campaign_queue;
    }
    ∷ record {
      method = post;
      parts = api_v1 (literal calls ∷ literal (b'a' ∷ b's' ∷ b's' ∷ b'i' ∷ b'g' ∷ b'n' ∷ []) ∷ []);
      endpoint = h_assign_call;
    }
    ∷ record {
      method = post;
      parts = api_v1 (literal calls ∷ wildcard ∷ literal (b'e' ∷ b'n' ∷ b'd' ∷ []) ∷ []);
      endpoint = h_end_call;
    }
    ∷ record {
      method = post;
      parts =
          literal (b'w' ∷ b'e' ∷ b'b' ∷ b'h' ∷ b'o' ∷ b'o' ∷ b'k' ∷ b's' ∷ [])
          ∷ literal (b'r' ∷ b'a' ∷ b'z' ∷ b'o' ∷ b'r' ∷ b'p' ∷ b'a' ∷ b'y' ∷ [])
          ∷ [];
      endpoint = h_razorpay_webhook;
    }
    ∷ record {
      method = get;
      parts = literal (b'h' ∷ b'e' ∷ b'a' ∷ b'l' ∷ b't' ∷ b'h' ∷ []) ∷ [];
      endpoint = h_health;
    }
    ∷ []

abbrev pub add_value : Text → Option (List Text) → Option (List Text)
add_value v none = none
add_value v (some vs) = some (v ∷ vs)

-- The values of the wildcards, if the path matches. A wildcard does not match a slash.
unfoldable pub match_parts : List Part → List Text → Option (List Text)
unfolding segment_value text_eq
match_parts [] [] = some []
match_parts [] (s ∷ ss) = none
match_parts (p ∷ ps) [] = none
match_parts (literal l ∷ ps) (s ∷ ss) =
    let rest = match_parts ps ss in if text_eq l (segment_value s) then rest else none
match_parts (wildcard ∷ ps) (s ∷ ss) =
    let rest = match_parts ps ss in
    if text_eq (segment_value s) slash then none else add_value (segment_value s) rest

-- A pattern for GET takes HEAD too.
abbrev pub allows_method : Method → Method → Bool
allows_method get get = true
allows_method get head = true
allows_method post post = true
allows_method _ _ = false

pub data Routed : Type 0 where
  handled : Endpoint → List Text → Routed
  redirected not_allowed not_found : Routed

-- 405 if a pattern matches but for its method, and 404 otherwise.
abbrev pub or_refused : Pattern → Option (List Text) → Bool → Routed → Routed
or_refused p none allowed rest = rest
or_refused p (some vs) true rest = handled p.endpoint vs
or_refused p (some vs) false not_found = not_allowed
or_refused p (some vs) false rest = rest

unfoldable pub find_pattern : Method → List Text → List Pattern → Routed
unfolding match_parts
find_pattern m ss [] = not_found
find_pattern m ss (p ∷ ps) =
    or_refused p (match_parts p.parts ss) (allows_method p.method m) (find_pattern m ss ps)

-- A path that is not clean is redirected to what cleanPath makes of it.
unfoldable pub route : Method → Text → Routed
unfolding segments is_clean find_pattern
route m [] = redirected
route m (c ∷ s) =
    if c == b'/' && is_clean (segments s) then find_pattern m (segments s) patterns else redirected
