-- ===== src/Voice/RequestPath.antt =====
-- The paths that internal/recovery/client.go posts to.
pub mod Routing
use vasuli.Prelude.{
  ℕ, ◌+◌, ◌/◌, ◌%◌, Bool, true, false, ◌&&◌, ◌||◌, List, [], ◌∷◌, ◌++◌, ltb, leb, ◌==◌,
  if◌then◌else◌,
}
use vasuli.Startup.DotEnv.{Text}

-- What url.PathEscape leaves as it is: letters, digits and -_.~$&+:=@.
abbrev pub is_plain : ℕ → Bool
is_plain c =
    (leb 97 c && leb c 122)
    || (leb 65 c && leb c 90)
    || (leb 48 c && leb c 57)
    || c == 45
    || c == 95
    || c == 46
    || c == 126
    || c == 36
    || c == 38
    || c == 43
    || c == 58
    || c == 61
    || c == 64

abbrev pub upper_hex : ℕ → ℕ
upper_hex n = if ltb n 10 then 48 + n else 55 + n

abbrev pub escape_byte : ℕ → Text → Text
escape_byte c rest =
    if is_plain c then c ∷ rest else b'%' ∷ upper_hex (c / 16) ∷ upper_hex (c % 16) ∷ rest

-- url.PathEscape.
unfoldable pub path_escape : Text → Text
path_escape [] = []
path_escape (c ∷ s) = escape_byte c (path_escape s)

abbrev pub calls_prefix : Text
calls_prefix =
    b'/' ∷ b'a' ∷ b'p' ∷ b'i' ∷ b'/' ∷ b'v' ∷ b'1' ∷ b'/' ∷ b'c' ∷ b'a' ∷ b'l' ∷ b'l' ∷ b's' ∷ b'/'
    ∷ []

-- The path of AssignSession.
abbrev pub assign_path : Text
assign_path = calls_prefix ++ (b'a' ∷ b's' ∷ b's' ∷ b'i' ∷ b'g' ∷ b'n' ∷ [])

-- The path of EndSession.
unfoldable pub end_path : Text → Text
unfolding path_escape
end_path call_session_id =
    calls_prefix ++ (path_escape call_session_id ++ b'/' ∷ b'e' ∷ b'n' ∷ b'd' ∷ [])
