-- ===== src/Examples/Paths.antt =====
-- A call's id with a blank, a slash and a percent sign in it.
use vasuli.Prelude.{◌≡◌, [], ◌∷◌, arith, All}
use vasuli.Startup.DotEnv.{Text}
use vasuli.Api.Router.{get, post, h_assign_call, h_end_call, handled, not_allowed, route}
use vasuli.Voice.RequestPath.{assign_path, end_path}
use vasuli.Voice.RequestPath.Routing.{IsByte, IsSegment, route-end_path}

abbrev odd_id : Text
odd_id = b'a' ∷ b' ' ∷ b'/' ∷ b'%' ∷ b'2' ∷ []

odd_id-bytes : All IsByte odd_id
odd_id-bytes = (omega arith, (omega arith, (omega arith, (omega arith, (omega arith, tt)))))

odd_id-IsSegment : IsSegment odd_id
odd_id-IsSegment = record {
  not_empty = λ e. absurd (cc);
  not_dot = λ e. absurd (cc);
  not_dots = λ e. absurd (cc);
  not_slash = λ e. absurd (cc);
}

route-end_path_example :
    (route post assign_path ≡ handled h_assign_call [])
    × (route post (end_path odd_id) ≡ handled h_end_call (odd_id ∷ []))
    × (route get assign_path ≡ not_allowed)
    × (route get (end_path odd_id) ≡ not_allowed)
route-end_path_example = route-end_path odd_id odd_id-bytes odd_id-IsSegment
