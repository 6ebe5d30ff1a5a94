-- ===== src/Platform.antt =====
-- Go's package time, as far as the service uses it: parsing and printing of dates. These functions
-- are parameters of the model.
use vasuli.Prelude.{ℕ, String, Option}

pub record Platform : Type 0 where
  -- time.Parse("2006-01-02", s): the instant at which that day begins.
  pub parse_date : String → Option ℕ
  -- Format("2 January 2006").
  pub format_spoken : ℕ → String
  -- UTC().Format("2006-01-02").
  pub format_date : ℕ → String
  -- time.Unix(s, 0).
  pub of_unix : ℕ → ℕ
