-- ===== src/Analysis/Sessions/Scopes.antt =====
-- The scopes of a feature input: the day of the newest candle, and the session before it.
use trader_ai.Common.{ℕ, ◌≤◌, ◌<◌, ◌≡◌, ◌≢◌, ◌⊎◌, true, Option, none, some, List, [], keep_if, All}
use trader_ai.Paper.Schemas.{CompletedBar}
use trader_ai.Analysis.Sessions.{session_date, is_regular_session_bar, is_of_day, FeatureInput}

-- No day of the bars is after `d` and before `day`.
abbrev pub NoneBetween : ℕ → ℕ → List CompletedBar → Type 0
NoneBetween d day bars = All (λ (b : CompletedBar). session_date b < day → session_date b ≤ d) bars

abbrev pub NoneBefore : ℕ → List CompletedBar → Type 0
NoneBefore day bars = All (λ (b : CompletedBar). day ≤ session_date b) bars

abbrev IsLatest : ℕ → List CompletedBar → Option ℕ → Type 0
IsLatest day bars none = NoneBefore day bars
IsLatest day bars (some d) = (d < day) × NoneBetween d day bars × (keep_if (is_of_day d) bars ≢ [])

pub record IsScoped (day : ℕ) (input : FeatureInput) : Type 0 where
  pub regular : All (λ (b : CompletedBar). is_regular_session_bar b ≡ true) input.trailing_bars
  pub current : All (λ (b : CompletedBar). session_date b ≡ day) input.current_session_bars
  pub prior :
      ((input.prior_session_bars ≡ []) × NoneBefore day input.trailing_bars)
      ⊎ ((d : ℕ) × (d < day)
          × NoneBetween d day input.trailing_bars
          × (input.prior_session_bars ≢ [])
          × All (λ (b : CompletedBar). session_date b ≡ d) input.prior_session_bars)
