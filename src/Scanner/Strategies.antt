-- ===== src/Scanner/Strategies.antt =====
-- backend/app/scanners/strategies.py, from the indicators and the data quality that
-- `build_feature_snapshot` gives for the bars. `upper` is `str.upper`.
pub mod Tradable
pub mod Candidates
mod Tests
use mathlib.Core.Option
use trader_ai.Common.{
  ℕ, String, Bool, true, false, not, ◌&&◌, ◌||◌, Option, none, some, List, [], ◌∷◌, ◌++◌, map,
  str_eq, if◌then◌else◌, is_some, last_of, text_comparable, number_comparable, contains, unique, ℤ,
  ltb_ℤ, leb_ℤ,
}
use trader_ai.Paper.Schemas.{CompletedBar}
use trader_ai.Scanner.Schemas.{
  ScannerConfig, IndicatorSnapshot, DataQuality, Status, Veto, veto_comparable, candidate,
  rejected_signal, spread_too_wide, invalid_indicator_state,
}
use trader_ai.Scanner.Vetoes.{orb, pullback, append_if, hard_vetoes}

-- `x is not None and ... and x > y`, for optional amounts.
abbrev pub above : Option ℤ → Option ℤ → Bool
above (some x) (some y) = ltb_ℤ y x
above _ _ = false

abbrev pub at_least : Option ℤ → Option ℤ → Bool
at_least (some x) (some y) = leb_ℤ y x
at_least _ _ = false

-- The `condition` of `_opening_range_breakout_long`.
abbrev pub breaks_out : CompletedBar → IndicatorSnapshot → ScannerConfig → Bool
breaks_out latest indicators config =
    above (some latest.close_price) indicators.opening_range_high
    && (above indicators.ema_9 indicators.ema_20
        && (above (some latest.close_price) indicators.vwap
            && at_least indicators.volume_ratio (some config.min_volume_ratio)))

-- `bars[-2] if len(bars) >= 2 else None`
abbrev pub before_last : List CompletedBar → Option CompletedBar
before_last [] = none
before_last (x ∷ []) = none
before_last (x ∷ y ∷ []) = some x
before_last (x ∷ y ∷ z ∷ rest) = before_last (y ∷ z ∷ rest)

-- The `condition` of `_vwap_pullback_continuation_long`.
abbrev pub pulls_back :
    Option CompletedBar → CompletedBar → IndicatorSnapshot → ScannerConfig → Bool
pulls_back none latest indicators config = false
pulls_back (some previous) latest indicators config =
    at_least indicators.ema_9 indicators.ema_20
    && (at_least indicators.vwap (some previous.close_price)
        && (above (some latest.close_price) indicators.vwap
            && (ltb_ℤ previous.high_price latest.close_price
                && at_least indicators.volume_ratio (some config.min_volume_ratio))))

pub data Warning : Type 0 where
  spread_validation_missing latest_bar_stale : Warning

pub record Qualification : Type 0 where
  pub observation_mode : String
  pub eligible_strategy : Bool
  pub spread_required : Bool
  pub spread_validated : Bool
  pub future_live_qualified : Bool
  pub warnings : List Warning

abbrev pub is_candidate : Status → Bool
is_candidate candidate = true
is_candidate rejected_signal = false

abbrev pub warn_if : Bool → Warning → List Warning → List Warning
warn_if true w warnings = warnings ++ w ∷ []
warn_if false w warnings = warnings

unfoldable pub future_live_qualification :
    ScannerConfig → String → Option ℤ → Status → List Veto → Bool → Qualification
future_live_qualification config strategy_name spread status veto_reasons is_stale =
    let eligible_strategy = str_eq strategy_name config.future_live_eligible_strategy in
    let spread_required = eligible_strategy && config.require_spread_for_future_live in
    let spread_validated = is_some spread in
    record {
      observation_mode = config.observation_mode;
      eligible_strategy = eligible_strategy;
      spread_required = spread_required;
      spread_validated = spread_validated;
      future_live_qualified =
          eligible_strategy
          && (is_candidate status
              && ((not spread_required || spread_validated)
                  && (not (contains spread_too_wide veto_reasons) && not is_stale)));
      warnings =
          warn_if is_stale latest_bar_stale
            (warn_if (spread_required && not spread_validated) spread_validation_missing []);
    }

pub record Evaluation : Type 0 where
  pub instrument_id : ℕ
  pub symbol : String
  pub strategy_name : String
  pub status : Status
  pub signal_time : ℕ
  pub veto_reasons : List Veto
  pub qualification : Qualification

-- `REJECTED_SIGNAL if vetoes else CANDIDATE`
abbrev pub status_of : List Veto → Status
status_of [] = candidate
status_of (v ∷ vs) = rejected_signal

-- `_evaluation`
unfoldable pub evaluation :
    ℕ
    → String
    → String
    → CompletedBar
    → IndicatorSnapshot
    → ScannerConfig
    → List Veto
    → Bool
    → Evaluation
evaluation instrument_id symbol strategy_name latest indicators config vetoes is_stale =
    let status = status_of vetoes in
    let final_vetoes = unique vetoes in
    record {
      instrument_id = instrument_id;
      symbol = symbol;
      strategy_name = strategy_name;
      status = status;
      signal_time = latest.started_at;
      veto_reasons = final_vetoes;
      qualification =
          future_live_qualification config strategy_name indicators.spread_pct status final_vetoes
            is_stale;
    }

-- The condition of the strategy; none for an unsupported strategy.
abbrev pub condition_of :
    String → List CompletedBar → CompletedBar → IndicatorSnapshot → ScannerConfig → Option Bool
condition_of strategy_name bars latest indicators config =
    if str_eq strategy_name orb
    then some (breaks_out latest indicators config)
    else if str_eq strategy_name pullback
    then some (pulls_back (before_last bars) latest indicators config)
    else none

-- `none` is `ValueError` for an unsupported strategy, or `IndexError` for no bars.
unfoldable pub evaluate_strategy :
    (String → String)
    → String
    → ℕ
    → String
    → List CompletedBar
    → IndicatorSnapshot
    → DataQuality
    → ScannerConfig
    → Bool
    → Option Evaluation
evaluate_strategy upper name instrument_id symbol bars indicators quality config is_stale =
    let hard = hard_vetoes upper symbol bars indicators quality config name is_stale in
    elim (last_of bars) [
      | none ↦ none
      | some latest ↦
          Option.map
            (λ condition.
              evaluation instrument_id symbol name latest indicators config
                (append_if (not condition) invalid_indicator_state hard) is_stale)
            (condition_of name bars latest indicators config)
    ]
