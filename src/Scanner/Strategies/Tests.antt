-- ===== src/Scanner/Strategies/Tests.antt =====
-- An opening range breakout, evaluated.
use trader_ai.Common.{
  ◌*◌, String, ◌≡◌, refl, ◌↔◌, true, false, none, some, [], ◌∷◌, str_eq, is_some, pos, minute_us,
  ist_time,
}
use trader_ai.Paper.Schemas.{CompletedBar}
use trader_ai.Scanner.Schemas.{ScannerConfig, IndicatorSnapshot, DataQuality, candidate}
use trader_ai.Scanner.Vetoes.{orb, pullback, hard_vetoes}
use trader_ai.Scanner.Strategies.{
  future_live_qualification, Evaluation, evaluation, evaluate_strategy,
}
use trader_ai.Scanner.Strategies.Tradable.{IsTradable}
use trader_ai.Scanner.Strategies.Candidates.{
  evaluate_strategy-IsTradable, evaluate_strategy-IsQualified,
}

abbrev config : ScannerConfig
config = record {
  enabled = true;
  strategies = orb ∷ pullback ∷ [];
  observation_mode = "SHADOW";
  future_live_eligible_strategy = orb;
  opening_range_minutes = pos 15;
  stale_after_seconds = pos 180;
  min_volume_ratio = pos 1_000_000;
  max_spread_pct = pos 200_000;
  require_spread_for_future_live = true;
  benchmark_symbol = none;
}

abbrev quality : DataQuality
quality = record {
  history_complete = true;
  quote_fresh = false;
  spread_available = false;
  candle_continuity_ok = true;
  session_start_available = true;
  opening_range_complete = true;
  current_session_complete_through_latest = true;
}

abbrev indicators : IndicatorSnapshot
indicators = record {
  ema_9 = some (pos 101_000_000);
  ema_20 = some (pos 100_000_000);
  ema_50 = some (pos 99_000_000);
  rsi_14 = some (pos 60_000_000);
  atr_14 = some (pos 1_000_000);
  vwap = some (pos 100_000_000);
  opening_range_high = some (pos 101_000_000);
  opening_range_low = some (pos 98_000_000);
  previous_day_high = none;
  previous_day_low = none;
  volume_ratio = some (pos 1_500_000);
  relative_index_move = none;
  spread_pct = none;
}

-- 10:00 IST
abbrev latest : CompletedBar
latest = record {
  instrument_id = 1;
  symbol = "NSE:SBIN";
  timeframe = "1minute";
  started_at = 270 * minute_us;
  open_price = pos 101_000_000;
  high_price = pos 103_000_000;
  low_price = pos 100_000_000;
  close_price = pos 102_000_000;
  volume = 900;
}

abbrev upper : String → String
upper s = s

abbrev found : Evaluation
found = evaluation 1 "NSE:SBIN" orb latest indicators config [] false

finds :
    evaluate_strategy upper orb 1 "NSE:SBIN" (latest ∷ []) indicators quality config false
    ≡ some found
unfolding evaluate_strategy hard_vetoes ist_time evaluation future_live_qualification
finds = refl

refuses_other :
    evaluate_strategy upper "momentum" 1 "NSE:SBIN" (latest ∷ []) indicators quality config false
    ≡ none
unfolding evaluate_strategy
refuses_other = refl

not_qualified : found.qualification.future_live_qualified ≡ false
unfolding evaluation future_live_qualification
not_qualified = refl

evaluate_strategy-IsTradable_example :
    (found.status ≡ candidate)
    ↔ IsTradable upper orb "NSE:SBIN" (latest ∷ []) latest indicators quality config false
evaluate_strategy-IsTradable_example =
    evaluate_strategy-IsTradable upper orb "NSE:SBIN" 1 (latest ∷ []) latest indicators quality
      config false found finds refl

evaluate_strategy-IsQualified_example : (found.qualification.future_live_qualified ≡ true) ↔ (
    (found.status ≡ candidate)
    × (str_eq orb config.future_live_eligible_strategy ≡ true)
    × (config.require_spread_for_future_live ≡ true → is_some indicators.spread_pct ≡ true))
evaluate_strategy-IsQualified_example =
    evaluate_strategy-IsQualified upper orb "NSE:SBIN" 1 (latest ∷ []) latest indicators quality
      config false found finds refl
