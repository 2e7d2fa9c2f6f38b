-- ===== src/Scanner/Service/Tests.antt =====
-- A batch and a replay over two candles of one symbol, whose indicators are not known.
use trader_ai.Common.{
  ℕ, ◌*◌, String, ◌≡◌, refl, true, false, Option, none, some, List, [], ◌∷◌, arith, str_eq, nat_eq,
  if◌then◌else◌, text_comparable, number_comparable, IsDistinct, pos, minute_us, ist_time,
}
use trader_ai.Scanner.Schemas.{
  ScannerConfig, IndicatorSnapshot, veto_comparable, rejected_signal, missing_history,
}
use trader_ai.Paper.Schemas.{CompletedBar}
use trader_ai.Analysis.Sessions.{
  build_feature_input, has_continuous_current_session_prefix, opening_range_complete,
  candle_continuity_ok, data_quality,
}
use trader_ai.Scanner.Vetoes.{hard_vetoes}
use trader_ai.Scanner.Signals.{
  Repository, text_get, insert_signal, Tally, no_tally, count_evaluation, count_insert, Run,
}
use trader_ai.Scanner.Strategies.{
  future_live_qualification, Evaluation, evaluation, evaluate_strategy,
}
use trader_ai.Scanner.Service.{Policy, evaluate_bars, run_symbol}
use trader_ai.Scanner.Service.Batch.{
  Fallible, Request, BatchResult, batch_result, normalize_symbols, batch_symbols, run_batch, done,
}
use trader_ai.Scanner.Service.Replay.{and_then, replay_bars}
use trader_ai.Scanner.Service.Lookahead.{replay_bars-no_lookahead}
use trader_ai.Scanner.Service.Accounts.{IsBatch, run_batch-IsBatch}
use trader_ai.Scanner.Service.Stored.{names_of}
use trader_ai.Scanner.Service.Repeats.{run_batch-repeats, run_batch-IsDistinct}

abbrev same_text : String → String
same_text s = s

abbrev sbin : String → Option (String × String)
sbin s = if str_eq s "NSE:SBIN" then some ("NSE", "SBIN") else none

abbrev iso : ℕ → String
iso n = if nat_eq n 0 then "t0" else "t1"

abbrev unknown : IndicatorSnapshot
unknown = record {
  ema_9 = none;
  ema_20 = none;
  ema_50 = none;
  rsi_14 = none;
  atr_14 = none;
  vwap = none;
  opening_range_high = none;
  opening_range_low = none;
  previous_day_high = none;
  previous_day_low = none;
  volume_ratio = none;
  relative_index_move = none;
  spread_pct = none;
}

abbrev no_indicators : List CompletedBar → Option (List CompletedBar) → IndicatorSnapshot
no_indicators bars benchmark = unknown

abbrev config : ScannerConfig
config = record {
  enabled = true;
  strategies = "opening_range_breakout_long" ∷ [];
  observation_mode = "SHADOW";
  future_live_eligible_strategy = "opening_range_breakout_long";
  opening_range_minutes = pos 15;
  stale_after_seconds = pos 10;
  min_volume_ratio = pos 1_500_000;
  max_spread_pct = pos 200_000;
  require_spread_for_future_live = true;
  benchmark_symbol = none;
}

abbrev bar_at : ℕ → CompletedBar
bar_at t = record {
  instrument_id = 1;
  symbol = "NSE:SBIN";
  timeframe = "1minute";
  started_at = t;
  open_price = pos 100_000_000;
  high_price = pos 101_000_000;
  low_price = pos 99_000_000;
  close_price = pos 100_500_000;
  volume = 10;
}

abbrev all_policy : Policy
all_policy = record {
  store_rejections = true;
  dry_run = false;
  min_candles = pos 0;
  require_session_start = false;
  require_continuity = false;
}

abbrev request : Request
request = record {
  symbols = some ("NSE:SBIN" ∷ "NSE:SBIN" ∷ []);
  timeframe = "1minute";
  policy = all_policy;
  max_symbols = none;
  use_latest_universe = false;
  use_latest_default = false;
  max_instruments = pos 10;
  latest_universe = none;
  watchlist = done [];
}

abbrev old_evaluation : Evaluation
old_evaluation = record {
  instrument_id = 2;
  symbol = "NSE:TCS";
  strategy_name = "opening_range_breakout_long";
  status = rejected_signal;
  signal_time = 0;
  veto_reasons = missing_history ∷ [];
  qualification = record {
    observation_mode = "SHADOW";
    eligible_strategy = true;
    spread_required = true;
    spread_validated = false;
    future_live_qualified = false;
    warnings = [];
  };
}

abbrev repo : Repository
repo = record {
  bars_by_symbol = ("NSE:SBIN", bar_at 0 ∷ bar_at minute_us ∷ []) ∷ [];
  signals = ("old", old_evaluation) ∷ [];
}

abbrev clock : String → ℕ
clock s = 2 * minute_us

abbrev first : Fallible BatchResult × Repository
first = run_batch same_text same_text sbin iso no_indicators config clock request repo

batch_names :
    names_of first.1.signals
    ≡ "old" ∷ "live:NSE:SBIN:1minute:opening_range_breakout_long:p05_v1:t1" ∷ []
unfolding run_batch batch_symbols normalize_symbols run_symbol evaluate_bars evaluate_strategy
    evaluation insert_signal count_evaluation count_insert no_tally batch_result build_feature_input
    data_quality hard_vetoes future_live_qualification ist_time opening_range_complete
    has_continuous_current_session_prefix candle_continuity_ok
batch_names = refl

run_batch-IsBatch_example : IsBatch all_policy 1 repo first
run_batch-IsBatch_example =
    run_batch-IsBatch same_text same_text sbin iso no_indicators config clock request repo

run_batch-repeats_example :
    (run_batch same_text same_text sbin iso no_indicators config clock request first.1).1 ≡ first.1
run_batch-repeats_example =
    run_batch-repeats same_text same_text sbin iso no_indicators config clock request repo

run_batch-IsDistinct_example :
    IsDistinct (names_of first.1.signals) × (text_get "old" first.1.signals ≡ some old_evaluation)
run_batch-IsDistinct_example =
    run_batch-IsDistinct same_text same_text sbin iso no_indicators config clock request repo "old"
      old_evaluation (refl, tt) refl

abbrev replayed :
    List CompletedBar → List CompletedBar → List CompletedBar → Tally → Repository → Run
replayed before bars benchmark =
    replay_bars same_text iso no_indicators config "NSE:SBIN" "1minute" "r1" before bars
      (some benchmark)

replay_bars-no_lookahead_example :
    replayed [] (bar_at 0 ∷ bar_at minute_us ∷ []) (bar_at 0 ∷ bar_at minute_us ∷ []) no_tally repo
    ≡ and_then
        (replayed [] (bar_at 0 ∷ []) (bar_at 0 ∷ []) no_tally repo)
        (replayed (bar_at 0 ∷ []) (bar_at minute_us ∷ []) (bar_at 0 ∷ bar_at minute_us ∷ []))
replay_bars-no_lookahead_example =
    replay_bars-no_lookahead same_text iso no_indicators config "NSE:SBIN" "1minute" "r1"
      (bar_at minute_us ∷ []) (bar_at 0 ∷ []) (bar_at minute_us ∷ []) (bar_at 0 ∷ []) no_tally repo
      ((omega arith, tt), tt)
