-- ===== src/Scanner/Service.antt =====
-- backend/app/scanners/service.py: the evaluation of one symbol. The indicators of a list of bars
-- (with those of the benchmark) are given, and so are `str.upper` and `isoformat`.
pub mod Batch
pub mod Replay
pub mod Lookahead
pub mod Totals
pub mod Accounts
pub mod Stored
pub mod Rerun
pub mod Repeats
mod Tests
use Prim.Native.String.{◌++◌ as append_text}
use trader_ai.Common.{
  ℕ, ◌+◌, ◌*◌, String, Bool, false, not, ◌&&◌, ◌||◌, Option, none, some, List, [], ◌∷◌, ◌++◌,
  str_eq, ltb, if◌then◌else◌, length, last_of, ℤ, pos_part, neg_part, ltb_ℤ, pos, second_us,
  minute_us,
}
use trader_ai.Scanner.Schemas.{ScannerConfig, IndicatorSnapshot, Status}
use trader_ai.Paper.Schemas.{CompletedBar, live}
use trader_ai.Scanner.Signals.{
  Repository, load_completed_bars, Tally, no_tally, count_evaluation, persist, Run, ran, raised,
}
use trader_ai.Scanner.Strategies.{is_candidate, Evaluation, evaluate_strategy}
use trader_ai.Analysis.Sessions.{
  build_feature_input, session_start_available, candle_continuity_ok, data_quality,
}

abbrev pub history_bar_limit : ℕ
history_bar_limit = 800

abbrev pub replay_bar_limit : ℕ
replay_bar_limit = 100_000

pub data SkipReason : Type 0 where
  no_completed_candles insufficient_session_candles session_start_missing : SkipReason
  session_candle_gap : SkipReason

pub record Policy : Type 0 where
  pub store_rejections : Bool
  pub dry_run : Bool
  pub min_candles : ℤ
  pub require_session_start : Bool
  pub require_continuity : Bool

pub record SymbolResult : Type 0 where
  pub symbol : String
  pub tally : Tally
  pub skipped_reason : Option SkipReason
  pub error : Bool

-- The tests of `_run_symbol` that skip a symbol with candles; a comparison with 0 is false.
abbrev pub session_skip : Policy → String → List CompletedBar → Option SkipReason
session_skip policy timeframe session =
    if ltb_ℤ (pos (length session)) policy.min_candles
    then some insufficient_session_candles
    else if policy.require_session_start && not (session_start_available session)
    then some session_start_missing
    else if policy.require_continuity && not (candle_continuity_ok session timeframe)
    then some session_candle_gap
    else none

abbrev pub skip_reason : Policy → String → List CompletedBar → Option SkipReason
skip_reason policy timeframe [] = some no_completed_candles
skip_reason policy timeframe (b ∷ bs) =
    session_skip policy timeframe (build_feature_input (b ∷ bs)).current_session_bars

-- `_latest_completed_bar_is_stale`
abbrev pub is_stale_at : ScannerConfig → ℕ → Option String → Option CompletedBar → Bool
is_stale_at config now (some run_id) latest = false
is_stale_at config now none none = false
is_stale_at config now none (some latest) =
    ltb (latest.started_at + 2 * minute_us + pos_part config.stale_after_seconds * second_us)
      (now + neg_part config.stale_after_seconds * second_us)

abbrev pub or_live : Option String → String
or_live none = "live"
or_live (some run_id) = if str_eq run_id "" then "live" else run_id

abbrev pub with_colon : String → String → String
with_colon a b = append_text a (append_text ":" b)

-- `":".join(signal_key_parts)` of `_evaluation`
abbrev pub signal_key : (ℕ → String) → Option String → String → String → String → ℕ → String
signal_key iso run_id symbol timeframe name started_at = with_colon (or_live run_id) (
    with_colon symbol
      (with_colon timeframe (with_colon name (with_colon "p05_v1" (iso started_at)))))

abbrev pub symbol_result : String → Run → Option SymbolResult × Repository
symbol_result symbol (raised repo) = (none, repo)
symbol_result symbol (ran t repo) =
    (some (record { symbol = symbol; tally = t; skipped_reason = none; error = false }), repo)

-- `should_persist and not dry_run`
abbrev pub is_wanted : Policy → Status → Bool
is_wanted policy status = (is_candidate status || policy.store_rejections) && not policy.dry_run

abbrev pub benchmark_bars : String → Repository → Option String → Option (List CompletedBar)
benchmark_bars timeframe repo none = none
benchmark_bars timeframe repo (some symbol) =
    some (load_completed_bars repo symbol timeframe history_bar_limit)

module _ (upper : String → String) (iso : ℕ → String)
    (indicators : List CompletedBar → Option (List CompletedBar) → IndicatorSnapshot)
    (config : ScannerConfig) where
  -- `evaluate_strategy` on the features of the bars, with no quote.
  unfoldable pub evaluate_bars :
      String
      → ℕ
      → String
      → String
      → List CompletedBar
      → Option (List CompletedBar)
      → Bool
      → Option Evaluation
  evaluate_bars name instrument_id symbol timeframe bars benchmark is_stale =
      let snapshot = indicators bars benchmark in
      evaluate_strategy upper name instrument_id symbol bars snapshot
        (data_quality (build_feature_input bars) snapshot false timeframe
          config.opening_range_minutes)
        config is_stale

  -- The loop over the strategies, where `wanted` tells which statuses are to be stored.
  abbrev pub run_strategies :
      (Status → Bool)
      → Option String
      → ℕ
      → String
      → String
      → List CompletedBar
      → Option (List CompletedBar)
      → Bool
      → List String
      → Tally
      → Repository
      → Run
  run_strategies wanted run_id id symbol timeframe bars benchmark stale [] t repo = ran t repo
  run_strategies wanted run_id id symbol timeframe bars benchmark stale (name ∷ names) t repo =
      elim (evaluate_bars name id symbol timeframe bars benchmark stale) [
        | none ↦ raised repo
        | some e ↦
            let key = signal_key iso run_id symbol timeframe name e.signal_time in
            let next = persist (wanted e.status) key e (count_evaluation e t) repo in
            run_strategies wanted run_id id symbol timeframe bars benchmark stale names next.0
              next.1
      ]

  abbrev pub scan_bars :
      Policy
      → ℕ
      → Option String
      → String
      → String
      → List CompletedBar
      → Option CompletedBar
      → Repository
      → Run
  scan_bars policy now run_id symbol timeframe bars none repo = raised repo
  scan_bars policy now run_id symbol timeframe bars (some latest) repo =
      run_strategies (is_wanted policy) run_id latest.instrument_id symbol timeframe bars
        (benchmark_bars timeframe repo config.benchmark_symbol)
        (is_stale_at config now run_id (some latest)) config.strategies no_tally repo

  abbrev pub skip_or_scan :
      Policy
      → ℕ
      → Option String
      → String
      → String
      → List CompletedBar
      → Option SkipReason
      → Repository
      → Option SymbolResult × Repository
  skip_or_scan policy now run_id symbol timeframe bars (some reason) repo = (
    some
        (record { symbol = symbol; tally = no_tally; skipped_reason = some reason; error = false }),
    repo,
  )
  skip_or_scan policy now run_id symbol timeframe bars none repo =
      symbol_result symbol (scan_bars policy now run_id symbol timeframe bars (last_of bars) repo)

  -- `_run_symbol`; `none` is an exception.
  unfoldable pub run_symbol :
      Policy → ℕ → Option String → String → String → Repository → Option SymbolResult × Repository
  run_symbol policy now run_id symbol timeframe repo =
      let bars = load_completed_bars repo symbol timeframe history_bar_limit in
      skip_or_scan policy now run_id symbol timeframe bars (skip_reason policy timeframe bars) repo
