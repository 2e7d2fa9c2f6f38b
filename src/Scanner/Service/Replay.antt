-- ===== src/Scanner/Service/Replay.antt =====
-- `run_replay` of backend/app/scanners/service.py.
use trader_ai.Common.{
  ℕ, String, Bool, true, false, not, Option, none, some, List, [], ◌∷◌, ◌++◌, str_eq, leb,
  if◌then◌else◌, keep_if,
}
use trader_ai.Scanner.Schemas.{ScannerConfig, IndicatorSnapshot, Status}
use trader_ai.Paper.Schemas.{CompletedBar}
use trader_ai.Paper.Simulator.{sort_bars}
use trader_ai.Scanner.Signals.{Repository, load_completed_bars, Tally, no_tally, Run, ran, raised}
use trader_ai.Scanner.Service.{replay_bar_limit, run_strategies}
use trader_ai.Scanner.Service.Batch.{Fallible, scanner_input, done, fails}

-- The rest of a loop, unless it raised.
abbrev pub and_then : Run → (Tally → Repository → Run) → Run
and_then (ran t repo) f = f t repo
and_then (raised repo) f = raised repo

-- `[bar for bar in benchmark_bars if bar.started_at <= current_bar.started_at]`
abbrev pub benchmark_until : CompletedBar → Option (List CompletedBar) → Option (List CompletedBar)
benchmark_until current none = none
benchmark_until current (some bars) =
    some (keep_if (λ (b : CompletedBar). leb b.started_at current.started_at) bars)

abbrev pub always : Status → Bool
always status = true

abbrev pub sorted_bars : Repository → String → Option String → Option (List CompletedBar)
sorted_bars repo timeframe none = none
sorted_bars repo timeframe (some symbol) =
    some (sort_bars (load_completed_bars repo symbol timeframe replay_bar_limit))

module _ (upper : String → String) (iso : ℕ → String)
    (indicators : List CompletedBar → Option (List CompletedBar) → IndicatorSnapshot)
    (config : ScannerConfig) (symbol timeframe run_id : String) where
  -- The body of the loop over the bars: `prefix` ends with the current bar.
  abbrev pub replay_bar :
      List CompletedBar → CompletedBar → Option (List CompletedBar) → Tally → Repository → Run
  replay_bar prefix current benchmark t repo =
      run_strategies upper iso indicators config always (some run_id) current.instrument_id symbol
        timeframe prefix (benchmark_until current benchmark) false config.strategies t repo

  -- The loop over the bars that are left, after those of `before`.
  abbrev pub replay_bars :
      List CompletedBar → List CompletedBar → Option (List CompletedBar) → Tally → Repository → Run
  replay_bars before [] benchmark t repo = ran t repo
  replay_bars before (current ∷ rest) benchmark t repo =
      and_then (replay_bar (before ++ current ∷ []) current benchmark t repo)
        (replay_bars (before ++ current ∷ []) rest benchmark)

  -- `run_replay`
  unfoldable pub run_replay : Repository → Fallible Run
  run_replay repo =
      if not (str_eq timeframe "1minute")
      then fails scanner_input
      else done (
          replay_bars [] (sort_bars (load_completed_bars repo symbol timeframe replay_bar_limit))
            (sorted_bars repo timeframe config.benchmark_symbol) no_tally repo)
