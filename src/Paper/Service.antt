-- ===== src/Paper/Service.antt =====
-- backend/app/paper/service.py: the replay over the stored candidates.
pub mod Keeps
pub mod Trades
pub mod Runs
pub mod Caps
mod Tests
use trader_ai.Common.{
  ℕ, ◌+◌, ◌-◌, ◌*◌, String, Option, none, some, List, [], ◌∷◌, map, if◌then◌else◌, ℤ, pos_part,
  ltb_ℤ, max_ℤ, min_ℤ, pos, minute_us, day_us, ist_offset_us, ist_date,
}
use trader_ai.Paper.Schemas.{
  CompletedBar, PaperExitReason, PaperConfig, PaperSignal, Rejection, PaperSimulationResult,
  rejected_outcome, off, shadow, paper, live, duplicate_signal, mode_disabled, repeated_signal,
  paper_max_trades_per_day_invalid, paper_max_trades_per_day_reached,
}
use trader_ai.Paper.Simulator.{Built, build_instruction, simulate, instruct, reject}
use mathlib.Core.Option
use trader_ai.Paper.Repository.{
  Store, load_candidate_signals, load_candles, paper_trade_exists, count_paper_trades_for_day,
  record_paper_outcome,
}

-- exceptions.py
pub data PaperError : Type 0 where
  live_mode_not_implemented paper_disabled paper_mode_disabled paper_config : PaperError

-- `_ensure_replay_allowed`, by the error that it raises.
unfoldable pub replay_error : PaperConfig → Option PaperError
replay_error config = elim config.mode [
  | live ↦ some live_mode_not_implemented
  | off ↦ (if config.enabled then some paper_mode_disabled else some paper_disabled)
  | shadow ↦ (if config.enabled then some paper_mode_disabled else some paper_disabled)
  | paper ↦ (if config.enabled then none else some paper_disabled)
]

abbrev pub paper_candle_limit : ℕ
paper_candle_limit = 100_000

-- `_default_replay_end`: 23:59 of the signal's day in India.
unfoldable pub default_replay_end : ℕ → ℕ
default_replay_end signal_time =
    ist_date signal_time * day_us + (23 * 60 + 59) * minute_us - ist_offset_us

abbrev pub stop_or_default : Option ℕ → ℕ → ℕ
stop_or_default none signal_time = default_replay_end signal_time
stop_or_default (some t) signal_time = t

abbrev pub duplicate_outcome : PaperSignal → PaperConfig → PaperSimulationResult
duplicate_outcome signal config =
    rejected_outcome signal config PaperExitReason.duplicate_signal repeated_signal

-- The reason of `_daily_cap_outcome_if_reached`.
unfoldable pub cap_rejection : Store → PaperConfig → PaperSignal → Option Rejection
cap_rejection store config signal =
    if ltb_ℤ config.max_trades_per_day (pos 1)
    then some paper_max_trades_per_day_invalid
    else if ltb_ℤ (pos (count_paper_trades_for_day store signal.signal_time))
        config.max_trades_per_day
    then none
    else some paper_max_trades_per_day_reached

-- An instruction is simulated; a rejection is the outcome.
abbrev pub outcome_of : Built → List CompletedBar → PaperConfig → PaperSimulationResult
outcome_of (instruct i) candles config = simulate i candles config
outcome_of (reject outcome) candles config = outcome

unfoldable pub simulated_outcome :
    Store → PaperConfig → Option ℕ → PaperSignal → PaperSimulationResult
simulated_outcome store config stop signal =
    let candles =
      load_candles store signal.symbol signal.signal_time (stop_or_default stop signal.signal_time)
        paper_candle_limit in
    outcome_of (build_instruction signal candles config) candles config

-- Writes the outcome; a duplicate found by the store is written as a rejection instead.
abbrev pub record_or_reject :
    Option Store
    → Store
    → PaperConfig
    → PaperSignal
    → PaperSimulationResult
    → Option (Store × PaperSimulationResult)
record_or_reject (some store') store config signal outcome = some (store', outcome)
record_or_reject none store config signal outcome =
    Option.map (λ s. (s, duplicate_outcome signal config))
      (record_paper_outcome store signal (duplicate_outcome signal config))

abbrev pub reject_with :
    Store → PaperSignal → PaperSimulationResult → Option (Store × PaperSimulationResult)
reject_with store signal outcome =
    Option.map (λ s. (s, outcome)) (record_paper_outcome store signal outcome)

-- The body of the loop of `run_replay` after the duplicate test.
abbrev pub replay_new :
    Option Rejection
    → Store
    → PaperConfig
    → Option ℕ
    → PaperSignal
    → Option (Store × PaperSimulationResult)
replay_new (some why) store config stop signal =
    reject_with store signal (rejected_outcome signal config mode_disabled why)
replay_new none store config stop signal =
    let outcome = simulated_outcome store config stop signal in
    record_or_reject (record_paper_outcome store signal outcome) store config signal outcome

-- The body of the loop of `run_replay`. `none` is an uncaught `DuplicatePaperTradeError`.
unfoldable pub replay_signal :
    Store → PaperConfig → Option ℕ → PaperSignal → Option (Store × PaperSimulationResult)
replay_signal store config stop signal =
    if paper_trade_exists store signal.id
    then reject_with store signal (duplicate_outcome signal config)
    else replay_new (cap_rejection store config signal) store config stop signal

unfoldable pub replay_signals :
    Store → PaperConfig → Option ℕ → List PaperSignal → Option (Store × List PaperSimulationResult)
replay_signals store config stop [] = some (store, [])
replay_signals store config stop (signal ∷ rest) = elim (replay_signal store config stop signal) [
  | none ↦ none
  | some (store', outcome) ↦
      Option.map (λ r. (r.0, outcome ∷ r.1)) (replay_signals store' config stop rest)
]

-- How `run_replay` ends: a `PaperError` before anything is read, or the store and the outcomes.
pub data Replay : Type 0 where
  refused : PaperError → Replay
  raised : Replay
  replayed : Store → List PaperSimulationResult → Replay

abbrev pub finish : Option (Store × List PaperSimulationResult) → Replay
finish none = raised
finish (some (store, outcomes)) = replayed store outcomes

abbrev pub bounded_limit : ℤ → ℕ
bounded_limit n = pos_part (max_ℤ (pos 1) (min_ℤ n (pos 500)))

abbrev pub run_allowed :
    Option PaperError → Store → PaperConfig → Option String → Option ℕ → Option ℕ → ℤ → Replay
run_allowed (some e) store config symbol start stop bound = refused e
run_allowed none store config symbol start stop bound = finish (
    replay_signals store config stop
      (load_candidate_signals store symbol start stop (bounded_limit bound)))

unfoldable pub run_replay : Store → PaperConfig → Option String → Option ℕ → Option ℕ → ℤ → Replay
run_replay store config symbol start stop bound =
    run_allowed (replay_error config) store config symbol start stop bound
