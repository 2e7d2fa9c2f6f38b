-- ===== src/Paper/Service/Tests.antt =====
-- A replay of one stored candidate, and the theorems on it.
use trader_ai.Common.{
  ◌≤◌, ◌≡◌, refl, none, List, [], ◌∷◌, arith, length, ◌+ℤ◌, ◌-ℤ◌, ◌*ℤ◌, quantize, pos, ist_date,
  ist_time,
}
use trader_ai.Paper.Schemas.{PaperSimulationResult, no_fill_outcome, completed_trade_outcome}
use trader_ai.Paper.Simulator.{signal_rejection, instruct_at, build_instruction, simulate}
use trader_ai.Paper.Simulator.Tests.{clock, config, signal, candles, instruction}
use trader_ai.Paper.Repository.{
  Store, load_candidate_signals, load_candles, paper_trade_exists, count_paper_trades_for_day,
  record_paper_outcome,
}
use trader_ai.Paper.Service.{
  replay_error, default_replay_end, cap_rejection, simulated_outcome, replay_signal, replay_signals,
  run_replay, replayed,
}
use trader_ai.Paper.Service.Keeps.{recorded}
use trader_ai.Paper.Service.Trades.{Replays, IsSingle, selected}
use trader_ai.Paper.Service.Runs.{run_replay-Replays, run_replay-IsSingle}
use trader_ai.Paper.Service.Caps.{run_replay-cap}

abbrev store : Store
store = record {
  signals = signal ∷ [];
  candles_by_symbol = ("NSE:SBIN", candles) ∷ [];
  orders = [];
  order_events = [];
  trades = [];
  journal = [];
}

abbrev outcome : PaperSimulationResult
outcome = simulate instruction candles config

abbrev after : Store
after = recorded store signal outcome

runs : run_replay store config none none none (pos 10) ≡ replayed after (outcome ∷ [])
unfolding run_replay replay_error replay_signals replay_signal load_candidate_signals load_candles
    paper_trade_exists cap_rejection count_paper_trades_for_day simulated_outcome
    record_paper_outcome build_instruction signal_rejection instruct_at quantize simulate
    completed_trade_outcome no_fill_outcome default_replay_end ist_date ist_time ◌+ℤ◌ ◌-ℤ◌ ◌*ℤ◌
runs = refl

traded : length after.trades ≡ 1
unfolding simulate completed_trade_outcome no_fill_outcome ist_date ist_time ◌-ℤ◌ ◌*ℤ◌
traded = refl

run_replay-Replays_example :
    (after : Store) × (outcomes : List PaperSimulationResult) × (run_replay store config none none
        none
        (pos 10)
      ≡ replayed after outcomes)
    × Replays store (selected store none none none (pos 10)) after outcomes
run_replay-Replays_example = run_replay-Replays store config none none none (pos 10) refl refl

run_replay-IsSingle_example : IsSingle after
run_replay-IsSingle_example =
    run_replay-IsSingle store config none none none (pos 10) after (outcome ∷ []) runs (tt, tt)

run_replay-cap_example : count_paper_trades_for_day after (clock 5 0) ≤ 2
unfolding count_paper_trades_for_day
run_replay-cap_example =
    run_replay-cap store config none none none (pos 10) after (outcome ∷ []) (clock 5 0) runs
      (refl, tt) (omega arith)
