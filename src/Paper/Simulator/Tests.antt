-- ===== src/Paper/Simulator/Tests.antt =====
-- A simulated trade at 10:00 IST, and the simulator's theorems on it.
use trader_ai.Common.{
  ℕ, ◌+◌, ◌*◌, ◌≡◌, refl, inl, true, none, some, List, [], ◌∷◌, arith, keep_if, ◌+ℤ◌, ◌-ℤ◌, ◌*ℤ◌,
  quantize, pos, negsuc, str, obj, end, field, minute_us, ist_date, ist_time,
}
use trader_ai.Paper.Schemas.{
  CompletedBar, PaperConfig, PaperSignal, PaperInstruction, Rejection, rejected_outcome,
  no_fill_outcome, completed_trade_outcome, paper, stop_hit, invalid_signal_context,
}
use trader_ai.Paper.Simulator.{
  signal_rejection, find_signal_candle, instruct_at, instruct_on, build_instruction, simulate,
  instruct, reject,
}
use trader_ai.Paper.Simulator.Instructions.{
  IsEligible, IsSound, build_instruction-IsSound, build_instruction-IsEligible,
}
use trader_ai.Paper.Simulator.Exits.{future_of, Simulates, simulate-Simulates}
use trader_ai.Paper.Simulator.Profit.{IsAccounted, simulate-IsAccounted}
use trader_ai.Paper.Simulator.Lookahead.{simulate-irrelevant, up_to, simulate-no_lookahead}

abbrev pub clock : ℕ → ℕ → ℕ
clock hour minute = (hour * 60 + minute) * minute_us

abbrev pub config : PaperConfig
config = record {
  enabled = true;
  mode = paper;
  max_trades_per_day = pos 2;
  default_quantity = pos 3;
  entry_buffer_pct = pos 0;
  stop_pct = pos 1_000_000;
  target_r_multiple = pos 2_000_000;
  force_flat_time_ist = clock 15 15;
  estimated_cost_per_trade = pos 20_000_000;
}

-- 04:30 UTC is 10:00 in India.
abbrev pub signal : PaperSignal
signal = record {
  id = 5;
  instrument_id = 1;
  signal_key = "k";
  symbol = "NSE:SBIN";
  strategy_name = "opening_range_breakout_long";
  strategy_version = "p05_v1";
  signal_status = "CANDIDATE";
  signal_time = clock 4 30;
  direction = "LONG";
  veto_reasons = [];
  features =
      field "signal_status" (str "CANDIDATE")
        (field "indicator_values" (obj end) (field "data_quality" (obj end) end));
  replay_run_id = none;
}

-- Low, high and close in whole rupees.
abbrev bar : ℕ → ℕ → ℕ → ℕ → ℕ → CompletedBar
bar hour minute low high close = record {
  instrument_id = 1;
  symbol = "NSE:SBIN";
  timeframe = "1minute";
  started_at = clock hour minute;
  open_price = pos (low * 1_000_000);
  high_price = pos (high * 1_000_000);
  low_price = pos (low * 1_000_000);
  close_price = pos (close * 1_000_000);
  volume = 100;
}

abbrev pub candles : List CompletedBar
candles =
    bar 4 33 98 101 100 ∷ bar 4 30 99 101 100 ∷ bar 4 31 100 101 100 ∷ bar 4 32 100 101 100 ∷ []

abbrev pub instruction : PaperInstruction
instruction = record {
  signal_id = 5;
  signal_key = "k";
  symbol = "NSE:SBIN";
  strategy_name = "opening_range_breakout_long";
  signal_time = clock 4 30;
  entry_reference_price = pos 100_000_000;
  stop_price = pos 99_000_000;
  target_price = pos 102_000_000;
  quantity = pos 3;
  paper_max_risk = pos 3_000_000;
  paper_mode = paper;
  estimated_costs = pos 20_000_000;
  simulated = true;
}

builds : build_instruction signal candles config ≡ instruct instruction
unfolding build_instruction signal_rejection instruct_at quantize ◌+ℤ◌ ◌-ℤ◌ ◌*ℤ◌
builds = refl

stops_out :
    let r = simulate instruction candles config in
    (r.exit_reason ≡ stop_hit)
    × (r.exit_time ≡ some (clock 4 33))
    × (r.gross_pnl ≡ negsuc 2_999_999)
    × (r.net_estimated_pnl ≡ negsuc 22_999_999)
unfolding simulate completed_trade_outcome no_fill_outcome ◌-ℤ◌ ◌*ℤ◌ ist_date ist_time
stops_out = (refl, refl, refl, refl)

build_instruction-IsSound_example :
    IsEligible signal
    × ((c : CompletedBar) × (find_signal_candle signal candles ≡ some c)
        × (c.started_at ≡ signal.signal_time)
        × (instruct_at signal config c ≡ instruct instruction))
    × IsSound instruction
build_instruction-IsSound_example =
    build_instruction-IsSound signal candles config instruction builds

build_instruction-IsEligible_example :
    (IsEligible signal
      → build_instruction signal candles config
        ≡ instruct_on signal config (find_signal_candle signal candles))
    × (¬ IsEligible signal
        → (why : Rejection) × (build_instruction signal candles config
            ≡ reject (rejected_outcome signal config invalid_signal_context why)))
build_instruction-IsEligible_example = build_instruction-IsEligible signal candles config

simulate-Simulates_example :
    Simulates instruction config
      (future_of instruction candles)
      (simulate instruction candles config)
simulate-Simulates_example = simulate-Simulates instruction candles config

-- A candle at the time of the signal, which would reach the stop.
simulate-irrelevant_example :
    simulate instruction
      (record (bar 4 31 90 120 110) { started_at = instruction.signal_time } ∷ candles)
      config
    ≡ simulate instruction candles config
simulate-irrelevant_example =
    simulate-irrelevant instruction [] candles _ config (inl (omega arith))

abbrev later : List CompletedBar
later = bar 4 40 90 120 110 ∷ candles

simulate-no_lookahead_example :
    simulate instruction later config
    ≡ simulate instruction (keep_if (up_to (clock 4 33)) later) config
unfolding simulate completed_trade_outcome no_fill_outcome ist_date ist_time
simulate-no_lookahead_example = simulate-no_lookahead instruction later config (clock 4 33) refl

simulate-IsAccounted_example : IsAccounted instruction (simulate instruction candles config)
simulate-IsAccounted_example = simulate-IsAccounted signal candles config instruction builds
