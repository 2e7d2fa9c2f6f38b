-- ===== src/Paper/Simulator.antt =====
-- backend/app/paper/simulator.py. Percentages and multiples are `Decimal`s too, in units of
-- 10^-6, so that `1 + pct / 100` is `(10^8 + pct) / 10^8`.
pub mod Instructions
pub mod Exits
pub mod Profit
pub mod Lookahead
pub mod Tests
use trader_ai.Common.{
  ℕ, String, Bool, true, not, ◌&&◌, ◌||◌, Option, none, some, List, [], ◌∷◌, str_eq, ltb, leb,
  nat_eq, if◌then◌else◌, is_empty, keep_if, find_first, ℤ, ◌+ℤ◌, ◌-ℤ◌, ◌*ℤ◌, ltb_ℤ, leb_ℤ, quantize,
  pos, get_field, is_dict, is_text, is_blank_list, is_end, ist_date, ist_time,
}
use trader_ai.Paper.Schemas.{
  CompletedBar, PaperConfig, PaperSignal, PaperInstruction, Rejection, PaperSimulationResult,
  rejected_outcome, no_fill_outcome, completed_trade_outcome, stop_hit, target_hit, time_exit,
  force_flat, data_ended, invalid_signal_context, signal_is_not_candidate,
  signal_direction_not_long, candidate_has_veto_reasons, missing_signal_features,
  feature_snapshot_not_candidate, feature_snapshot_has_veto_reasons, missing_indicator_snapshot,
  missing_data_quality_snapshot, signal_candle_unavailable, invalid_entry_stop_context,
  invalid_paper_quantity, invalid_target_context,
}

abbrev pub candidate : String
candidate = "CANDIDATE"

abbrev pub long : String
long = "LONG"

abbrev pub hundred_pct : ℕ
hundred_pct = 100_000_000

abbrev pub one : ℕ
one = 1_000_000

-- `_validate_signal`, by its reason.
unfoldable pub signal_rejection : PaperSignal → Option Rejection
signal_rejection signal =
    if not (str_eq signal.signal_status candidate)
    then some signal_is_not_candidate
    else if not (str_eq signal.direction long)
    then some signal_direction_not_long
    else if not (is_empty signal.veto_reasons)
    then some candidate_has_veto_reasons
    else if is_end signal.features
    then some missing_signal_features
    else if not (is_text candidate (get_field "signal_status" signal.features))
    then some feature_snapshot_not_candidate
    else if not (is_blank_list (get_field "veto_reasons" signal.features))
    then some feature_snapshot_has_veto_reasons
    else if not (is_dict (get_field "indicator_values" signal.features))
    then some missing_indicator_snapshot
    else if not (is_dict (get_field "data_quality" signal.features))
    then some missing_data_quality_snapshot
    else none

-- `_find_signal_candle`
abbrev pub find_signal_candle : PaperSignal → List CompletedBar → Option CompletedBar
find_signal_candle signal =
    find_first (λ (candle : CompletedBar). nat_eq candle.started_at signal.signal_time)

-- A `PaperInstruction`, or the outcome of a rejection.
pub data Built : Type 0 where
  instruct : PaperInstruction → Built
  reject : PaperSimulationResult → Built

abbrev pub entry_price_of : PaperConfig → CompletedBar → ℤ
entry_price_of config candle =
    quantize (candle.close_price *ℤ (pos hundred_pct +ℤ config.entry_buffer_pct)) hundred_pct

abbrev pub stop_price_of : PaperConfig → ℤ → ℤ
stop_price_of config entry = quantize (entry *ℤ (pos hundred_pct -ℤ config.stop_pct)) hundred_pct

abbrev pub target_price_of : PaperConfig → ℤ → ℤ → ℤ
target_price_of config entry unit_risk =
    quantize (entry *ℤ pos one +ℤ config.target_r_multiple *ℤ unit_risk) one

abbrev pub invalid_context : PaperSignal → PaperConfig → Rejection → Built
invalid_context signal config why =
    reject (rejected_outcome signal config invalid_signal_context why)

-- `build_instruction` from the signal's candle on.
unfoldable pub instruct_at : PaperSignal → PaperConfig → CompletedBar → Built
instruct_at signal config candle =
    let entry = entry_price_of config candle in
    let stop = stop_price_of config entry in
    let unit_risk = entry -ℤ stop in
    let target = target_price_of config entry unit_risk in
    if leb_ℤ entry (pos 0) || leb_ℤ stop (pos 0) || leb_ℤ unit_risk (pos 0)
    then invalid_context signal config invalid_entry_stop_context
    else if ltb_ℤ config.default_quantity (pos 1)
    then invalid_context signal config invalid_paper_quantity
    else if leb_ℤ target entry
    then invalid_context signal config invalid_target_context
    else instruct (record {
      signal_id = signal.id;
      signal_key = signal.signal_key;
      symbol = signal.symbol;
      strategy_name = signal.strategy_name;
      signal_time = signal.signal_time;
      entry_reference_price = entry;
      stop_price = stop;
      target_price = target;
      quantity = config.default_quantity;
      paper_max_risk = unit_risk *ℤ config.default_quantity;
      paper_mode = config.mode;
      estimated_costs = config.estimated_cost_per_trade;
      simulated = true;
    })

abbrev pub instruct_on : PaperSignal → PaperConfig → Option CompletedBar → Built
instruct_on signal config none = invalid_context signal config signal_candle_unavailable
instruct_on signal config (some candle) = instruct_at signal config candle

abbrev pub build_unless : Option Rejection → PaperSignal → List CompletedBar → PaperConfig → Built
build_unless (some why) signal candles config = invalid_context signal config why
build_unless none signal candles config =
    instruct_on signal config (find_signal_candle signal candles)

unfoldable pub build_instruction : PaperSignal → List CompletedBar → PaperConfig → Built
build_instruction signal candles config =
    build_unless (signal_rejection signal) signal candles config

-- `sorted(candles, key=lambda candle: candle.started_at)`: stable.
abbrev pub insert_bar : CompletedBar → List CompletedBar → List CompletedBar
insert_bar c [] = c ∷ []
insert_bar c (d ∷ ds) =
    let rest = d ∷ insert_bar c ds in if leb c.started_at d.started_at then c ∷ d ∷ ds else rest

abbrev pub sort_bars : List CompletedBar → List CompletedBar
sort_bars [] = []
sort_bars (c ∷ cs) = insert_bar c (sort_bars cs)

-- `_at_or_after_force_flat`
abbrev pub at_or_after_force_flat : ℕ → PaperConfig → Bool
at_or_after_force_flat value config = leb config.force_flat_time_ist (ist_time value)

-- The filter of `same_day_future`.
abbrev pub is_same_day_future : PaperInstruction → CompletedBar → Bool
is_same_day_future instruction candle =
    nat_eq (ist_date candle.started_at) (ist_date instruction.signal_time)
    && ltb instruction.signal_time candle.started_at

-- The test of `entry_candle`.
abbrev pub is_entry : PaperInstruction → PaperConfig → CompletedBar → Bool
is_entry instruction config candle =
    not (at_or_after_force_flat candle.started_at config)
    && (leb_ℤ candle.low_price instruction.entry_reference_price
        && leb_ℤ instruction.entry_reference_price candle.high_price)

-- The loop over `exit_candles`, with `last_eligible`.
pub exit_loop :
    PaperInstruction
    → PaperConfig
    → CompletedBar
    → Option CompletedBar
    → List CompletedBar
    → PaperSimulationResult
exit_loop instruction config entry none [] =
    completed_trade_outcome instruction entry.started_at none none data_ended
exit_loop instruction config entry (some last) [] =
    completed_trade_outcome instruction entry.started_at (some last.started_at)
      (some last.close_price) time_exit
exit_loop instruction config entry last (candle ∷ rest) =
    if at_or_after_force_flat candle.started_at config
    then completed_trade_outcome instruction entry.started_at (some candle.started_at)
        (some candle.close_price) force_flat
    else if leb_ℤ candle.low_price instruction.stop_price
    then completed_trade_outcome instruction entry.started_at (some candle.started_at)
        (some instruction.stop_price) stop_hit
    else if leb_ℤ instruction.target_price candle.high_price
    then completed_trade_outcome instruction entry.started_at (some candle.started_at)
        (some instruction.target_price) target_hit
    else exit_loop instruction config entry (some candle) rest

-- `simulate` from the candle of the entry on; with no exit candle the loop ends at once as well.
abbrev pub simulate_from :
    PaperInstruction → PaperConfig → List CompletedBar → Option CompletedBar → PaperSimulationResult
simulate_from instruction config future none = no_fill_outcome instruction
simulate_from instruction config future (some entry) =
    exit_loop instruction config entry none
      (keep_if (λ (candle : CompletedBar). ltb entry.started_at candle.started_at) future)

unfoldable pub simulate : PaperInstruction → List CompletedBar → PaperConfig → PaperSimulationResult
unfolding exit_loop
simulate instruction candles config =
    let same_day_future = keep_if (is_same_day_future instruction) (sort_bars candles) in
    simulate_from instruction config same_day_future
      (find_first (is_entry instruction config) same_day_future)
