-- ===== src/Paper/Schemas.antt =====
-- backend/app/paper/schemas.py, with `CompletedBar` of backend/app/analysis/schemas.py. A
-- `Decimal` is in units of 10^-6; a set of string constants is a data type.
use trader_ai.Common.{
  ℕ, String, Bool, true, false, Option, none, some, List, ℤ, ◌-ℤ◌, ◌*ℤ◌, pos, Fields,
}

pub record CompletedBar : Type 0 where
  pub instrument_id : ℕ
  pub symbol : String
  pub timeframe : String
  pub started_at : ℕ
  pub open_price : ℤ
  pub high_price : ℤ
  pub low_price : ℤ
  pub close_price : ℤ
  pub volume : ℕ

pub data PaperMode : Type 0 where
  off shadow paper live : PaperMode

pub data PaperExitReason : Type 0 where
  no_fill stop_hit target_hit time_exit force_flat data_ended : PaperExitReason
  invalid_signal_context duplicate_signal mode_disabled live_not_implemented : PaperExitReason

pub record PaperConfig : Type 0 where
  pub enabled : Bool
  pub mode : PaperMode
  pub max_trades_per_day : ℤ
  pub default_quantity : ℤ
  pub entry_buffer_pct : ℤ
  pub stop_pct : ℤ
  pub target_r_multiple : ℤ
  pub force_flat_time_ist : ℕ
  pub estimated_cost_per_trade : ℤ

pub record PaperSignal : Type 0 where
  pub id : ℕ
  pub instrument_id : ℕ
  pub signal_key : String
  pub symbol : String
  pub strategy_name : String
  pub strategy_version : String
  pub signal_status : String
  pub signal_time : ℕ
  pub direction : String
  pub veto_reasons : List String
  pub features : Fields
  pub replay_run_id : Option String

pub record PaperInstruction : Type 0 where
  pub signal_id : ℕ
  pub signal_key : String
  pub symbol : String
  pub strategy_name : String
  pub signal_time : ℕ
  pub entry_reference_price : ℤ
  pub stop_price : ℤ
  pub target_price : ℤ
  pub quantity : ℤ
  pub paper_max_risk : ℤ
  pub paper_mode : PaperMode
  pub estimated_costs : ℤ
  pub simulated : Bool

-- `entry_order_status`: NOT_CREATED, PAPER_ENTRY_FILLED, PAPER_ENTRY_NO_FILL.
pub data EntryStatus : Type 0 where
  not_created entry_filled entry_no_fill : EntryStatus

-- `entry_fill_status`: NOT_FILLED, FILLED, NO_FILL.
pub data FillStatus : Type 0 where
  not_filled filled unfilled : FillStatus

-- The values of `rejection_reason`.
pub data Rejection : Type 0 where
  signal_is_not_candidate signal_direction_not_long candidate_has_veto_reasons : Rejection
  missing_signal_features feature_snapshot_not_candidate : Rejection
  feature_snapshot_has_veto_reasons missing_indicator_snapshot : Rejection
  missing_data_quality_snapshot signal_candle_unavailable invalid_entry_stop_context : Rejection
  invalid_paper_quantity invalid_target_context repeated_signal : Rejection
  paper_max_trades_per_day_invalid paper_max_trades_per_day_reached : Rejection

pub record PaperSimulationResult : Type 0 where
  pub signal_id : ℕ
  pub signal_key : String
  pub symbol : String
  pub strategy_name : String
  pub paper_mode : PaperMode
  pub simulated : Bool
  pub entry_order_status : EntryStatus
  pub entry_reference_price : Option ℤ
  pub entry_fill_status : FillStatus
  pub entry_fill_time : Option ℕ
  pub entry_fill_price : Option ℤ
  pub quantity : ℤ
  pub stop_price : Option ℤ
  pub target_price : Option ℤ
  pub exit_time : Option ℕ
  pub exit_price : Option ℤ
  pub exit_reason : PaperExitReason
  pub gross_pnl : ℤ
  pub estimated_costs : ℤ
  pub net_estimated_pnl : ℤ
  pub rejection_reason : Option Rejection
  pub trade_created : Bool

unfoldable pub rejected_outcome :
    PaperSignal → PaperConfig → PaperExitReason → Rejection → PaperSimulationResult
rejected_outcome signal config exit_reason rejection_reason = record {
  signal_id = signal.id;
  signal_key = signal.signal_key;
  symbol = signal.symbol;
  strategy_name = signal.strategy_name;
  paper_mode = config.mode;
  simulated = true;
  entry_order_status = not_created;
  entry_reference_price = none;
  entry_fill_status = not_filled;
  entry_fill_time = none;
  entry_fill_price = none;
  quantity = pos 0;
  stop_price = none;
  target_price = none;
  exit_time = none;
  exit_price = none;
  exit_reason = exit_reason;
  gross_pnl = pos 0;
  estimated_costs = pos 0;
  net_estimated_pnl = pos 0;
  rejection_reason = some rejection_reason;
  trade_created = false;
}

unfoldable pub no_fill_outcome : PaperInstruction → PaperSimulationResult
no_fill_outcome instruction = record {
  signal_id = instruction.signal_id;
  signal_key = instruction.signal_key;
  symbol = instruction.symbol;
  strategy_name = instruction.strategy_name;
  paper_mode = instruction.paper_mode;
  simulated = true;
  entry_order_status = entry_no_fill;
  entry_reference_price = some instruction.entry_reference_price;
  entry_fill_status = unfilled;
  entry_fill_time = none;
  entry_fill_price = none;
  quantity = instruction.quantity;
  stop_price = some instruction.stop_price;
  target_price = some instruction.target_price;
  exit_time = none;
  exit_price = none;
  exit_reason = no_fill;
  gross_pnl = pos 0;
  estimated_costs = pos 0;
  net_estimated_pnl = pos 0;
  rejection_reason = none;
  trade_created = false;
}

abbrev costs_of : Option ℤ → ℤ → ℤ
costs_of none costs = pos 0
costs_of (some _) costs = costs

abbrev gross_of : Option ℤ → ℤ → ℤ → ℤ
gross_of none entry quantity = pos 0
gross_of (some exit) entry quantity = (exit -ℤ entry) *ℤ quantity

unfoldable pub completed_trade_outcome :
    PaperInstruction → ℕ → Option ℕ → Option ℤ → PaperExitReason → PaperSimulationResult
completed_trade_outcome instruction entry_fill_time exit_time exit_price exit_reason =
    let costs = costs_of exit_price instruction.estimated_costs in
    let gross = gross_of exit_price instruction.entry_reference_price instruction.quantity in
    record {
      signal_id = instruction.signal_id;
      signal_key = instruction.signal_key;
      symbol = instruction.symbol;
      strategy_name = instruction.strategy_name;
      paper_mode = instruction.paper_mode;
      simulated = true;
      entry_order_status = entry_filled;
      entry_reference_price = some instruction.entry_reference_price;
      entry_fill_status = filled;
      entry_fill_time = some entry_fill_time;
      entry_fill_price = some instruction.entry_reference_price;
      quantity = instruction.quantity;
      stop_price = some instruction.stop_price;
      target_price = some instruction.target_price;
      exit_time = exit_time;
      exit_price = exit_price;
      exit_reason = exit_reason;
      gross_pnl = gross;
      estimated_costs = costs;
      net_estimated_pnl = gross -ℤ costs;
      rejection_reason = none;
      trade_created = true;
    }
