-- ===== src/Paper/Report.antt =====
-- The counts over outcomes: `PaperReplaySummary` of backend/app/paper/schemas.py,
-- `list_journal_outcomes` of backend/app/paper/repository.py and `build_paper_report` of
-- backend/app/paper/reporting.py. A journal payload is the outcome that it renders, so the amounts
-- are read back as they were; the order of the keys of a counter is left out.
pub mod Balance
mod Tests
use trader_ai.Common.{
  ℕ, ◌+◌, String, Bool, true, false, Option, none, some, List, [], ◌∷◌, map, str_eq, ltb,
  if◌then◌else◌, is_some, length, count_if, ℤ, ◌+ℤ◌, pos,
}
use trader_ai.Paper.Schemas.{
  PaperExitReason, EntryStatus, PaperSimulationResult, no_fill, stop_hit, target_hit, time_exit,
  force_flat, data_ended, invalid_signal_context, duplicate_signal, mode_disabled,
  live_not_implemented, entry_no_fill,
}
use trader_ai.Paper.Repository.{JournalEntry, Store, has_entry_attempt, is_filled}
use mathlib.Core.List.{reverse}

abbrev pub sum_by : (PaperSimulationResult → ℤ) → List PaperSimulationResult → ℤ
sum_by f [] = pos 0
sum_by f (o ∷ os) = f o +ℤ sum_by f os

abbrev pub is_no_fill : PaperExitReason → Bool
is_no_fill no_fill = true
is_no_fill _ = false

-- The properties of `PaperReplaySummary`.
pub record Summary : Type 0 where
  pub signals_loaded : ℕ
  pub entry_attempts : ℕ
  pub no_fill_outcomes : ℕ
  pub trades_created : ℕ
  pub rejections : ℕ
  pub gross_pnl : ℤ
  pub estimated_costs : ℤ
  pub net_estimated_pnl : ℤ

abbrev pub summary_of : ℕ → List PaperSimulationResult → Summary
summary_of signals_loaded outcomes = record {
  signals_loaded = signals_loaded;
  entry_attempts = count_if has_entry_attempt outcomes;
  no_fill_outcomes = count_if (λ (o : PaperSimulationResult). is_no_fill o.exit_reason) outcomes;
  trades_created = count_if PaperSimulationResult.trade_created outcomes;
  rejections = count_if (λ (o : PaperSimulationResult). is_some o.rejection_reason) outcomes;
  gross_pnl = sum_by PaperSimulationResult.gross_pnl outcomes;
  estimated_costs = sum_by PaperSimulationResult.estimated_costs outcomes;
  net_estimated_pnl = sum_by PaperSimulationResult.net_estimated_pnl outcomes;
}

abbrev pub reason_value : PaperExitReason → String
reason_value no_fill = "NO_FILL"
reason_value stop_hit = "STOP_HIT"
reason_value target_hit = "TARGET_HIT"
reason_value time_exit = "TIME_EXIT"
reason_value force_flat = "FORCE_FLAT"
reason_value data_ended = "DATA_ENDED"
reason_value invalid_signal_context = "INVALID_SIGNAL_CONTEXT"
reason_value duplicate_signal = "DUPLICATE_SIGNAL"
reason_value mode_disabled = "MODE_DISABLED"
reason_value live_not_implemented = "LIVE_NOT_IMPLEMENTED"

-- `counter[key] += 1`
abbrev pub bump : String → List (String × ℕ) → List (String × ℕ)
bump key [] = (key, 1) ∷ []
bump key ((k, n) ∷ rest) =
    let later = (k, n) ∷ bump key rest in if str_eq k key then (k, n + 1) ∷ rest else later

-- A journal payload, with the decision that `list_journal_outcomes` adds: none where there is no
-- dict, else its verdict.
pub record ReportRow : Type 0 where
  pub outcome : PaperSimulationResult
  pub model_decision : Option (Option String)

abbrev pub last_items : ℕ → List JournalEntry → List JournalEntry
last_items bound [] = []
last_items bound (e ∷ es) =
    let rest = last_items bound es in if ltb (length es) bound then e ∷ es else rest

unfoldable pub list_journal_outcomes : Store → (ℕ → Option (Option String)) → ℕ → List ReportRow
list_journal_outcomes store decisions_by_signal bound =
    map
      (λ (e : JournalEntry). record {
        outcome = e.payload;
        model_decision = decisions_by_signal e.payload.signal_id;
      })
      (reverse (last_items bound store.journal))

pub record Report : Type 0 where
  pub simulated : ℕ
  pub exit_counts : List (String × ℕ)
  pub gross : ℤ
  pub costs : ℤ
  pub net : ℤ
  pub entry_attempts : ℕ
  pub no_fills : ℕ
  pub filled_trades : ℕ
  pub rejections : ℕ
  pub decision_coverage : ℕ
  pub decision_verdicts : List (String × ℕ)

abbrev pub empty_report : Report
empty_report = record {
  simulated = 0;
  exit_counts = [];
  gross = pos 0;
  costs = pos 0;
  net = pos 0;
  entry_attempts = 0;
  no_fills = 0;
  filled_trades = 0;
  rejections = 0;
  decision_coverage = 0;
  decision_verdicts = [];
}

abbrev pub is_unfilled : EntryStatus → Bool
is_unfilled entry_no_fill = true
is_unfilled _ = false

abbrev pub verdict_or_unknown : Option String → String
verdict_or_unknown none = "UNKNOWN"
verdict_or_unknown (some v) = if str_eq v "" then "UNKNOWN" else v

abbrev pub count_verdict : Option (Option String) → List (String × ℕ) → List (String × ℕ)
count_verdict none counts = counts
count_verdict (some verdict) counts = bump (verdict_or_unknown verdict) counts

-- The body of the loop of `build_paper_report`.
abbrev pub add_row : Report → ReportRow → Report
add_row r row = record {
  simulated = r.simulated + (if row.outcome.simulated then 1 else 0);
  exit_counts = bump (reason_value row.outcome.exit_reason) r.exit_counts;
  gross = r.gross +ℤ row.outcome.gross_pnl;
  costs = r.costs +ℤ row.outcome.estimated_costs;
  net = r.net +ℤ row.outcome.net_estimated_pnl;
  entry_attempts = r.entry_attempts + (if has_entry_attempt row.outcome then 1 else 0);
  no_fills = r.no_fills + (if is_unfilled row.outcome.entry_order_status then 1 else 0);
  filled_trades = r.filled_trades + (if is_filled row.outcome.entry_order_status then 1 else 0);
  rejections = r.rejections + (if is_some row.outcome.rejection_reason then 1 else 0);
  decision_coverage = r.decision_coverage + (if is_some row.model_decision then 1 else 0);
  decision_verdicts = count_verdict row.model_decision r.decision_verdicts;
}

abbrev pub add_rows : Report → List ReportRow → Report
add_rows r [] = r
add_rows r (row ∷ rows) = add_rows (add_row r row) rows

unfoldable pub build_paper_report : List ReportRow → Report
build_paper_report rows = add_rows empty_report rows
