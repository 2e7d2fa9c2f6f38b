-- ===== src/Paper/Report/Balance.antt =====
-- The report against the summary of the same outcomes.
use trader_ai.Common.{
  ℕ, ◌+◌, String, ◌≡◌, refl, true, false, Option, none, some, List, [], ◌∷◌, map, arith,
  if◌then◌else◌, is_some, length, count_if, All, ◌-ℤ◌, int_laws, pos,
}
use trader_ai.Paper.Schemas.{
  EntryStatus, PaperSimulationResult, not_created, entry_filled, entry_no_fill,
}
use trader_ai.Paper.Repository.{has_entry_attempt, is_filled}
use trader_ai.Paper.Report.{
  summary_of, reason_value, bump, ReportRow, Report, empty_report, is_unfilled, verdict_or_unknown,
  count_verdict, add_row, add_rows, build_paper_report,
}

abbrev pub total : List (String × ℕ) → ℕ
total [] = 0
total ((k, n) ∷ rest) = n + total rest

total-bump : (k : String) (d : List (String × ℕ)) → total (bump k d) ≡ total d + 1
total-bump k [] = refl
total-bump k ((k', n) ∷ rest) = ground (arith, total-bump k rest)

abbrev pub outcomes_of : List ReportRow → List PaperSimulationResult
outcomes_of = map ReportRow.outcome

-- A report in progress, of rows that add to it.
pub record Adds (from : Report) (rows : List ReportRow) (to : Report) : Type 0 where
  pub simulated :
      to.simulated ≡ from.simulated + count_if PaperSimulationResult.simulated (outcomes_of rows)
  pub entry_attempts :
      to.entry_attempts ≡ from.entry_attempts + count_if has_entry_attempt (outcomes_of rows)
  pub rejections :
      to.rejections
      ≡ from.rejections
        + count_if (λ (o : PaperSimulationResult). is_some o.rejection_reason) (outcomes_of rows)
  pub exits : total to.exit_counts ≡ total from.exit_counts + length rows
  pub covered :
      total to.decision_verdicts + from.decision_coverage
      ≡ total from.decision_verdicts + to.decision_coverage
  pub split :
      to.no_fills + to.filled_trades + from.entry_attempts
      ≡ from.no_fills + from.filled_trades + to.entry_attempts

covered_one :
    (d : Option (Option String)) (counts : List (String × ℕ))
    → total (count_verdict d counts) ≡ total counts + (if is_some d then 1 else 0)
covered_one none counts = omega arith
covered_one (some v) counts = total-bump (verdict_or_unknown v) counts

split_one :
    (s : EntryStatus)
    → (if is_unfilled s then 1 else 0) + (if is_filled s then 1 else 0) ≡ (
        if (elim s [ entry_filled ↦ true | entry_no_fill ↦ true | not_created ↦ false ])
        then 1
        else 0)
split_one not_created = refl
split_one entry_filled = refl
split_one entry_no_fill = refl

attempt_split :
    (o : PaperSimulationResult)
    → (if is_unfilled o.entry_order_status then 1 else 0)
        + (if is_filled o.entry_order_status then 1 else 0)
      ≡ (if has_entry_attempt o then 1 else 0)
attempt_split o = split_one o.entry_order_status

added : (r : Report) (row : ReportRow) → Adds r (row ∷ []) (add_row r row)
added r row = record {
  simulated = ground arith;
  entry_attempts = ground arith;
  rejections = ground arith;
  exits = omega (arith, total-bump (reason_value row.outcome.exit_reason) r.exit_counts);
  covered = omega (arith, covered_one row.model_decision r.decision_verdicts);
  split = grind (arith, attempt_split row.outcome);
}

Adds-trans :
    (a b c : Report) (row : ReportRow) (rows : List ReportRow)
    → Adds a (row ∷ []) b
    → Adds b rows c
    → Adds a (row ∷ rows) c
Adds-trans a b c row rows x y = record {
  simulated = omega (arith, x.simulated, y.simulated);
  entry_attempts = omega (arith, x.entry_attempts, y.entry_attempts);
  rejections = omega (arith, x.rejections, y.rejections);
  exits = omega (arith, x.exits, y.exits);
  covered = omega (arith, x.covered, y.covered);
  split = omega (arith, x.split, y.split);
}

add_rows-Adds : (r : Report) (rows : List ReportRow) → Adds r rows (add_rows r rows)
add_rows-Adds r [] = record {
  simulated = omega arith;
  entry_attempts = omega arith;
  rejections = omega arith;
  exits = omega arith;
  covered = omega arith;
  split = omega arith;
}
add_rows-Adds r (row ∷ rows) =
    Adds-trans r (add_row r row) (add_rows (add_row r row) rows) row rows (added r row)
      (add_rows-Adds (add_row r row) rows)

-- Where the net of each outcome is its gross less its costs, so it is in a report.
add_rows-net :
    (r : Report) (rows : List ReportRow)
    → r.net ≡ r.gross -ℤ r.costs
    → All
        (λ (o : PaperSimulationResult). o.net_estimated_pnl ≡ o.gross_pnl -ℤ o.estimated_costs)
        (outcomes_of rows)
    → (add_rows r rows).net ≡ (add_rows r rows).gross -ℤ (add_rows r rows).costs
add_rows-net r [] e h = e
add_rows-net r (row ∷ rows) e h = add_rows-net (add_row r row) rows (grind (int_laws, e, h.0)) h.1

zero_net : pos 0 ≡ pos 0 -ℤ pos 0
unfolding ◌-ℤ◌
zero_net = refl

-- What a report says of the outcomes that it is made from.
pub record IsReportOf (rows : List ReportRow) (r : Report) : Type 0 where
  pub simulated : r.simulated ≡ count_if PaperSimulationResult.simulated (outcomes_of rows)
  pub attempts :
      (loaded : ℕ) → r.entry_attempts ≡ (summary_of loaded (outcomes_of rows)).entry_attempts
  pub rejections : (loaded : ℕ) → r.rejections ≡ (summary_of loaded (outcomes_of rows)).rejections
  pub split : r.no_fills + r.filled_trades ≡ r.entry_attempts
  pub exits : total r.exit_counts ≡ length rows
  pub covered : total r.decision_verdicts ≡ r.decision_coverage

-- A report agrees with the summary of its outcomes on attempts and rejections, its attempts are its
-- fills and its missed entries, its exit reasons count each outcome once and its verdicts each
-- decision once; where the net of each outcome is its gross less its costs, so is the report's.
pub build_paper_report-IsReportOf :
    (rows : List ReportRow)
    → All
        (λ (o : PaperSimulationResult). o.net_estimated_pnl ≡ o.gross_pnl -ℤ o.estimated_costs)
        (outcomes_of rows)
    → IsReportOf rows (build_paper_report rows)
      × ((build_paper_report rows).net
          ≡ (build_paper_report rows).gross -ℤ (build_paper_report rows).costs)
unfolding build_paper_report
build_paper_report-IsReportOf rows h =
    let a = add_rows-Adds empty_report rows in
    (
      record {
        simulated = omega (arith, a.simulated);
        attempts = λ loaded. omega (arith, a.entry_attempts);
        rejections = λ loaded. omega (arith, a.rejections);
        split = omega (arith, a.split);
        exits = omega (arith, a.exits);
        covered = omega (arith, a.covered);
      },
      add_rows-net empty_report rows zero_net h,
    )
