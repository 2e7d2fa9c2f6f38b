-- ===== src/Paper/Report/Tests.antt =====
-- A report of one simulated trade.
use trader_ai.Common.{◌≡◌, refl, some, List, [], ◌∷◌, ◌-ℤ◌, ◌*ℤ◌, ist_date, ist_time}
use trader_ai.Paper.Schemas.{no_fill_outcome, completed_trade_outcome}
use trader_ai.Paper.Simulator.{simulate}
use trader_ai.Paper.Simulator.Tests.{config, candles, instruction}
use trader_ai.Paper.Report.{ReportRow, build_paper_report}
use trader_ai.Paper.Report.Balance.{IsReportOf, build_paper_report-IsReportOf}

abbrev rows : List ReportRow
rows =
    record { outcome = simulate instruction candles config; model_decision = some (some "WATCH") }
    ∷ []

build_paper_report-IsReportOf_example :
    IsReportOf rows (build_paper_report rows)
    × ((build_paper_report rows).net
        ≡ (build_paper_report rows).gross -ℤ (build_paper_report rows).costs)
unfolding simulate completed_trade_outcome no_fill_outcome ist_date ist_time ◌-ℤ◌ ◌*ℤ◌
build_paper_report-IsReportOf_example = build_paper_report-IsReportOf rows (refl, tt)
