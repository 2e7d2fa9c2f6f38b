-- ===== src/Scanner/Service/Accounts.antt =====
-- `run_batch` of backend/app/scanners/service.py: its totals against the signals that it stores.
use native.Mathlib.Nat.{add-mul}
use trader_ai.Common.{
  ℕ, suc, ◌+◌, ◌*◌, ◌≤◌, String, ◌≡◌, refl, ap, inl, inr, Option, none, some, List, [], ◌∷◌, arith,
  Bool-cases, length, last_of,
}
use trader_ai.Scanner.Schemas.{ScannerConfig, IndicatorSnapshot}
use trader_ai.Paper.Schemas.{CompletedBar}
use trader_ai.Scanner.Signals.{Repository, load_completed_bars, no_tally, one_if}
use trader_ai.Scanner.Service.{
  history_bar_limit, SkipReason, Policy, SymbolResult, skip_reason, is_stale_at, benchmark_bars,
  scan_bars, skip_or_scan, run_symbol,
}
use trader_ai.Scanner.Service.Batch.{
  Fallible, Request, BatchResult, sum_of, failed_symbols, batch_result, or_failed, batch_symbols,
  batch_loop, run_symbols, run_batch, done, fails,
}
use trader_ai.Scanner.Service.Totals.{
  stored_of, no_tally-IsBalanced, IsRun, run_strategies-IsRun, IsResult, symbol_result-IsResult,
}

-- The totals of a batch of at most `n` strategies per symbol; `before` and `after` count signals.
abbrev pub IsAccounted : Policy → ℕ → ℕ → ℕ → BatchResult → Type 0
IsAccounted policy n before after b =
    (b.total_evaluated ≡ b.total_candidates + b.total_rejected)
    × (b.total_inserted + b.total_duplicates
        ≡ stored_of policy b.total_evaluated b.total_candidates)
    × (before + b.total_inserted ≤ after)
    × (after ≤ before + b.total_inserted + length b.errors * n)
    × (length b.per_symbol ≡ b.evaluated_symbols)

-- What a batch gives: its totals, or an error and the repository as it was.
abbrev pub IsBatch : Policy → ℕ → Repository → Fallible BatchResult × Repository → Type 0
IsBatch policy n repo (fails e, repo') = repo' ≡ repo
IsBatch policy n repo (done b, repo') =
    IsAccounted policy n (length repo.signals) (length repo'.signals) b

stored_of-add :
    (policy : Policy) (a b c d : ℕ)
    → stored_of policy (a + b) (c + d) ≡ stored_of policy a c + stored_of policy b d
stored_of-add policy a b c d = ground arith

failed_symbols-length :
    (r : SymbolResult) (rs : List SymbolResult)
    → length (failed_symbols (r ∷ rs)) ≡ one_if r.error + length (failed_symbols rs)
failed_symbols-length r rs = elim (Bool-cases r.error) [
  | inl e ↦ rw e (omega arith)
  | inr e ↦ rw e (omega arith)
]

no_symbols-IsAccounted :
    (policy : Policy) (n before : ℕ) → IsAccounted policy n before before (batch_result 0 [])
unfolding batch_result
no_symbols-IsAccounted policy n before = (refl, ground arith, omega arith, omega arith, refl)

module _ (strip upper : String → String) (split : String → Option (String × String))
    (iso : ℕ → String)
    (indicators : List CompletedBar → Option (List CompletedBar) → IndicatorSnapshot)
    (config : ScannerConfig) (clock : String → ℕ) where
  scan_bars-IsRun :
      (policy : Policy) (now : ℕ) (symbol timeframe : String) (bars : List CompletedBar)
      (latest : Option CompletedBar) (repo : Repository)
      → IsRun policy
          (length config.strategies)
          no_tally
          repo
          (scan_bars upper iso indicators config policy now none symbol timeframe bars latest repo)
  scan_bars-IsRun policy now symbol timeframe bars none repo = (omega arith, omega arith)
  scan_bars-IsRun policy now symbol timeframe bars (some latest) repo =
      run_strategies-IsRun upper iso indicators config policy none latest.instrument_id symbol
        timeframe bars (benchmark_bars timeframe repo config.benchmark_symbol)
        (is_stale_at config now none (some latest)) config.strategies no_tally repo
        (no_tally-IsBalanced policy)

  skip_or_scan-IsResult :
      (policy : Policy) (now : ℕ) (symbol timeframe : String) (bars : List CompletedBar)
      (skip : Option SkipReason) (repo : Repository)
      → IsResult upper iso indicators config policy repo (
        or_failed symbol
            (skip_or_scan upper iso indicators config policy now none symbol timeframe bars skip
              repo).0,
        (skip_or_scan upper iso indicators config policy now none symbol timeframe bars skip
            repo).1,
      )
  unfolding no_tally
  skip_or_scan-IsResult policy now symbol timeframe bars (some reason) repo =
      (no_tally-IsBalanced policy, omega arith, omega arith)
  skip_or_scan-IsResult policy now symbol timeframe bars none repo =
      symbol_result-IsResult upper iso indicators config policy symbol repo _
        (scan_bars-IsRun policy now symbol timeframe bars (last_of bars) repo)

  run_symbol-IsResult :
      (policy : Policy) (now : ℕ) (symbol timeframe : String) (repo : Repository)
      → IsResult upper iso indicators config policy repo (
        or_failed symbol
            (run_symbol upper iso indicators config policy now none symbol timeframe repo).0,
        (run_symbol upper iso indicators config policy now none symbol timeframe repo).1,
      )
  unfolding run_symbol
  run_symbol-IsResult policy now symbol timeframe repo =
      let bars = load_completed_bars repo symbol timeframe history_bar_limit in
      skip_or_scan-IsResult policy now symbol timeframe bars (skip_reason policy timeframe bars)
        repo

  IsAccounted-cons :
      (policy : Policy) (m : ℕ) (r : SymbolResult) (rs : List SymbolResult)
      (repo repo' : Repository) (after : ℕ)
      → IsResult upper iso indicators config policy repo (r, repo')
      → IsAccounted policy
          (length config.strategies)
          (length repo'.signals)
          after
          (batch_result m rs)
      → IsAccounted policy
          (length config.strategies)
          (length repo.signals)
          after
          (batch_result (suc m) (r ∷ rs))
  unfolding batch_result
  IsAccounted-cons policy m r rs repo repo' after h ih =
      let n = length config.strategies in
      let split_stored =
        stored_of-add policy r.tally.evaluated (sum_of (λ t. t.evaluated) rs) r.tally.candidates
          (sum_of (λ t. t.candidates) rs) in
      let errors = failed_symbols-length r rs in
      (
        omega (arith, h.0.0, ih.0),
        omega (arith, h.0.1, ih.1, split_stored),
        omega (arith, h.1, ih.2),
        omega (
          arith,
          h.2,
          ih.3,
          ap (λ (k : ℕ). k * n) errors,
          add-mul (one_if r.error) (length (failed_symbols rs)) n,
        ),
        omega (arith, ih.4),
      )

  batch_loop-IsAccounted :
      (policy : Policy) (timeframe : String) (symbols : List String) (repo : Repository)
      → IsAccounted policy
          (length config.strategies)
          (length repo.signals)
          (length
            (batch_loop strip upper split iso indicators config clock policy timeframe symbols
              repo).1.signals)
          (batch_result
            (length symbols)
            (batch_loop strip upper split iso indicators config clock policy timeframe symbols
              repo).0)
  batch_loop-IsAccounted policy timeframe [] repo =
      no_symbols-IsAccounted policy (length config.strategies) (length repo.signals)
  batch_loop-IsAccounted policy timeframe (symbol ∷ symbols) repo =
      let r =
        run_symbol upper iso indicators config policy (clock symbol) none symbol timeframe repo in
      IsAccounted-cons policy (length symbols) (or_failed symbol r.0) _ repo r.1 _
        (run_symbol-IsResult policy (clock symbol) symbol timeframe repo)
        (batch_loop-IsAccounted policy timeframe symbols r.1)

  run_symbols-IsBatch :
      (req : Request) (symbols : Fallible (List String)) (repo : Repository)
      → IsBatch req.policy
          (length config.strategies)
          repo
          (run_symbols strip upper split iso indicators config clock req symbols repo)
  run_symbols-IsBatch req (fails e) repo = refl
  run_symbols-IsBatch req (done symbols) repo =
      batch_loop-IsAccounted req.policy req.timeframe symbols repo

  -- A batch that returns gives one result for each of its symbols, its evaluations are candidates or
  -- rejected, those to be stored (all, the candidates, or none in a dry run) are new or duplicates,
  -- the new ones are stored, and beyond them at most one signal per strategy for each symbol that
  -- is listed as an error. A batch that raises leaves the repository as it is.
  pub run_batch-IsBatch :
      (req : Request) (repo : Repository)
      → IsBatch req.policy
          (length config.strategies)
          repo
          (run_batch strip upper split iso indicators config clock req repo)
  unfolding run_batch
  run_batch-IsBatch req repo =
      run_symbols-IsBatch req (batch_symbols strip upper split config req) repo
