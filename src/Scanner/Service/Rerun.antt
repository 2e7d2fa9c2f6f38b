-- ===== src/Scanner/Service/Rerun.antt =====
-- `_run_symbol` of backend/app/scanners/service.py over the signals of an earlier run.
use trader_ai.Common.{
  ℕ, String, ◌≡◌, refl, sym, ap, ◌∙◌, subst, inl, inr, Bool, true, false, Option, none, some, List,
  [], ◌∷◌, arith, Option-cases, is_some, last_of,
}
use trader_ai.Scanner.Schemas.{ScannerConfig, IndicatorSnapshot, Status}
use trader_ai.Paper.Schemas.{CompletedBar}
use trader_ai.Scanner.Signals.{
  Repository, text_get, load_completed_bars, Tally, no_tally, count_evaluation, persist, Run, ran,
  raised,
}
use trader_ai.Scanner.Strategies.{Evaluation}
use trader_ai.Scanner.Service.{
  history_bar_limit, SkipReason, Policy, skip_reason, is_stale_at, signal_key, symbol_result,
  is_wanted, benchmark_bars, evaluate_bars, run_strategies, scan_bars, skip_or_scan, run_symbol,
}
use trader_ai.Scanner.Service.Stored.{
  Grows, Grows-refl, persist-key, persist-same, run_repository, run_strategies-Grows,
}

-- `big` has the bars of `repo` and a signal for each of its keys.
abbrev pub Covers : Repository → Repository → Type 0
Covers big repo =
    (big.bars_by_symbol ≡ repo.bars_by_symbol)
    × ((k : String)
        → is_some (text_get k repo.signals) ≡ true
        → is_some (text_get k big.signals) ≡ true)

pub Covers-smaller : (big b a : Repository) → Grows a b → Covers big b → Covers big a
Covers-smaller big b a g c = (
  c.0 ∙ g.0,
  (λ k h. c.1 k (elim (Option-cases (text_get k a.signals)) [
    | inl e ↦ absurd (grind (arith, rw e at h))
    | inr (v, e) ↦ rw (g.1 k v e) refl
  ])),
)

module _ (upper : String → String) (iso : ℕ → String)
    (indicators : List CompletedBar → Option (List CompletedBar) → IndicatorSnapshot)
    (config : ScannerConfig) where
  module _ (wanted : Status → Bool) (run_id : Option String) (id : ℕ) (symbol timeframe : String)
      (bars : List CompletedBar) (benchmark : Option (List CompletedBar)) (stale : Bool) where
    -- A second run, over a repository that covers what the first one left, stores nothing.
    run_strategies-repeats :
        (names : List String) (t t' : Tally) (repo big : Repository)
        → Covers big (
            run_repository (
              run_strategies upper iso indicators config wanted run_id id symbol timeframe bars
                benchmark stale names t repo))
        → run_repository (
            run_strategies upper iso indicators config wanted run_id id symbol timeframe bars
              benchmark stale names t' big)
          ≡ big
    run_strategies-repeats [] t t' repo big c = refl
    run_strategies-repeats (name ∷ names) t t' repo big c =
        elim (Option-cases (
          evaluate_bars upper iso indicators config name id symbol timeframe bars benchmark
            stale)) [
              | inl r ↦ rw (r, run_repository) refl
              | inr (e, r) ↦
                  let key = signal_key iso run_id symbol timeframe name e.signal_time in
                  let next = persist (wanted e.status) key e (count_evaluation e t) repo in
                  let c' = rw (r, Covers, run_repository) at c in
                  let grows =
                    run_strategies-Grows upper iso indicators config wanted run_id id symbol
                      timeframe bars benchmark stale names next.0 next.1 in
                  let same =
                    persist-repeats (wanted e.status) key e (count_evaluation e t)
                      (count_evaluation e t') repo big (Covers-smaller big _ next.1 grows c') in
                  rw (r, run_repository, same) (run_strategies-repeats names next.0 _ next.1 big c')
            ]
      where
        persist-repeats :
            (w : Bool) (k : String) (e : Evaluation) (t t' : Tally) (repo big : Repository)
            → Covers big (persist w k e t repo).1
            → (persist w k e t' big).1 ≡ big
        persist-repeats false k e t t' repo big c = refl
        persist-repeats true k e t t' repo big c =
            persist-same k e t' big (c.1 k (persist-key k e t repo))

  module _ (policy : Policy) (now : ℕ) (symbol timeframe : String) where
    scan_bars-Grows :
        (bars : List CompletedBar) (latest : Option CompletedBar) (repo : Repository)
        → Grows repo (
            run_repository (
              scan_bars upper iso indicators config policy now none symbol timeframe bars latest
                repo))
    scan_bars-Grows bars none repo = Grows-refl repo
    scan_bars-Grows bars (some latest) repo =
        run_strategies-Grows upper iso indicators config (is_wanted policy) none
          latest.instrument_id symbol timeframe bars
          (benchmark_bars timeframe repo config.benchmark_symbol)
          (is_stale_at config now none (some latest)) config.strategies no_tally repo

    benchmark-same :
        (benchmark : Option String) (repo big : Repository)
        → big.bars_by_symbol ≡ repo.bars_by_symbol
        → benchmark_bars timeframe big benchmark ≡ benchmark_bars timeframe repo benchmark
    benchmark-same none repo big e = refl
    benchmark-same (some s) repo big e = rw e refl

    scan_bars-repeats :
        (bars : List CompletedBar) (latest : Option CompletedBar) (repo big : Repository)
        → Covers big (
            run_repository (
              scan_bars upper iso indicators config policy now none symbol timeframe bars latest
                repo))
        → run_repository
            (scan_bars upper iso indicators config policy now none symbol timeframe bars latest big)
          ≡ big
    scan_bars-repeats bars none repo big c = refl
    scan_bars-repeats bars (some latest) repo big c =
        let stale = is_stale_at config now none (some latest) in
        let grows = scan_bars-Grows bars (some latest) repo in
        subst
          (λ b.
            run_repository (
              run_strategies upper iso indicators config (is_wanted policy) none
                latest.instrument_id symbol timeframe bars b stale config.strategies no_tally big)
            ≡ big)
          (sym (benchmark-same config.benchmark_symbol repo big (c.0 ∙ grows.0)))
          (run_strategies-repeats (is_wanted policy) none latest.instrument_id symbol timeframe bars
            (benchmark_bars timeframe repo config.benchmark_symbol) stale config.strategies no_tally
            no_tally repo big c)

    symbol_result-repository : (run : Run) → (symbol_result symbol run).1 ≡ run_repository run
    symbol_result-repository (ran t repo) = refl
    symbol_result-repository (raised repo) = refl

    skip_or_scan-Grows :
        (bars : List CompletedBar) (skip : Option SkipReason) (repo : Repository)
        → Grows repo
            (skip_or_scan upper iso indicators config policy now none symbol timeframe bars skip
              repo).1
    skip_or_scan-Grows bars (some reason) repo = Grows-refl repo
    skip_or_scan-Grows bars none repo =
        subst (λ r. Grows repo r)
          (sym (
            symbol_result-repository (
              scan_bars upper iso indicators config policy now none symbol timeframe bars
                (last_of bars) repo)))
          (scan_bars-Grows bars (last_of bars) repo)

    skip_or_scan-repeats :
        (bars : List CompletedBar) (skip : Option SkipReason) (repo big : Repository)
        → Covers big
            (skip_or_scan upper iso indicators config policy now none symbol timeframe bars skip
              repo).1
        → (skip_or_scan upper iso indicators config policy now none symbol timeframe bars skip
            big).1
          ≡ big
    skip_or_scan-repeats bars (some reason) repo big c = refl
    skip_or_scan-repeats bars none repo big c =
        symbol_result-repository (
          scan_bars upper iso indicators config policy now none symbol timeframe bars (last_of bars)
            big)
        ∙ scan_bars-repeats bars (last_of bars) repo big (
            subst (λ r. Covers big r)
              (symbol_result-repository (
                scan_bars upper iso indicators config policy now none symbol timeframe bars
                  (last_of bars) repo))
              c)

    pub run_symbol-Grows :
        (repo : Repository)
        → Grows repo
            (run_symbol upper iso indicators config policy now none symbol timeframe repo).1
    unfolding run_symbol
    run_symbol-Grows repo =
        let bars = load_completed_bars repo symbol timeframe history_bar_limit in
        skip_or_scan-Grows bars (skip_reason policy timeframe bars) repo

    pub run_symbol-repeats :
        (repo big : Repository)
        → Covers big
            (run_symbol upper iso indicators config policy now none symbol timeframe repo).1
        → (run_symbol upper iso indicators config policy now none symbol timeframe big).1 ≡ big
    unfolding run_symbol
    run_symbol-repeats repo big c =
        let bars = load_completed_bars repo symbol timeframe history_bar_limit in
        let same = c.0 ∙ (run_symbol-Grows repo).0 in
        let bars_same =
          ap
            (λ d.
              load_completed_bars (record { bars_by_symbol = d; signals = [] }) symbol timeframe
                history_bar_limit)
            same in
        subst
          (λ b.
            (skip_or_scan upper iso indicators config policy now none symbol timeframe b
              (skip_reason policy timeframe b) big).1
            ≡ big)
          (sym bars_same) (skip_or_scan-repeats bars (skip_reason policy timeframe bars) repo big c)
