-- ===== src/Scanner/Service/Totals.antt =====
-- The counts of `_run_symbol` and `run_batch` of backend/app/scanners/service.py.
use trader_ai.Common.{
  ℕ, suc, ◌+◌, ◌*◌, ◌≤◌, String, ◌≡◌, refl, inl, inr, Bool, true, false, Option, List, [], ◌∷◌,
  arith, if◌then◌else◌, Bool-cases, Option-cases, is_some, length, length-append,
}
use trader_ai.Scanner.Signals.{
  Repository, text_get, insert_signal, Tally, no_tally, one_if, count_evaluation, count_insert,
  persist, Run, ran, raised,
}
use trader_ai.Scanner.Strategies.{Evaluation}
use trader_ai.Scanner.Service.{
  Policy, SymbolResult, signal_key, symbol_result, is_wanted, evaluate_bars, run_strategies,
}
use trader_ai.Paper.Schemas.{CompletedBar}
use trader_ai.Scanner.Schemas.{ScannerConfig, IndicatorSnapshot}
use trader_ai.Scanner.Service.Batch.{or_failed}

abbrev pub stored_of : Policy → ℕ → ℕ → ℕ
stored_of policy evaluated candidates =
    if policy.dry_run then 0 else if policy.store_rejections then evaluated else candidates

-- Every evaluation is a candidate or rejected, and those to be stored are new or duplicates.
abbrev pub IsBalanced : Policy → Tally → Type 0
IsBalanced policy t =
    (t.evaluated ≡ t.candidates + t.rejected)
    × (t.inserted + t.duplicates ≡ stored_of policy t.evaluated t.candidates)

pub no_tally-IsBalanced : (policy : Policy) → IsBalanced policy no_tally
unfolding no_tally
no_tally-IsBalanced policy = (refl, ground arith)

insert_signal-length :
    (key : String) (e : Evaluation) (repo : Repository)
    → length (insert_signal key e repo).1.signals
      ≡ length repo.signals + one_if (insert_signal key e repo).0
unfolding insert_signal
insert_signal-length key e repo = elim (Bool-cases (is_some (text_get key repo.signals))) [
  | inl r ↦ rw r (omega arith)
  | inr r ↦ rw r (length-append repo.signals ((key, e) ∷ []))
]

-- What one round of the loop does to the counts and the number of signals.
abbrev IsRound : Policy → Tally → Repository → Tally × Repository → Type 0
IsRound policy t repo r =
    IsBalanced policy r.0
    × (length r.1.signals + t.inserted ≡ length repo.signals + r.0.inserted)
    × (length repo.signals ≤ length r.1.signals)
    × (length r.1.signals ≤ length repo.signals + 1)

count_insert-IsRound :
    (policy : Policy) (e : Evaluation) (t : Tally) (repo repo' : Repository) (new : Bool)
    → is_wanted policy e.status ≡ true
    → IsBalanced policy t
    → length repo'.signals ≡ length repo.signals + one_if new
    → IsRound policy t repo (count_insert new (count_evaluation e t), repo')
unfolding count_insert count_evaluation
count_insert-IsRound policy e t repo repo' true w h l = (
  (ground (arith, h.0), ground (arith, h.1, w)),
  ground (arith, l),
  ground (arith, l),
  ground (arith, l),
)
count_insert-IsRound policy e t repo repo' false w h l = (
  (ground (arith, h.0), ground (arith, h.1, w)),
  ground (arith, l),
  ground (arith, l),
  ground (arith, l),
)

persist-IsRound :
    (policy : Policy) (key : String) (e : Evaluation) (t : Tally) (repo : Repository)
    → IsBalanced policy t
    → IsRound policy t repo (persist (is_wanted policy e.status) key e (count_evaluation e t) repo)
unfolding count_evaluation
persist-IsRound policy key e t repo h = elim (Bool-cases (is_wanted policy e.status)) [
  | inl w ↦ rw w (
      count_insert-IsRound policy e t repo (insert_signal key e repo).1 (insert_signal key e repo).0
        w h (insert_signal-length key e repo))
  | inr w ↦ rw w ((ground (arith, h.0), ground (arith, h.1, w)), refl, omega arith, omega arith)
]

-- The counts of a run that returns, and the bounds on what a run that raises has stored.
abbrev pub IsRun : Policy → ℕ → Tally → Repository → Run → Type 0
IsRun policy n t repo (ran t' repo') =
    IsBalanced policy t' × (length repo'.signals + t.inserted ≡ length repo.signals + t'.inserted)
IsRun policy n t repo (raised repo') =
    (length repo.signals ≤ length repo'.signals) × (length repo'.signals ≤ length repo.signals + n)

IsRun-after :
    (policy : Policy) (n : ℕ) (t : Tally) (repo : Repository) (r : Tally × Repository) (run : Run)
    → IsRound policy t repo r
    → IsRun policy n r.0 r.1 run
    → IsRun policy (suc n) t repo run
IsRun-after policy n t repo r (ran t' repo') a b = (b.0, omega (arith, a.1, b.1))
IsRun-after policy n t repo r (raised repo') a b =
    (omega (arith, a.2, b.0), omega (arith, a.3, b.1))

module _ (upper : String → String) (iso : ℕ → String)
    (indicators : List CompletedBar → Option (List CompletedBar) → IndicatorSnapshot)
    (config : ScannerConfig) where
  pub run_strategies-IsRun :
      (policy : Policy) (run_id : Option String) (id : ℕ) (symbol timeframe : String)
      (bars : List CompletedBar) (benchmark : Option (List CompletedBar)) (stale : Bool)
      (names : List String) (t : Tally) (repo : Repository)
      → IsBalanced policy t
      → IsRun policy (length names) t repo (
          run_strategies upper iso indicators config
            (is_wanted policy)
            run_id
            id
            symbol
            timeframe
            bars
            benchmark
            stale
            names
            t
            repo)
  run_strategies-IsRun policy run_id id symbol timeframe bars benchmark stale [] t repo h =
      (h, refl)
  run_strategies-IsRun policy run_id id symbol timeframe bars benchmark stale (name ∷ names) t repo
        h =
      elim (Option-cases
        (evaluate_bars upper iso indicators config name id symbol timeframe bars benchmark stale)) [
          | inl r ↦ rw (r, IsRun) (omega arith, omega arith)
          | inr (e, r) ↦
              let key = signal_key iso run_id symbol timeframe name e.signal_time in
              let next = persist (is_wanted policy e.status) key e (count_evaluation e t) repo in
              let round = persist-IsRound policy key e t repo h in
              rw (r, IsRun)
                (IsRun-after policy (length names) t repo next _ round (
                  run_strategies-IsRun policy run_id id symbol timeframe bars benchmark stale names
                    next.0 next.1 round.0))
        ]

  -- One result against the repositories before and after; a failed one counts nothing.
  abbrev pub IsResult : Policy → Repository → SymbolResult × Repository → Type 0
  IsResult policy repo r =
      IsBalanced policy r.0.tally
      × (length repo.signals + r.0.tally.inserted ≤ length r.1.signals)
      × (length r.1.signals
          ≤ length repo.signals + r.0.tally.inserted + one_if r.0.error * length config.strategies)

  pub symbol_result-IsResult :
      (policy : Policy) (symbol : String) (repo : Repository) (run : Run)
      → IsRun policy (length config.strategies) no_tally repo run
      → IsResult policy repo
          (or_failed symbol (symbol_result symbol run).0, (symbol_result symbol run).1)
  unfolding no_tally
  symbol_result-IsResult policy symbol repo (ran t repo') h =
      (h.0, omega (arith, h.1), omega (arith, h.1))
  symbol_result-IsResult policy symbol repo (raised repo') h =
      (no_tally-IsBalanced policy, omega (arith, h.0), omega (arith, h.1))
