-- ===== src/Scanner/Service/Repeats.antt =====
-- `run_batch` of backend/app/scanners/service.py over the signals of earlier batches.
use trader_ai.Common.{
  ℕ, String, ◌≡◌, refl, ap, ◌∙◌, Option, none, some, List, [], ◌∷◌, text_comparable,
  number_comparable, IsDistinct,
}
use trader_ai.Scanner.Schemas.{ScannerConfig, IndicatorSnapshot, veto_comparable}
use trader_ai.Paper.Schemas.{CompletedBar}
use trader_ai.Scanner.Signals.{Repository, text_get}
use trader_ai.Scanner.Strategies.{Evaluation}
use trader_ai.Scanner.Service.{Policy, run_symbol}
use trader_ai.Scanner.Service.Batch.{
  Fallible, Request, batch_symbols, batch_loop, run_symbols, run_batch, done, fails,
}
use trader_ai.Scanner.Service.Stored.{names_of, Grows, Grows-refl, Grows-trans}
use trader_ai.Scanner.Service.Rerun.{Covers, Covers-smaller, run_symbol-Grows, run_symbol-repeats}

module _ (strip upper : String → String) (split : String → Option (String × String))
    (iso : ℕ → String)
    (indicators : List CompletedBar → Option (List CompletedBar) → IndicatorSnapshot)
    (config : ScannerConfig) (clock : String → ℕ) where
  batch_loop-Grows :
      (policy : Policy) (timeframe : String) (symbols : List String) (repo : Repository)
      → Grows repo
          (batch_loop strip upper split iso indicators config clock policy timeframe symbols repo).1
  batch_loop-Grows policy timeframe [] repo = Grows-refl repo
  batch_loop-Grows policy timeframe (symbol ∷ symbols) repo =
      let next =
        (run_symbol upper iso indicators config policy (clock symbol) none symbol timeframe
          repo).1 in
      Grows-trans repo next _
        (run_symbol-Grows upper iso indicators config policy (clock symbol) symbol timeframe repo)
        (batch_loop-Grows policy timeframe symbols next)

  batch_loop-repeats :
      (policy : Policy) (timeframe : String) (symbols : List String) (repo big : Repository)
      → Covers big
          (batch_loop strip upper split iso indicators config clock policy timeframe symbols repo).1
      → (batch_loop strip upper split iso indicators config clock policy timeframe symbols big).1
        ≡ big
  batch_loop-repeats policy timeframe [] repo big c = refl
  batch_loop-repeats policy timeframe (symbol ∷ symbols) repo big c =
      let next =
        (run_symbol upper iso indicators config policy (clock symbol) none symbol timeframe
          repo).1 in
      let first =
        run_symbol-repeats upper iso indicators config policy (clock symbol) symbol timeframe repo
          big (Covers-smaller big _ next (batch_loop-Grows policy timeframe symbols next) c) in
      ap
        (λ r.
          (batch_loop strip upper split iso indicators config clock policy timeframe symbols r).1)
        first
      ∙ batch_loop-repeats policy timeframe symbols next big c

  run_symbols-Grows :
      (req : Request) (symbols : Fallible (List String)) (repo : Repository)
      → Grows repo (run_symbols strip upper split iso indicators config clock req symbols repo).1
  run_symbols-Grows req (fails e) repo = Grows-refl repo
  run_symbols-Grows req (done symbols) repo = batch_loop-Grows req.policy req.timeframe symbols repo

  run_symbols-repeats :
      (req : Request) (symbols : Fallible (List String)) (repo : Repository)
      → (run_symbols strip upper split iso indicators config clock req symbols
          (run_symbols strip upper split iso indicators config clock req symbols repo).1).1
        ≡ (run_symbols strip upper split iso indicators config clock req symbols repo).1
  run_symbols-repeats req (fails e) repo = refl
  run_symbols-repeats req (done symbols) repo =
      batch_loop-repeats req.policy req.timeframe symbols repo _ (refl, (λ k h. h))

  -- A batch that is run again, at the same clock, on the repository that it left stores nothing:
  -- it leaves the repository as it is, also where symbols fail.
  pub run_batch-repeats :
      (req : Request) (repo : Repository)
      → (run_batch strip upper split iso indicators config clock req
          (run_batch strip upper split iso indicators config clock req repo).1).1
        ≡ (run_batch strip upper split iso indicators config clock req repo).1
  unfolding run_batch
  run_batch-repeats req repo =
      run_symbols-repeats req (batch_symbols strip upper split config req) repo

  -- A batch changes no signal that is stored, and keeps the keys of the signals distinct.
  pub run_batch-IsDistinct :
      (req : Request) (repo : Repository) (key : String) (e : Evaluation)
      → IsDistinct (names_of repo.signals)
      → text_get key repo.signals ≡ some e
      → IsDistinct
          (names_of (run_batch strip upper split iso indicators config clock req repo).1.signals)
        × (text_get key (run_batch strip upper split iso indicators config clock req repo).1.signals
            ≡ some e)
  unfolding run_batch
  run_batch-IsDistinct req repo key e d h =
      let grows = run_symbols-Grows req (batch_symbols strip upper split config req) repo in
      (grows.2 d, grows.1 key e h)
