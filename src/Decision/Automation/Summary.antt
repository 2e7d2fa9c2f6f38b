-- ===== src/Decision/Automation/Summary.antt =====
-- `evaluate_scanner_batch` of backend/app/decision/automation.py with `evaluate` of service.py.
use trader_ai.Common.{ℕ, String, Bool, ◌||◌, Option, List, is_some, Json}
use trader_ai.Decision.Outputs.{DecisionOutput, DecisionInput, DecisionSignal}
use trader_ai.Decision.Service.{PersistedDecision, DecisionStore, Answer, InputLimits}
use trader_ai.Decision.Automation.{AutomationSettings, auto_skip_reason, evaluate_scanner_batch}
use trader_ai.Decision.Automation.Counts.{evaluate_unforced, evaluate_unforced-IsEvaluated}
use trader_ai.Decision.Automation.Bounds.{is_supported, IsBatch, skip_or_evaluate-IsBatch}

module _ (enabled : Bool) (adapter_name mode_name : String) (min_confidence : ℕ)
    (secrets : List String) (lower : String → String) (replace : String → String → String → String)
    (claims_facts : Json → Option Bool) (model_validate : Json → Option DecisionOutput)
    (adapter : DecisionInput → Answer) (evaluation_key : DecisionSignal → String)
    (limits : InputLimits) where
  -- A batch that is not skipped raises the configuration error where the adapter or the evaluation
  -- mode is not a supported one, and no other batch raises. The summary of any other batch has one
  -- result for each of its attempted signals, which are at most 50. The recommendations grow by
  -- exactly the created decisions; every signal is created, existing or failed, no existing one
  -- failed, and at most the created ones are notified.
  pub evaluate_scanner_batch-IsBatch :
      (cfg : AutomationSettings) (sent : PersistedDecision → Bool) (started finished : ℕ)
      (symbols : List String) (dry_run : Bool) (candidates : ℕ) (store : DecisionStore)
      → IsBatch
          (is_some (auto_skip_reason cfg dry_run candidates) || is_supported adapter_name mode_name)
          50
          store
          (evaluate_scanner_batch
            (λ mode.
              evaluate_unforced enabled adapter_name mode min_confidence secrets lower replace
                claims_facts model_validate adapter evaluation_key limits)
            adapter_name
            mode_name
            cfg
            sent
            started
            finished
            symbols
            dry_run
            candidates
            store)
  unfolding evaluate_scanner_batch
  evaluate_scanner_batch-IsBatch cfg sent started finished symbols dry_run candidates store =
      skip_or_evaluate-IsBatch cfg sent _ adapter_name mode_name
        (λ mode.
          evaluate_unforced-IsEvaluated enabled adapter_name mode min_confidence secrets lower
            replace claims_facts model_validate adapter evaluation_key limits)
        (auto_skip_reason cfg dry_run candidates) _ store
