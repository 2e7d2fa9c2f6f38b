-- ===== src/Decision/Automation/Tests.antt =====
-- A batch over one candidate, whose answer is no object.
use trader_ai.Common.{ℕ, String, ◌≡◌, refl, ◌⊎◌, inl, inr, true, false, List, [], ◌∷◌, pos}
use trader_ai.Decision.Outputs.{validate_output}
use trader_ai.Decision.Payloads.Tests.{lower, replace}
use trader_ai.Decision.Service.{
  DecisionStore, record_decision, is_valid_input, build_input, evaluate,
}
use trader_ai.Decision.Service.Tests.{store, no_facts, no_schema, adapter, key_of, limits}
use trader_ai.Decision.Automation.{
  AutomationSettings, list_unevaluated_candidate_ids, AutoSummary, empty_summary, count_as,
  AutomationError, evaluation_identity, evaluate_listed, evaluate_scanner_batch, config_error,
}
use trader_ai.Decision.Automation.Counts.{evaluate_unforced}
use trader_ai.Decision.Automation.Bounds.{IsBatch}
use trader_ai.Decision.Automation.Summary.{evaluate_scanner_batch-IsBatch}

abbrev automation_settings : AutomationSettings
automation_settings = record {
  auto_evaluate_enabled = true;
  decision_enabled = true;
  only_candidates = true;
  max_signals = pos 5;
  notify_enabled = true;
  notify_verdicts = λ v. true;
}

abbrev batch_of : String → AutomationError ⊎ (AutoSummary × DecisionStore)
batch_of adapter_name =
    evaluate_scanner_batch
      (λ mode.
        evaluate_unforced true adapter_name mode 700_000 [] lower replace no_facts no_schema adapter
          key_of limits)
      adapter_name "LIVE_SHADOW" automation_settings (λ d. true) 0 10 [] false 1 store

evaluate_scanner_batch-IsBatch_example : IsBatch true 50 store (batch_of "fake")
evaluate_scanner_batch-IsBatch_example =
    evaluate_scanner_batch-IsBatch true "fake" "LIVE_SHADOW" 700_000 [] lower replace no_facts
      no_schema adapter key_of limits automation_settings (λ d. true) 0 10 [] false 1 store

-- The attempted, created, failed and notified signals.
abbrev counts : AutomationError ⊎ (AutoSummary × DecisionStore) → List ℕ
counts (inl e) = []
counts (inr (s, _)) = s.attempted ∷ s.created ∷ s.failed ∷ s.notified ∷ []

batch_counts : counts (batch_of "fake") ≡ 1 ∷ 1 ∷ 1 ∷ 1 ∷ []
unfolding evaluate_scanner_batch empty_summary evaluate_listed list_unevaluated_candidate_ids
    evaluation_identity evaluate build_input is_valid_input validate_output count_as record_decision
batch_counts = refl

batch_unsupported : batch_of "other" ≡ inl config_error
unfolding evaluate_scanner_batch evaluation_identity
batch_unsupported = refl
