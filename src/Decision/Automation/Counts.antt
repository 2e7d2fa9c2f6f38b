-- ===== src/Decision/Automation/Counts.antt =====
-- The counts of backend/app/decision/automation.py against the recommendations that are stored.
use mathlib.Core.Option
use trader_ai.Common.{
  ℕ, ◌+◌, String, ◌≡◌, inl, inr, Bool, false, not, Option, none, some, List, [], ◌∷◌, arith, str_eq,
  Bool-cases, length, length-append, text_comparable, number_comparable, contains, Json,
}
use trader_ai.Decision.Outputs.{
  EvaluationMode, DecisionOutput, DecisionInput, DecisionSignal, safe_reject, Checked,
  validate_output, accepted, refused, invalid, unserializable,
}
use trader_ai.Decision.Service.{
  PersistedDecision, DecisionStore, load_signal, find_key, mark_existing, persisted_of,
  record_decision, Answer, Evaluated, InputLimits, BuiltInput, build_input, store_and_decision,
  record_checked, record_answer, ask, existing_or_ask, evaluate_loaded, evaluate, answered, failed,
  refused_by, decided, adapter_error, input_invalid, built,
}
use trader_ai.Decision.Automation.{one_if}

-- A decision that does not exist yet adds one recommendation.
abbrev pub IsEvaluated : DecisionStore → Evaluated → Type 0
IsEvaluated store (refused_by e) = Unit
IsEvaluated store (decided after d) =
    length after.recommendations ≡ length store.recommendations + one_if (not d.existing)

record_decision-IsEvaluated :
    (store : DecisionStore) (signal : DecisionSignal) (output : DecisionOutput) (payload : Json)
    (code key : Option String)
    → IsEvaluated store (store_and_decision (record_decision store signal output payload code key))
unfolding record_decision
record_decision-IsEvaluated store signal output payload code key =
    length-append store.recommendations (persisted_of store signal output code ∷ [])

record_checked-IsEvaluated :
    (store : DecisionStore) (signal : DecisionSignal) (payload : Json) (key : Option String)
    (checked : Checked)
    → IsEvaluated store (record_checked store signal payload key checked)
record_checked-IsEvaluated store signal payload key invalid = tt
record_checked-IsEvaluated store signal payload key unserializable = tt
record_checked-IsEvaluated store signal payload key (accepted output) =
    record_decision-IsEvaluated store signal output payload none key
record_checked-IsEvaluated store signal payload key (refused output code) =
    record_decision-IsEvaluated store signal output payload (some code) key

module _ (enabled : Bool) (adapter_name : String) (mode : EvaluationMode) (min_confidence : ℕ)
    (secrets : List String) (lower : String → String) (replace : String → String → String → String)
    (claims_facts : Json → Option Bool) (model_validate : Json → Option DecisionOutput)
    (adapter : DecisionInput → Answer) (evaluation_key : DecisionSignal → String)
    (limits : InputLimits) where
  -- `evaluate(signal_id=..., force=False)`
  abbrev pub evaluate_unforced : DecisionStore → ℕ → Evaluated
  evaluate_unforced store signal_id =
      evaluate enabled adapter_name mode min_confidence secrets lower replace claims_facts
        model_validate adapter evaluation_key limits store signal_id false

  record_answer-IsEvaluated :
      (store : DecisionStore) (signal : DecisionSignal) (key : Option String)
      (input : DecisionInput) (answer : Answer)
      → IsEvaluated store (
          record_answer enabled adapter_name mode min_confidence secrets lower replace claims_facts
            model_validate adapter evaluation_key limits store signal key input answer)
  record_answer-IsEvaluated store signal key input (failed code) =
      record_decision-IsEvaluated store signal (safe_reject signal code) _ (some code) key
  record_answer-IsEvaluated store signal key input (answered raw) =
      record_checked-IsEvaluated store signal _ key
        (validate_output lower claims_facts model_validate min_confidence secrets raw signal input)

  ask-IsEvaluated :
      (store : DecisionStore) (signal : DecisionSignal) (key : Option String) (input : BuiltInput)
      → IsEvaluated store (
          ask enabled adapter_name mode min_confidence secrets lower replace claims_facts
            model_validate adapter evaluation_key limits store signal key input)
  ask-IsEvaluated store signal key input_invalid = tt
  ask-IsEvaluated store signal key (adapter_error code) =
      record_decision-IsEvaluated store signal (safe_reject signal code) _ (some code) key
  ask-IsEvaluated store signal key (built input) =
      record_answer-IsEvaluated store signal key input (adapter input)

  existing_or_ask-IsEvaluated :
      (store : DecisionStore) (signal : DecisionSignal) (key : String)
      (found : Option PersistedDecision)
      → IsEvaluated store (
          existing_or_ask enabled adapter_name mode min_confidence secrets lower replace
            claims_facts model_validate adapter evaluation_key limits store signal key
            (Option.map mark_existing found))
  existing_or_ask-IsEvaluated store signal key none =
      ask-IsEvaluated store signal (some key) (build_input limits mode signal)
  existing_or_ask-IsEvaluated store signal key (some d) = omega arith

  evaluate_loaded-IsEvaluated :
      (store : DecisionStore) (signal : Option DecisionSignal)
      → IsEvaluated store (
          evaluate_loaded enabled adapter_name mode min_confidence secrets lower replace
            claims_facts model_validate adapter evaluation_key limits store false signal)
  evaluate_loaded-IsEvaluated store none = tt
  evaluate_loaded-IsEvaluated store (some signal) =
      elim (Bool-cases (not (str_eq signal.signal_status "CANDIDATE"))) [
        | inl r ↦ rw (r, IsEvaluated) tt
        | inr r ↦ elim (Bool-cases (not (contains adapter_name ("fake" ∷ "openai" ∷ [])))) [
          | inl q ↦ rw (r, q, IsEvaluated) tt
          | inr q ↦
              rw (r, q, IsEvaluated)
                (existing_or_ask-IsEvaluated store signal (evaluation_key signal)
                  (find_key (evaluation_key signal) store.evaluation_keys))
        ]
      ]

  pub evaluate_unforced-IsEvaluated :
      (store : DecisionStore) (signal_id : ℕ)
      → IsEvaluated store (evaluate_unforced store signal_id)
  unfolding evaluate
  evaluate_unforced-IsEvaluated store signal_id = elim (Bool-cases enabled) [
    | inl r ↦ rw (r, IsEvaluated) (evaluate_loaded-IsEvaluated store (load_signal store signal_id))
    | inr r ↦ rw (r, IsEvaluated) tt
  ]
