-- ===== src/Decision/Service.antt =====
-- `evaluate` of backend/app/decision/service.py over `InMemoryDecisionRepository` of
-- backend/app/decision/repository.py. The adapter is the parameter `adapter`, and the hash of an
-- evaluation's identity the parameter `evaluation_key`; hashes, payload texts and times of a record
-- are left out. `mode` is the evaluation mode that the settings name. The lock makes an evaluation
-- one step.
pub mod Repeats
pub mod Tests
use mathlib.Core.Option
use trader_ai.Common.{
  ℕ, ◌+◌, String, Bool, true, false, not, ◌&&◌, Option, none, some, List, [], ◌∷◌, ◌++◌, map,
  str_eq, ltb, nat_eq, if◌then◌else◌, length, find_first, text_comparable, number_comparable,
  contains, ℤ, leb_ℤ, pos, Json, Fields, get_field, bool, str, obj, end, field,
}
use trader_ai.Decision.Outputs.{
  Verdict, Sufficiency, EvaluationMode, DecisionOutput, DecisionInput, DecisionSignal, truthy,
  safe_reject, Checked, validate_output, accepted, refused, invalid, unserializable,
}
use trader_ai.Decision.Payloads.{sanitize_raw_output}

pub record PersistedDecision : Type 0 where
  pub recommendation_id : ℕ
  pub model_run_id : ℕ
  pub signal_id : ℕ
  pub strategy : String
  pub verdict : Verdict
  pub confidence : ℕ
  pub reasons : List String
  pub warnings : List String
  pub data_sufficiency : Sufficiency
  pub error_code : Option String
  pub existing : Bool

pub record ModelRun : Type 0 where
  pub id : ℕ
  pub output_payload : Json
  pub error_code : Option String

pub record DecisionStore : Type 0 where
  pub signals : List DecisionSignal
  pub recommendations : List PersistedDecision
  pub model_runs : List ModelRun
  pub evaluation_keys : List (String × PersistedDecision)

abbrev pub load_signal : DecisionStore → ℕ → Option DecisionSignal
load_signal store signal_id =
    find_first (λ (s : DecisionSignal). nat_eq s.id signal_id) store.signals

abbrev pub find_key : String → List (String × PersistedDecision) → Option PersistedDecision
find_key key [] = none
find_key key ((k, d) ∷ rest) = if str_eq k key then some d else find_key key rest

-- `PersistedDecision(**{**found.__dict__, "existing": True})`
abbrev pub mark_existing : PersistedDecision → PersistedDecision
mark_existing d = record d { existing = true }

abbrev pub find_by_evaluation_key : DecisionStore → String → Option PersistedDecision
find_by_evaluation_key store key = Option.map mark_existing (find_key key store.evaluation_keys)

-- `self.evaluation_keys[evaluation_key] = persisted`, where a key is given.
abbrev pub set_key :
    Option String
    → PersistedDecision
    → List (String × PersistedDecision)
    → List (String × PersistedDecision)
set_key none d keys = keys
set_key (some key) d keys = (key, d) ∷ keys

abbrev pub persisted_of :
    DecisionStore → DecisionSignal → DecisionOutput → Option String → PersistedDecision
persisted_of store signal output error_code = record {
  recommendation_id = length store.recommendations + 1;
  model_run_id = length store.model_runs + 1;
  signal_id = signal.id;
  strategy = signal.strategy_name;
  verdict = output.verdict;
  confidence = output.confidence;
  reasons = output.reasons;
  warnings = output.warnings;
  data_sufficiency = output.data_sufficiency;
  error_code = error_code;
  existing = false;
}

abbrev pub run_of : DecisionStore → Json → Option String → ModelRun
run_of store output_payload error_code = record {
  id = length store.model_runs + 1;
  output_payload = output_payload;
  error_code = error_code;
}

unfoldable pub record_decision :
    DecisionStore
    → DecisionSignal
    → DecisionOutput
    → Json
    → Option String
    → Option String
    → DecisionStore × PersistedDecision
record_decision store signal output output_payload error_code key =
    let persisted = persisted_of store signal output error_code in
    let run = run_of store output_payload error_code in
    (
      record store {
        model_runs = store.model_runs ++ run ∷ [];
        recommendations = store.recommendations ++ persisted ∷ [];
        evaluation_keys = set_key key persisted store.evaluation_keys;
      },
      persisted,
    )

-- An adapter's answer, or the code of a `DecisionAdapterError`.
pub data Answer : Type 0 where
  answered : Json → Answer
  failed : String → Answer

pub data DecisionError : Type 0 where
  decision_disabled signal_not_found signal_ineligible : DecisionError
  unsupported_adapter validation_error type_error : DecisionError

pub data Evaluated : Type 0 where
  refused_by : DecisionError → Evaluated
  decided : DecisionStore → PersistedDecision → Evaluated

abbrev pub mapping_of : Option Json → Option Fields
mapping_of (some (obj fields)) = some fields
mapping_of _ = none

-- `features.get("future_live_qualification", {})`
abbrev pub future_of : Option Json → Option Fields
future_of none = some end
future_of (some j) = mapping_of (some j)

abbrev pub allowed_data_quality : List String
allowed_data_quality =
    "history_complete" ∷ "quote_fresh" ∷ "spread_available" ∷ "candle_continuity_ok"
    ∷ "session_start_available" ∷ "opening_range_complete"
    ∷ "current_session_complete_through_latest" ∷ []

abbrev pub allowed_future_qualification : List String
allowed_future_qualification =
    "observation_mode" ∷ "eligible_strategy" ∷ "spread_required" ∷ "spread_validated"
    ∷ "future_live_qualified" ∷ "warnings" ∷ []

-- The dict comprehensions of `_build_input`: the allowed keys, with their values passed through `f`.
abbrev pub keep_allowed : List String → (Json → Json) → Fields → Fields
keep_allowed allowed f end = end
keep_allowed allowed f (field k v rest) =
    let later = keep_allowed allowed f rest in
    if contains k allowed then field k (f v) later else later

-- The numbers of `DecisionPaperState` and of `DecisionLimits`.
pub record InputLimits : Type 0 where
  pub max_trades_per_day : ℤ
  pub max_trade_notional_inr : ℤ
  pub max_planned_risk_inr : ℤ
  pub max_daily_loss_inr : ℤ

-- What `_build_input` gives: the code of a `DecisionAdapterError`, pydantic's `ValidationError`, or
-- an input.
pub data BuiltInput : Type 0 where
  adapter_error : String → BuiltInput
  input_invalid : BuiltInput
  built : DecisionInput → BuiltInput

-- `Field(gt=0)` of the id and `Field(ge=0)` of the numbers.
unfoldable pub is_valid_input : InputLimits → DecisionSignal → Bool
is_valid_input limits signal =
    ltb 0 signal.id
    && (leb_ℤ (pos 0) limits.max_trades_per_day
        && (leb_ℤ (pos 0) limits.max_trade_notional_inr
            && (leb_ℤ (pos 0) limits.max_planned_risk_inr
                && leb_ℤ (pos 0) limits.max_daily_loss_inr)))

abbrev pub build_from :
    InputLimits
    → EvaluationMode
    → DecisionSignal
    → Option Fields
    → Option Fields
    → Option Fields
    → BuiltInput
build_from limits mode signal none quality future = adapter_error "signal_features_missing"
build_from limits mode signal (some indicators) none future =
    adapter_error "signal_features_missing"
build_from limits mode signal (some indicators) (some quality) none =
    adapter_error "signal_features_invalid"
build_from limits mode signal (some indicators) (some quality) (some future) =
    if not (is_valid_input limits signal)
    then input_invalid
    else built (record {
      evaluation_mode = mode;
      data_quality = keep_allowed allowed_data_quality (λ v. bool (truthy (some v))) quality;
      future_live_qualification = keep_allowed allowed_future_qualification (λ v. v) future;
    })

-- `_build_input`
unfoldable pub build_input : InputLimits → EvaluationMode → DecisionSignal → BuiltInput
build_input limits mode signal =
    build_from limits mode signal (mapping_of (get_field "indicator_values" signal.features))
      (mapping_of (get_field "data_quality" signal.features))
      (future_of (get_field "future_live_qualification" signal.features))

abbrev pub store_and_decision : DecisionStore × PersistedDecision → Evaluated
store_and_decision (store, d) = decided store d

-- The answer of a checked output; its raw form is kept sanitised.
abbrev pub record_checked :
    DecisionStore → DecisionSignal → Json → Option String → Checked → Evaluated
record_checked store signal payload key invalid = refused_by validation_error
record_checked store signal payload key unserializable = refused_by type_error
record_checked store signal payload key (accepted output) =
    store_and_decision (record_decision store signal output payload none key)
record_checked store signal payload key (refused output code) =
    store_and_decision (record_decision store signal output payload (some code) key)

-- What is recorded of a `DecisionAdapterError`.
abbrev pub record_failure : DecisionStore → DecisionSignal → Option String → String → Evaluated
record_failure store signal key code = store_and_decision (
    record_decision store signal (safe_reject signal code) (obj (field "error_code" (str code) end))
      (some code) key)

module _ (enabled : Bool) (adapter_name : String) (mode : EvaluationMode) (min_confidence : ℕ)
    (secrets : List String) (lower : String → String) (replace : String → String → String → String)
    (claims_facts : Json → Option Bool) (model_validate : Json → Option DecisionOutput)
    (adapter : DecisionInput → Answer) (evaluation_key : DecisionSignal → String)
    (limits : InputLimits) where
  abbrev pub record_answer :
      DecisionStore → DecisionSignal → Option String → DecisionInput → Answer → Evaluated
  record_answer store signal key input (failed code) = record_failure store signal key code
  record_answer store signal key input (answered raw) =
      record_checked store signal (sanitize_raw_output lower replace secrets raw) key
        (validate_output lower claims_facts model_validate min_confidence secrets raw signal input)

  abbrev pub ask : DecisionStore → DecisionSignal → Option String → BuiltInput → Evaluated
  ask store signal key (adapter_error code) = record_failure store signal key code
  ask store signal key input_invalid = refused_by validation_error
  ask store signal key (built input) = record_answer store signal key input (adapter input)

  abbrev pub existing_or_ask :
      DecisionStore → DecisionSignal → String → Option PersistedDecision → Evaluated
  existing_or_ask store signal key (some d) = decided store d
  existing_or_ask store signal key none =
      ask store signal (some key) (build_input limits mode signal)

  -- `_evaluate_locked`
  abbrev pub evaluate_locked : DecisionStore → DecisionSignal → Bool → Evaluated
  evaluate_locked store signal true = ask store signal none (build_input limits mode signal)
  evaluate_locked store signal false =
      let key = evaluation_key signal in
      existing_or_ask store signal key (find_by_evaluation_key store key)

  abbrev pub evaluate_loaded : DecisionStore → Bool → Option DecisionSignal → Evaluated
  evaluate_loaded store force none = refused_by signal_not_found
  evaluate_loaded store force (some signal) =
      if not (str_eq signal.signal_status "CANDIDATE")
      then refused_by signal_ineligible
      else if not (contains adapter_name ("fake" ∷ "openai" ∷ []))
      then refused_by unsupported_adapter
      else evaluate_locked store signal force

  unfoldable pub evaluate : DecisionStore → ℕ → Bool → Evaluated
  evaluate store signal_id force =
      if not enabled
      then refused_by decision_disabled
      else evaluate_loaded store force (load_signal store signal_id)
