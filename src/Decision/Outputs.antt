-- ===== src/Decision/Outputs.antt =====
-- The value objects of backend/app/decision/schemas.py and the checks of an output in
-- backend/app/decision/service.py. A confidence is in units of 10^-6. `json.dumps` with the search
-- for `EXTERNAL_FACT_PATTERN` is the parameter `claims_facts`, which gives `none` where `json.dumps`
-- raises a `TypeError`; pydantic's `DecisionOutput.model_validate` is the parameter `model_validate`.
pub mod Gates
mod Tests
use trader_ai.Common.{
  ℕ, ◌+◌, String, Bool, true, false, not, ◌&&◌, Option, none, some, List, [], ◌∷◌, ◌++◌, str_eq,
  ltb, if◌then◌else◌, is_some, length, text_comparable, number_comparable, contains, unique,
  pos_part, neg_part, Json, Fields, get_field, is_dict, is_end, null, bool, num, str, arr, obj,
  other, nil, cons,
}
use trader_ai.Scanner.Vetoes.{orb, pullback}
use trader_ai.Decision.Payloads.{find_prohibited_key, contains_secret_value}

pub data Verdict : Type 0 where
  eligible watch reject : Verdict

pub data Sufficiency : Type 0 where
  sufficient insufficient : Sufficiency

pub data EvaluationMode : Type 0 where
  historical_replay live_shadow future_live_eligibility : EvaluationMode

pub record DecisionOutput : Type 0 where
  pub verdict : Verdict
  pub strategy_template : String
  pub confidence : ℕ
  pub reasons : List String
  pub warnings : List String
  pub recommended_stop_method : Option String
  pub recommended_target_r_multiple : Option ℕ
  pub data_sufficiency : Sufficiency

-- The fields of a `DecisionInput` that the checks read.
pub record DecisionInput : Type 0 where
  pub evaluation_mode : EvaluationMode
  pub data_quality : Fields
  pub future_live_qualification : Fields

pub record DecisionSignal : Type 0 where
  pub id : ℕ
  pub signal_key : String
  pub symbol : String
  pub strategy_name : String
  pub strategy_version : String
  pub signal_status : String
  pub signal_time : ℕ
  pub features : Fields
  pub created_at : Option ℕ

-- `bool(value)`, of what `get` gives.
abbrev pub truthy : Option Json → Bool
truthy none = false
truthy (some null) = false
truthy (some (bool b)) = b
truthy (some (num n)) = ltb 0 (pos_part n + neg_part n)
truthy (some (str s)) = not (str_eq s "")
truthy (some (arr nil)) = false
truthy (some (arr (cons _ _))) = true
truthy (some (obj fields)) = not (is_end fields)
truthy (some (other s)) = true

abbrev pub warning_if : Bool → String → List String → List String
warning_if true w warnings = warnings ++ w ∷ []
warning_if false w warnings = warnings

unfoldable pub eligibility_context_warnings : DecisionInput → List String
eligibility_context_warnings input =
    let future = input.future_live_qualification in
    warning_if
      (truthy (get_field "spread_required" future)
        && not (truthy (get_field "spread_validated" future)))
      "spread_validation_missing"
      (warning_if (not (truthy (get_field "quote_fresh" input.data_quality))) "quote_fresh_missing"
        [])

abbrev pub safe_reject : DecisionSignal → String → DecisionOutput
safe_reject signal reason = record {
  verdict = reject;
  strategy_template = signal.strategy_name;
  confidence = 0;
  reasons = reason ∷ [];
  warnings = [];
  recommended_stop_method = none;
  recommended_target_r_multiple = none;
  data_sufficiency = insufficient;
}

-- `_shadow_watch`. `none` is the `ValidationError` of more than 20 warnings.
unfoldable pub shadow_watch : DecisionOutput → List String → Option DecisionOutput
shadow_watch output warnings =
    let merged = unique (output.warnings ++ warnings) in
    if ltb 20 (length merged)
    then none
    else some (record output {
      verdict = watch;
      warnings = merged;
      recommended_stop_method = none;
      recommended_target_r_multiple = none;
    })

-- An output with its error code, a `ValidationError`, or the `TypeError` of `json.dumps`.
pub data Checked : Type 0 where
  accepted : DecisionOutput → Checked
  refused : DecisionOutput → String → Checked
  invalid unserializable : Checked

abbrev pub refuse : DecisionSignal → String → Checked
refuse signal code = refused (safe_reject signal code) code

abbrev pub accept_or_invalid : Option DecisionOutput → Checked
accept_or_invalid none = invalid
accept_or_invalid (some output) = accepted output

-- The branch for an eligible verdict of enough confidence.
abbrev pub check_context : DecisionSignal → EvaluationMode → List String → DecisionOutput → Checked
check_context signal mode [] output = accepted output
check_context signal historical_replay (w ∷ ws) output = accepted output
check_context signal live_shadow (w ∷ ws) output = accept_or_invalid (shadow_watch output (w ∷ ws))
check_context signal future_live_eligibility (w ∷ ws) output =
    refuse signal "future_live_context_incomplete"

abbrev pub check_verdict : Verdict → ℕ → DecisionSignal → DecisionInput → DecisionOutput → Checked
check_verdict eligible min_confidence signal input output =
    if ltb output.confidence min_confidence
    then refuse signal "eligible_confidence_below_minimum"
    else check_context signal input.evaluation_mode (eligibility_context_warnings input) output
check_verdict _ min_confidence signal input output = accepted output

abbrev pub is_insufficient : Sufficiency → Bool
is_insufficient insufficient = true
is_insufficient sufficient = false

-- The checks of `_validate_output` after the schema.
unfoldable pub check_output : ℕ → DecisionSignal → DecisionInput → DecisionOutput → Checked
check_output min_confidence signal input output =
    if not (contains output.strategy_template (orb ∷ pullback ∷ []))
    then refuse signal "strategy_not_allowlisted"
    else if not (str_eq output.strategy_template signal.strategy_name)
    then refuse signal "strategy_mismatch"
    else if is_insufficient output.data_sufficiency
    then refuse signal "data_insufficient"
    else check_verdict output.verdict min_confidence signal input output

abbrev pub check_schema : ℕ → DecisionSignal → DecisionInput → Option DecisionOutput → Checked
check_schema min_confidence signal input none = refuse signal "schema_validation_failed"
check_schema min_confidence signal input (some output) =
    check_output min_confidence signal input output

-- The search in the text of the raw output, and the checks after it.
abbrev pub check_facts :
    ℕ → DecisionSignal → DecisionInput → Option Bool → Option DecisionOutput → Checked
check_facts min_confidence signal input none v = unserializable
check_facts min_confidence signal input (some true) v = refuse signal "external_fact_claim"
check_facts min_confidence signal input (some false) v = check_schema min_confidence signal input v

module _ (lower : String → String) (claims_facts : Json → Option Bool)
    (model_validate : Json → Option DecisionOutput) (min_confidence : ℕ)
    (secrets : List String) where
  unfoldable pub validate_output : Json → DecisionSignal → DecisionInput → Checked
  validate_output raw signal input =
      if not (is_dict (some raw))
      then refuse signal "malformed_output"
      else if is_some (find_prohibited_key lower raw)
      then refuse signal "prohibited_output_field"
      else if contains_secret_value secrets raw
      then refuse signal "prohibited_output_value"
      else check_facts min_confidence signal input (claims_facts raw) (model_validate raw)
