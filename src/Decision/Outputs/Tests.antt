-- ===== src/Decision/Outputs/Tests.antt =====
-- An eligible output, and one with twenty warnings in a live shadow evaluation.
use trader_ai.Common.{
  String, ◌≡◌, refl, ◌⊎◌, Bool, true, false, Option, none, some, List, [], ◌∷◌, ltb, if◌then◌else◌,
  Json, Fields, get_field, is_text, bool, str, obj, end, field,
}
use trader_ai.Scanner.Vetoes.{orb}
use trader_ai.Decision.Outputs.{
  EvaluationMode, DecisionOutput, DecisionInput, DecisionSignal, eligibility_context_warnings,
  shadow_watch, check_output, validate_output, eligible, sufficient, historical_replay, live_shadow,
  accepted, invalid, unserializable,
}
use trader_ai.Decision.Outputs.Gates.{IsVetted, validate_output-IsVetted}

abbrev lower : String → String
lower s = s

abbrev claims_facts : Json → Option Bool
claims_facts j = some false

abbrev signal : DecisionSignal
signal = record {
  id = 5;
  signal_key = "k";
  symbol = "NSE:SBIN";
  strategy_name = orb;
  strategy_version = "p05_v1";
  signal_status = "CANDIDATE";
  signal_time = 0;
  created_at = none;
  features = end;
}

abbrev output_with : List String → DecisionOutput
output_with warnings = record {
  verdict = eligible;
  strategy_template = orb;
  confidence = 900_000;
  reasons = "trend" ∷ [];
  warnings = warnings;
  recommended_stop_method = none;
  recommended_target_r_multiple = none;
  data_sufficiency = sufficient;
}

abbrev input_of : EvaluationMode → Fields → DecisionInput
input_of mode quality = record {
  evaluation_mode = mode;
  data_quality = quality;
  future_live_qualification = end;
}

abbrev fresh : DecisionInput
fresh = input_of live_shadow (field "quote_fresh" (bool true) end)

abbrev unfresh : DecisionInput
unfresh = input_of live_shadow end

-- A schema that reads only the verdict.
abbrev schema : List String → Json → Option DecisionOutput
schema warnings (obj fields) =
    if is_text "ELIGIBLE" (get_field "verdict" fields) then some (output_with warnings) else none
schema warnings _ = none

abbrev raw : Json
raw = obj (field "verdict" (str "ELIGIBLE") end)

abbrev twenty : List String
twenty =
    "a" ∷ "b" ∷ "c" ∷ "d" ∷ "e" ∷ "f" ∷ "g" ∷ "h" ∷ "i" ∷ "j" ∷ "k" ∷ "l" ∷ "m" ∷ "n" ∷ "o" ∷ "p"
    ∷ "q" ∷ "r" ∷ "s" ∷ "t" ∷ []

accepts :
    validate_output lower claims_facts (schema []) 700_000 [] raw signal fresh
    ≡ accepted (output_with [])
unfolding validate_output check_output eligibility_context_warnings
accepts = refl

raises : validate_output lower claims_facts (schema twenty) 700_000 [] raw signal unfresh ≡ invalid
unfolding validate_output check_output eligibility_context_warnings shadow_watch
raises = refl

validate_output-IsVetted_example :
    IsVetted lower claims_facts (schema []) [] raw signal (output_with [])
    × (ltb 900_000 700_000 ≡ false)
    × ((live_shadow ≡ historical_replay) ⊎ (eligibility_context_warnings fresh ≡ []))
validate_output-IsVetted_example =
    validate_output-IsVetted lower claims_facts (schema []) 700_000 [] raw signal fresh
      (output_with []) accepts refl

-- An output that `json.dumps` refuses.
unserialized :
    validate_output lower (λ j. none) (schema []) 700_000 [] raw signal fresh ≡ unserializable
unfolding validate_output
unserialized = refl
