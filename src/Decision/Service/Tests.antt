-- ===== src/Decision/Service/Tests.antt =====
-- A candidate whose features are enough for an evaluation, and an adapter that answers no object.
use trader_ai.Common.{
  String, ◌≡◌, refl, Bool, true, false, Option, none, some, [], ◌∷◌, pos, negsuc, Json, null, obj,
  end, field,
}
use trader_ai.Decision.Payloads.{sanitize_raw_output}
use trader_ai.Decision.Payloads.Tests.{lower, replace}
use trader_ai.Decision.Outputs.{
  DecisionOutput, DecisionInput, DecisionSignal, safe_reject, validate_output, live_shadow,
}
use trader_ai.Decision.Service.{
  PersistedDecision, DecisionStore, mark_existing, persisted_of, run_of, record_decision, Answer,
  InputLimits, is_valid_input, build_input, evaluate, answered, validation_error, refused_by,
  decided,
}
use trader_ai.Decision.Service.Repeats.{evaluate-repeats}

abbrev pub candidate_signal : DecisionSignal
candidate_signal = record {
  id = 7;
  signal_key = "k7";
  symbol = "NSE:SBIN";
  strategy_name = "opening_range_breakout_long";
  strategy_version = "p05_v1";
  signal_status = "CANDIDATE";
  signal_time = 0;
  created_at = none;
  features = field "indicator_values" (obj end) (field "data_quality" (obj end) end);
}

abbrev pub store : DecisionStore
store = record {
  signals = candidate_signal ∷ [];
  recommendations = [];
  model_runs = [];
  evaluation_keys = [];
}

abbrev pub no_facts : Json → Option Bool
no_facts j = some false

abbrev pub no_schema : Json → Option DecisionOutput
no_schema j = none

abbrev pub adapter : DecisionInput → Answer
adapter input = answered null

abbrev pub key_of : DecisionSignal → String
key_of signal = signal.signal_key

abbrev pub limits : InputLimits
limits = record {
  max_trades_per_day = pos 3;
  max_trade_notional_inr = pos 500;
  max_planned_risk_inr = pos 10;
  max_daily_loss_inr = pos 20;
}

abbrev pub rejected : PersistedDecision
rejected =
    persisted_of store candidate_signal (safe_reject candidate_signal "malformed_output")
      (some "malformed_output")

abbrev pub after : DecisionStore
after = record {
  signals = candidate_signal ∷ [];
  recommendations = rejected ∷ [];
  model_runs =
      run_of store (sanitize_raw_output lower replace [] null) (some "malformed_output") ∷ [];
  evaluation_keys = ("k7", rejected) ∷ [];
}

decides :
    evaluate true "fake" live_shadow 700_000 [] lower replace no_facts no_schema adapter key_of
      limits store 7 false
    ≡ decided after rejected
unfolding evaluate build_input is_valid_input record_decision validate_output
decides = refl

evaluate-repeats_example :
    evaluate true "fake" live_shadow 700_000 [] lower replace no_facts no_schema adapter key_of
      limits after 7 false
    ≡ decided after (mark_existing rejected)
evaluate-repeats_example =
    evaluate-repeats true "fake" live_shadow 700_000 [] lower replace no_facts no_schema adapter
      key_of limits store after 7 rejected decides

-- A negative limit raises a `ValidationError`, which is not recorded.
raises :
    evaluate true "fake" live_shadow 700_000 [] lower replace no_facts no_schema adapter key_of
      (record limits { max_daily_loss_inr = negsuc 0 })
      store
      7
      false
    ≡ refused_by validation_error
unfolding evaluate build_input is_valid_input
raises = refl
