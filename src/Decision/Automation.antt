-- ===== src/Decision/Automation.antt =====
-- backend/app/decision/automation.py over `InMemoryDecisionRepository` of repository.py. `run` is the
-- call of the decision service that is not forced, with its evaluation mode; `adapter_name` and
-- `mode_name` are its settings, stripped, in lower and in upper case; `sent` tells whether the
-- notifier sent a decision and skipped nothing; the notifier gives its failures as results.
pub mod Counts
pub mod Bounds
pub mod Summary
mod Tests
use trader_ai.Common.{
  ℕ, ◌+◌, String, ◌⊎◌, inl, inr, Bool, true, false, not, ◌&&◌, ◌||◌, Option, none, some, List, [],
  ◌∷◌, ◌++◌, map, str_eq, ltb, leb, nat_eq, if◌then◌else◌, length, take, is_empty, keep_if, any_of,
  text_comparable, number_comparable, contains, ℤ, pos_part, max_ℤ, min_ℤ, pos,
}
use trader_ai.Decision.Outputs.{
  Verdict, EvaluationMode, DecisionSignal, historical_replay, live_shadow, future_live_eligibility,
}
use trader_ai.Decision.Service.{PersistedDecision, DecisionStore, Evaluated, refused_by, decided}

pub record AutomationSettings : Type 0 where
  pub auto_evaluate_enabled : Bool
  pub decision_enabled : Bool
  pub only_candidates : Bool
  pub max_signals : ℤ
  pub notify_enabled : Bool
  pub notify_verdicts : Verdict → Bool

pub data SkippedReason : Type 0 where
  auto_evaluation_disabled decision_service_disabled candidate_only_required : SkippedReason
  scanner_dry_run no_candidates : SkippedReason

-- `_auto_skip_reason`
abbrev pub auto_skip_reason : AutomationSettings → Bool → ℕ → Option SkippedReason
auto_skip_reason cfg dry_run candidate_count =
    if not cfg.auto_evaluate_enabled
    then some auto_evaluation_disabled
    else if not cfg.decision_enabled
    then some decision_service_disabled
    else if not cfg.only_candidates
    then some candidate_only_required
    else if dry_run
    then some scanner_dry_run
    else if ltb candidate_count 1
    then some no_candidates
    else none

-- `_bounded_max`
abbrev pub bounded_max : AutomationSettings → ℤ
bounded_max cfg = max_ℤ (pos 1) (min_ℤ cfg.max_signals (pos 50))

-- The filters of `list_unevaluated_candidate_ids`.
pub record Scope : Type 0 where
  pub started_at : Option ℕ
  pub finished_at : Option ℕ
  pub symbols : List String
  pub oldest_first : Bool

abbrev pub time_of : DecisionSignal → ℕ
time_of signal = elim signal.created_at [ none ↦ signal.signal_time | some t ↦ t ]

abbrev pub not_before : Option ℕ → ℕ → Bool
not_before none t = true
not_before (some start) t = leb start t

abbrev pub not_after : Option ℕ → ℕ → Bool
not_after none t = true
not_after (some end_) t = leb t end_

abbrev pub is_open : DecisionStore → Scope → DecisionSignal → Bool
is_open store scope signal =
    str_eq signal.signal_status "CANDIDATE"
    && ((is_empty scope.symbols || contains signal.symbol scope.symbols)
        && (not_before scope.started_at (time_of signal)
            && (not_after scope.finished_at (time_of signal)
                && not (
                    any_of (λ (d : PersistedDecision). nat_eq d.signal_id signal.id)
                      store.recommendations))))

-- The order by time and id.
abbrev pub is_first : DecisionSignal → DecisionSignal → Bool
is_first a b = ltb (time_of a) (time_of b) || (nat_eq (time_of a) (time_of b) && leb a.id b.id)

abbrev pub insert_candidate : Bool → DecisionSignal → List DecisionSignal → List DecisionSignal
insert_candidate oldest_first s [] = s ∷ []
insert_candidate oldest_first s (t ∷ ts) =
    let rest = insert_candidate oldest_first s ts in
    if (if oldest_first then is_first s t else is_first t s) then s ∷ t ∷ ts else t ∷ rest

abbrev pub sort_candidates : Bool → List DecisionSignal → List DecisionSignal
sort_candidates oldest_first [] = []
sort_candidates oldest_first (s ∷ ss) =
    insert_candidate oldest_first s (sort_candidates oldest_first ss)

unfoldable pub list_unevaluated_candidate_ids : DecisionStore → Scope → ℕ → List ℕ
list_unevaluated_candidate_ids store scope limit =
    map (λ (s : DecisionSignal). s.id)
      (take limit
        (sort_candidates scope.oldest_first (keep_if (is_open store scope) store.signals)))

pub data ItemResult : Type 0 where
  failed_item : ℕ → ItemResult
  decided_item : PersistedDecision → ItemResult

pub record AutoSummary : Type 0 where
  pub attempted : ℕ
  pub created : ℕ
  pub existing : ℕ
  pub failed : ℕ
  pub skipped : ℕ
  pub skipped_reason : Option SkippedReason
  pub notified : ℕ
  pub truncated : Bool
  pub results : List ItemResult

unfoldable pub empty_summary : ℕ → Bool → ℕ → Option SkippedReason → AutoSummary
empty_summary attempted truncated skipped reason = record {
  attempted = attempted;
  created = 0;
  existing = 0;
  failed = 0;
  skipped = skipped;
  skipped_reason = reason;
  notified = 0;
  truncated = truncated;
  results = [];
}

-- `status == "FAILED"`, which a decision has exactly with an error code that is not empty.
abbrev pub is_failed : PersistedDecision → Bool
is_failed d = elim d.error_code [ none ↦ false | some code ↦ not (str_eq code "") ]

-- `_notify_decision`
abbrev pub notify_decision :
    AutomationSettings → (PersistedDecision → Bool) → PersistedDecision → Bool
notify_decision cfg sent d =
    cfg.notify_enabled && ((is_failed d || cfg.notify_verdicts d.verdict) && sent d)

abbrev pub one_if : Bool → ℕ
one_if b = if b then 1 else 0

-- The branches on `decision.existing`.
unfoldable pub count_as :
    Bool
    → AutomationSettings
    → (PersistedDecision → Bool)
    → PersistedDecision
    → AutoSummary
    → AutoSummary
count_as true cfg sent d s = record s {
  existing = s.existing + 1;
  results = s.results ++ decided_item d ∷ [];
}
count_as false cfg sent d s = record s {
  created = s.created + 1;
  failed = s.failed + one_if (is_failed d);
  notified = s.notified + one_if (notify_decision cfg sent d);
  results = s.results ++ decided_item d ∷ [];
}

-- The `except` branch of the loop.
unfoldable pub count_failure : ℕ → AutoSummary → AutoSummary
count_failure signal_id s = record s {
  failed = s.failed + 1;
  results = s.results ++ failed_item signal_id ∷ [];
}

-- Why a batch raises: `DecisionConfigError` or `DecisionDisabledError`.
pub data AutomationError : Type 0 where
  config_error disabled_error : AutomationError

-- `EvaluationMode(...)` of the setting, stripped and in upper case. `none` is the error.
abbrev pub evaluation_mode_of : String → Option EvaluationMode
evaluation_mode_of name =
    if str_eq "HISTORICAL_REPLAY" name
    then some historical_replay
    else if str_eq "LIVE_SHADOW" name
    then some live_shadow
    else if str_eq "FUTURE_LIVE_ELIGIBILITY" name
    then some future_live_eligibility
    else none

-- The mode of `evaluation_identity`, of the adapter's name and the mode's. `none` is
-- `DecisionConfigError`.
unfoldable pub evaluation_identity : String → String → Option EvaluationMode
evaluation_identity adapter_name mode_name =
    if not (contains adapter_name ("fake" ∷ "openai" ∷ []))
    then none
    else evaluation_mode_of mode_name

module _ (run : EvaluationMode → DecisionStore → ℕ → Evaluated) (adapter_name mode_name : String)
    (cfg : AutomationSettings) (sent : PersistedDecision → Bool) where
  abbrev pub count_evaluated :
      ℕ → Evaluated → AutoSummary × DecisionStore → AutoSummary × DecisionStore
  count_evaluated signal_id (refused_by e) (s, store) = (count_failure signal_id s, store)
  count_evaluated signal_id (decided after d) (s, store) = (count_as d.existing cfg sent d s, after)

  -- The loop of `_evaluate_candidates`.
  abbrev pub evaluate_ids :
      EvaluationMode → List ℕ → AutoSummary → DecisionStore → AutoSummary × DecisionStore
  evaluate_ids mode [] s store = (s, store)
  evaluate_ids mode (id ∷ ids) s store =
      let next = count_evaluated id (run mode store id) (s, store) in
      evaluate_ids mode ids next.0 next.1

  -- What `_evaluate_candidates` does once the identity is known.
  unfoldable pub evaluate_listed :
      EvaluationMode → ℕ → Scope → DecisionStore → AutoSummary × DecisionStore
  evaluate_listed mode limit scope store =
      let found = list_unevaluated_candidate_ids store scope (limit + 1) in
      let signal_ids = take limit found in
      evaluate_ids mode signal_ids
        (empty_summary (length signal_ids) (ltb limit (length found)) 0 none) store

  abbrev pub evaluate_identified :
      Option EvaluationMode
      → ℕ
      → Scope
      → DecisionStore
      → AutomationError ⊎ (AutoSummary × DecisionStore)
  evaluate_identified none limit scope store = inl config_error
  evaluate_identified (some mode) limit scope store = inr (evaluate_listed mode limit scope store)

  -- An error leaves the store as it was.
  abbrev pub evaluate_candidates :
      ℕ → Scope → DecisionStore → AutomationError ⊎ (AutoSummary × DecisionStore)
  evaluate_candidates = evaluate_identified (evaluation_identity adapter_name mode_name)

  abbrev pub skip_or_evaluate :
      Option SkippedReason → Scope → DecisionStore → AutomationError ⊎ (AutoSummary × DecisionStore)
  skip_or_evaluate (some reason) scope store = inr (empty_summary 0 false 1 (some reason), store)
  skip_or_evaluate none scope store = evaluate_candidates (pos_part (bounded_max cfg)) scope store

  unfoldable pub evaluate_scanner_batch :
      ℕ
      → ℕ
      → List String
      → Bool
      → ℕ
      → DecisionStore
      → AutomationError ⊎ (AutoSummary × DecisionStore)
  evaluate_scanner_batch started finished symbols dry_run candidate_count store =
      skip_or_evaluate (auto_skip_reason cfg dry_run candidate_count)
        (record {
          started_at = some started;
          finished_at = some finished;
          symbols = symbols;
          oldest_first = true;
        })
        store

  unfoldable pub evaluate_latest :
      ℤ → DecisionStore → AutomationError ⊎ (AutoSummary × DecisionStore)
  evaluate_latest limit store =
      if not cfg.decision_enabled
      then inl disabled_error
      else evaluate_candidates (pos_part (min_ℤ (max_ℤ (pos 1) limit) (bounded_max cfg)))
          (record { started_at = none; finished_at = none; symbols = []; oldest_first = false })
          store
