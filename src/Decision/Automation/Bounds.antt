-- ===== src/Decision/Automation/Bounds.antt =====
-- The loop of backend/app/decision/automation.py and the limit of its batches.
use trader_ai.Common.{
  ℕ, ◌+◌, ◌≤◌, String, ◌≡◌, refl, ◌∙◌, subst, ◌⊎◌, inl, inr, Bool, true, false, not, ◌&&◌, ◌||◌,
  Option, none, some, List, [], ◌∷◌, arith, str_eq, ltb, Bool-cases, is_some, length, take,
  length-append, length-take-le, text_comparable, number_comparable, contains, pos_part,
}
use trader_ai.Decision.Service.{PersistedDecision, DecisionStore, Evaluated, refused_by, decided}
use trader_ai.Decision.Automation.{
  AutomationSettings, SkippedReason, bounded_max, Scope, list_unevaluated_candidate_ids,
  AutoSummary, empty_summary, is_failed, notify_decision, one_if, count_as, count_failure,
  AutomationError, evaluation_mode_of, evaluation_identity, count_evaluated, evaluate_ids,
  evaluate_listed, evaluate_identified, evaluate_candidates, skip_or_evaluate, failed_item,
  decided_item, config_error,
}
use trader_ai.Decision.Automation.Counts.{IsEvaluated}
use trader_ai.Decision.Outputs.{EvaluationMode}

-- The counts of a loop over `n` signals that began with `before` recommendations.
abbrev pub IsCounted : ℕ → ℕ → ℕ → AutoSummary → Type 0
IsCounted n before after s =
    (length s.results ≡ n)
    × (after ≡ before + s.created)
    × (s.created + s.existing ≤ n)
    × (n ≤ s.created + s.existing + s.failed)
    × (s.existing + s.failed ≤ n)
    × (s.notified ≤ s.created)

one_if_le : (b : Bool) → one_if b ≤ 1
one_if_le b = ground arith

count_as-IsCounted :
    (existing : Bool) (cfg : AutomationSettings) (sent : PersistedDecision → Bool)
    (d : PersistedDecision) (n before now after : ℕ) (s : AutoSummary)
    → IsCounted n before now s
    → after ≡ now + one_if (not existing)
    → IsCounted (n + 1) before after (count_as existing cfg sent d s)
unfolding count_as
count_as-IsCounted true cfg sent d n before now after s h e = (
  omega (arith, length-append s.results (decided_item d ∷ []), h.0),
  omega (arith, e, h.1),
  omega (arith, h.2),
  omega (arith, h.3),
  omega (arith, h.4),
  h.5,
)
count_as-IsCounted false cfg sent d n before now after s h e = (
  omega (arith, length-append s.results (decided_item d ∷ []), h.0),
  omega (arith, e, h.1),
  omega (arith, h.2),
  omega (arith, h.3),
  omega (arith, h.4, one_if_le (is_failed d)),
  omega (arith, h.5, one_if_le (notify_decision cfg sent d)),
)

count_failure-IsCounted :
    (id n before after : ℕ) (s : AutoSummary)
    → IsCounted n before after s
    → IsCounted (n + 1) before after (count_failure id s)
unfolding count_failure
count_failure-IsCounted id n before after s h = (
  omega (arith, length-append s.results (failed_item id ∷ []), h.0),
  h.1,
  omega (arith, h.2),
  omega (arith, h.3),
  omega (arith, h.4),
  h.5,
)

one_loop-IsCounted :
    (cfg : AutomationSettings) (sent : PersistedDecision → Bool)
    (run : EvaluationMode → DecisionStore → ℕ → Evaluated) (adapter_name mode_name : String)
    (id n before : ℕ) (r : Evaluated) (s : AutoSummary) (store : DecisionStore)
    → IsEvaluated store r
    → IsCounted n before (length store.recommendations) s
    → IsCounted
        (n + 1)
        before
        (length
          (count_evaluated run adapter_name mode_name cfg sent id r (s, store)).1.recommendations)
        (count_evaluated run adapter_name mode_name cfg sent id r (s, store)).0
one_loop-IsCounted cfg sent run adapter_name mode_name id n before (refused_by e) s store x h =
    count_failure-IsCounted id n before (length store.recommendations) s h
one_loop-IsCounted cfg sent run adapter_name mode_name id n before (decided after d) s store x h =
    count_as-IsCounted d.existing cfg sent d n before (length store.recommendations)
      (length after.recommendations) s h x

-- A summary whose counts agree with its results and with the growth of the recommendations.
abbrev pub IsSummary : ℕ → DecisionStore → AutoSummary × DecisionStore → Type 0
IsSummary limit store (s, after) =
    IsCounted s.attempted (length store.recommendations) (length after.recommendations) s
    × (s.attempted ≤ limit)

bounded_max_le : (cfg : AutomationSettings) → pos_part (bounded_max cfg) ≤ 50
bounded_max_le cfg = ground arith

-- The supported adapters and evaluation modes.
abbrev pub is_supported : String → String → Bool
is_supported adapter_name mode_name =
    contains adapter_name ("fake" ∷ "openai" ∷ [])
    && contains mode_name ("HISTORICAL_REPLAY" ∷ "LIVE_SHADOW" ∷ "FUTURE_LIVE_ELIGIBILITY" ∷ [])

-- A batch gives a summary where `runs` holds, and else raises the configuration error.
abbrev pub IsBatch :
    Bool → ℕ → DecisionStore → AutomationError ⊎ (AutoSummary × DecisionStore) → Type 0
IsBatch runs limit store (inl e) = (runs ≡ false) × (e ≡ config_error)
IsBatch runs limit store (inr r) = (runs ≡ true) × IsSummary limit store r

mode-IsSupported :
    (name : String)
    → is_some (evaluation_mode_of name)
      ≡ contains name ("HISTORICAL_REPLAY" ∷ "LIVE_SHADOW" ∷ "FUTURE_LIVE_ELIGIBILITY" ∷ [])
mode-IsSupported name = elim (Bool-cases (str_eq "HISTORICAL_REPLAY" name)) [
  | inl e ↦ rw e refl
  | inr e ↦ elim (Bool-cases (str_eq "LIVE_SHADOW" name)) [
    | inl f ↦ rw (e, f) refl
    | inr f ↦ elim (Bool-cases (str_eq "FUTURE_LIVE_ELIGIBILITY" name)) [
      | inl g ↦ rw (e, f, g) refl
      | inr g ↦ rw (e, f, g) refl
    ]
  ]
]

identity-IsSupported :
    (adapter_name mode_name : String)
    → is_some (evaluation_identity adapter_name mode_name) ≡ is_supported adapter_name mode_name
unfolding evaluation_identity
identity-IsSupported adapter_name mode_name =
    elim (Bool-cases (contains adapter_name ("fake" ∷ "openai" ∷ []))) [
      | inl e ↦ rw e (mode-IsSupported mode_name)
      | inr e ↦ rw e refl
    ]

module _ (cfg : AutomationSettings) (sent : PersistedDecision → Bool)
    (run : EvaluationMode → DecisionStore → ℕ → Evaluated) (adapter_name mode_name : String)
    (each : (mode : EvaluationMode) (store : DecisionStore) (id : ℕ)
      → IsEvaluated store (run mode store id)) where
  evaluate_ids-IsCounted :
      (mode : EvaluationMode) (ids : List ℕ) (n before : ℕ) (s : AutoSummary)
      (store : DecisionStore)
      → IsCounted n before (length store.recommendations) s
      → IsCounted
          (n + length ids)
          before
          (length
            (evaluate_ids run adapter_name mode_name cfg sent mode ids s store).1.recommendations)
          (evaluate_ids run adapter_name mode_name cfg sent mode ids s store).0
  evaluate_ids-IsCounted mode [] n before s store h =
      subst (λ k. IsCounted k before (length store.recommendations) s) (omega arith) h
  evaluate_ids-IsCounted mode (id ∷ ids) n before s store h =
      let next =
        count_evaluated run adapter_name mode_name cfg sent id (run mode store id) (s, store) in
      subst
        (λ k.
          IsCounted k before
            (length
              (evaluate_ids run adapter_name mode_name cfg sent mode ids next.0
                next.1).1.recommendations)
            (evaluate_ids run adapter_name mode_name cfg sent mode ids next.0 next.1).0)
        (omega arith)
        (evaluate_ids-IsCounted mode ids (n + 1) before next.0 next.1 (
          one_loop-IsCounted cfg sent run adapter_name mode_name id n before (run mode store id) s
            store (each mode store id) h))

  one_loop-attempted :
      (id : ℕ) (r : Evaluated) (s : AutoSummary) (store : DecisionStore)
      → (count_evaluated run adapter_name mode_name cfg sent id r (s, store)).0.attempted
        ≡ s.attempted
  unfolding count_failure count_as
  one_loop-attempted id (refused_by e) s store = refl
  one_loop-attempted id (decided after d) s store = elim (Bool-cases d.existing) [
    | inl r ↦ rw (r, count_as) refl
    | inr r ↦ rw (r, count_as) refl
  ]

  evaluate_ids-attempted :
      (mode : EvaluationMode) (ids : List ℕ) (s : AutoSummary) (store : DecisionStore)
      → (evaluate_ids run adapter_name mode_name cfg sent mode ids s store).0.attempted
        ≡ s.attempted
  evaluate_ids-attempted mode [] s store = refl
  evaluate_ids-attempted mode (id ∷ ids) s store =
      let next =
        count_evaluated run adapter_name mode_name cfg sent id (run mode store id) (s, store) in
      evaluate_ids-attempted mode ids next.0 next.1
      ∙ one_loop-attempted id (run mode store id) s store

  evaluate_listed-IsSummary :
      (mode : EvaluationMode) (limit : ℕ) (scope : Scope) (store : DecisionStore)
      → IsSummary limit store
          (evaluate_listed run adapter_name mode_name cfg sent mode limit scope store)
  unfolding evaluate_listed empty_summary
  evaluate_listed-IsSummary mode limit scope store =
      let ids = take limit (list_unevaluated_candidate_ids store scope (limit + 1)) in
      let s =
        empty_summary (length ids)
          (ltb limit (length (list_unevaluated_candidate_ids store scope (limit + 1)))) 0 none in
      let before = length store.recommendations in
      let counted =
        evaluate_ids-IsCounted mode ids 0 before s store
          (refl, omega arith, omega arith, omega arith, omega arith, omega arith) in
      let attempted = evaluate_ids-attempted mode ids s store in
      (
        subst
            (λ k.
              IsCounted k before
                (length
                  (evaluate_ids run adapter_name mode_name cfg sent mode ids s
                    store).1.recommendations)
                (evaluate_ids run adapter_name mode_name cfg sent mode ids s store).0)
            (omega (arith, attempted)) counted,
        omega (
          arith,
          attempted,
          length-take-le limit (list_unevaluated_candidate_ids store scope (limit + 1)),
        ),
      )

  identified-IsBatch :
      (identity : Option EvaluationMode) (limit : ℕ) (scope : Scope) (store : DecisionStore)
      → limit ≤ 50
      → IsBatch
          (is_some identity)
          50
          store
          (evaluate_identified run adapter_name mode_name cfg sent identity limit scope store)
  identified-IsBatch none limit scope store h = (refl, refl)
  identified-IsBatch (some mode) limit scope store h =
      let (counted, few) = evaluate_listed-IsSummary mode limit scope store in
      (refl, (counted, omega (arith, few, h)))

  pub skip_or_evaluate-IsBatch :
      (skip : Option SkippedReason) (scope : Scope) (store : DecisionStore)
      → IsBatch
          (is_some skip || is_supported adapter_name mode_name)
          50
          store
          (skip_or_evaluate run adapter_name mode_name cfg sent skip scope store)
  unfolding empty_summary
  skip_or_evaluate-IsBatch (some reason) scope store =
      (refl, ((refl, omega arith, omega arith, omega arith, omega arith, omega arith), omega arith))
  skip_or_evaluate-IsBatch none scope store =
      subst
        (λ b. IsBatch b 50 store (
          evaluate_candidates run adapter_name mode_name cfg sent (pos_part (bounded_max cfg)) scope
            store))
        (identity-IsSupported adapter_name mode_name)
        (identified-IsBatch (evaluation_identity adapter_name mode_name)
          (pos_part (bounded_max cfg)) scope store (bounded_max_le cfg))
