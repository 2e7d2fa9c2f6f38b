-- ===== src/Scanner/Strategies/Candidates.antt =====
-- What an evaluation of a strategy promises.
use trader_ai.Common.{
  ℕ, String, ◌≡◌, refl, sym, ap, ◌∙◌, subst, ◌≢◌, ◌↔◌, Bool, true, false, not, ◌&&◌, ◌||◌, some,
  List, [], ◌∷◌, str_eq, is_some, some_inj, last_of,
}
use trader_ai.Paper.Schemas.{CompletedBar}
use trader_ai.Scanner.Schemas.{
  ScannerConfig, IndicatorSnapshot, DataQuality, Veto, candidate, rejected_signal,
  invalid_indicator_state,
}
use trader_ai.Scanner.Vetoes.{append_if, hard_vetoes}
use trader_ai.Scanner.Strategies.{
  future_live_qualification, Evaluation, status_of, evaluation, condition_of, evaluate_strategy,
}
use trader_ai.Scanner.Strategies.Tradable.{
  IsTradable, append_if-nil, append_if-false, hard_vetoes-nil, made, status_of-candidate, not-false,
  tradable, tradable-clear,
}

qualified_iff :
    (a r s t : Bool)
    → t ≡ false
    → ((a && ((not (a && r) || s) && not t)) ≡ true)
      ↔ ((candidate ≡ candidate) × (a ≡ true) × (r ≡ true → s ≡ true))
qualified_iff true true true t h = (λ _. (refl, refl, λ _. refl), λ _. rw h refl)
qualified_iff true true false t h = (λ e. cc, λ p. cc (p.2 refl))
qualified_iff true false s t h = (λ _. (refl, refl, λ e. cc), λ _. rw h refl)
qualified_iff false r s t h = (λ e. cc, λ p. p.1)

never : (a : Bool) → (a && false) ≢ true
never true h = cc
never false h = cc

other_status : rejected_signal ≢ candidate
other_status h = cc

module _ (upper : String → String) (name symbol : String) (instrument_id : ℕ)
    (bars : List CompletedBar) (latest : CompletedBar) (indicators : IndicatorSnapshot)
    (quality : DataQuality) (config : ScannerConfig) (is_stale : Bool) (e : Evaluation)
    (ran : evaluate_strategy upper name instrument_id symbol bars indicators quality config is_stale
      ≡ some e)
    (l : last_of bars ≡ some latest) where
  abbrev vetoes : Bool → List Veto
  vetoes c =
      append_if (not c) invalid_indicator_state
        (hard_vetoes upper symbol bars indicators quality config name is_stale)

  vetoes-candidate :
      (c : Bool)
      → condition_of name bars latest indicators config ≡ some c
      → (vetoes c ≡ [])
        ↔ IsTradable upper name symbol bars latest indicators quality config is_stale
  vetoes-candidate c k = (
    (λ h.
        let (ok, hard) = append_if-nil (not c) invalid_indicator_state _ h in
        let (clear, spread) =
          hard_vetoes-nil upper name symbol bars indicators quality config is_stale hard in
        tradable upper name symbol bars latest indicators quality config is_stale l
          (k ∙ ap some (not-false c ok)) clear spread),
    (λ t.
        append_if-false (not c) invalid_indicator_state _ (rw (some_inj (sym k ∙ t.met)) refl)
          (tradable-clear upper name symbol bars latest indicators quality config is_stale l t)),
  )

  status-evaluation :
      (vs : List Veto)
      → (evaluation instrument_id symbol name latest indicators config vs is_stale).status
        ≡ status_of vs
  unfolding evaluation
  status-evaluation vs = refl

  -- An evaluation is a candidate exactly where the symbol is of the NSE, the history is complete
  -- and continuous with the session that the strategy needs, the data is fresh and in time, the
  -- benchmark and the spread are known where they are required, no known spread is too wide, and the
  -- condition of the strategy is met.
  pub evaluate_strategy-IsTradable :
      (e.status ≡ candidate)
      ↔ IsTradable upper name symbol bars latest indicators quality config is_stale
  evaluate_strategy-IsTradable =
      let (c, k, is_e) =
        made upper name symbol bars indicators quality config is_stale instrument_id latest e ran
          l in
      let status_ = ap Evaluation.status is_e ∙ status-evaluation (vetoes c) in
      let both = vetoes-candidate c k in
      (
        (λ h. both.0 ((status_of-candidate (vetoes c)).0 (sym status_ ∙ h))),
        (λ t. status_ ∙ (status_of-candidate (vetoes c)).1 (both.1 t)),
      )

  abbrev IsQualified : Evaluation → Type 0
  IsQualified x = (x.qualification.future_live_qualified ≡ true) ↔ (
      (x.status ≡ candidate)
      × (str_eq name config.future_live_eligible_strategy ≡ true)
      × (config.require_spread_for_future_live ≡ true → is_some indicators.spread_pct ≡ true))

  evaluation-IsQualified :
      (vs : List Veto)
      → (status_of vs ≡ candidate → is_stale ≡ false)
      → IsQualified (evaluation instrument_id symbol name latest indicators config vs is_stale)
  unfolding evaluation future_live_qualification
  evaluation-IsQualified [] fresh = qualified_iff _ _ _ is_stale (fresh refl)
  evaluation-IsQualified (v ∷ vs) fresh = (
    λ h. absurd (never (str_eq name config.future_live_eligible_strategy) h),
    λ p. absurd (other_status p.0),
  )

  -- An evaluation is qualified for a future live phase exactly where it is a candidate of the
  -- eligible strategy whose spread is known if the configuration requires it: a candidate is fresh
  -- and its spread not too wide already.
  pub evaluate_strategy-IsQualified : IsQualified e
  evaluate_strategy-IsQualified =
      let (c, k, is_e) =
        made upper name symbol bars indicators quality config is_stale instrument_id latest e ran
          l in
      subst IsQualified (sym is_e) (
        evaluation-IsQualified (vetoes c)
          (λ h. ((vetoes-candidate c k).0 ((status_of-candidate (vetoes c)).0 h)).fresh))
