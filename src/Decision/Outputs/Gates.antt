-- ===== src/Decision/Outputs/Gates.antt =====
-- What the checks of an output let through.
use trader_ai.Common.{
  ℕ, String, ◌≡◌, refl, sym, ap, ◌∙◌, subst, ◌≢◌, ◌⊎◌, inl, inr, Bool, true, false, not, Option,
  none, some, List, [], ◌∷◌, ◌++◌, str_eq, ltb, if◌then◌else◌, Bool-cases, is_some, length,
  text_comparable, number_comparable, contains, unique, Json,
}
use trader_ai.Scanner.Vetoes.{orb, pullback}
use trader_ai.Decision.Payloads.{find_prohibited_key, contains_secret_value}
use trader_ai.Decision.Outputs.{
  Verdict, EvaluationMode, DecisionOutput, DecisionInput, DecisionSignal,
  eligibility_context_warnings, shadow_watch, Checked, refuse, accept_or_invalid, check_context,
  check_verdict, is_insufficient, check_output, check_schema, check_facts, validate_output,
  eligible, watch, reject, historical_replay, live_shadow, future_live_eligibility, accepted,
  refused, invalid, unserializable,
}

pub gate :
    (b : Bool) (x rest c : Checked) → x ≢ c → (if b then x else rest) ≡ c → (b ≡ false) × (rest ≡ c)
gate true x rest c ne h = absurd (ne h)
gate false x rest c ne h = (refl, h)

refused-accepted : (o out : DecisionOutput) (code : String) → refused o code ≢ accepted out
refused-accepted o out code h = cc

unserializable-accepted : (out : DecisionOutput) → unserializable ≢ accepted out
unserializable-accepted out h = cc

not_watch : watch ≢ eligible
not_watch h = cc

not_reject : reject ≢ eligible
not_reject h = cc

-- What an output has passed on the way to `check_verdict`, where the result is not a refusal.
pub record IsVetted (lower : String → String) (claims_facts : Json → Option Bool)
    (model_validate : Json → Option DecisionOutput) (secrets : List String) (raw : Json)
    (signal : DecisionSignal) (output : DecisionOutput) : Type 0 where
  pub unprohibited : is_some (find_prohibited_key lower raw) ≡ false
  pub secretless : contains_secret_value secrets raw ≡ false
  pub factless : claims_facts raw ≡ some false
  pub valid : model_validate raw ≡ some output
  pub allowed : contains output.strategy_template (orb ∷ pullback ∷ []) ≡ true
  pub matching : str_eq output.strategy_template signal.strategy_name ≡ true
  pub enough : is_insufficient output.data_sufficiency ≡ false

flipped : (b : Bool) → not b ≡ false → b ≡ true
flipped true h = refl
flipped false h = cc

module _ (min_confidence : ℕ) (signal : DecisionSignal) (input : DecisionInput) (c : Checked)
    (ne : (code : String) → refuse signal code ≢ c) where
  checked :
      (output : DecisionOutput)
      → check_output min_confidence signal input output ≡ c
      → (contains output.strategy_template (orb ∷ pullback ∷ []) ≡ true)
        × (str_eq output.strategy_template signal.strategy_name ≡ true)
        × (is_insufficient output.data_sufficiency ≡ false)
        × (check_verdict output.verdict min_confidence signal input output ≡ c)
  unfolding check_output
  checked output h =
      let (a, h1) = gate _ _ _ c (ne _) h in
      let (b, h2) = gate _ _ _ c (ne _) h1 in
      let (d, h3) = gate _ _ _ c (ne _) h2 in (flipped _ a, flipped _ b, d, h3)

  schema :
      (v : Option DecisionOutput)
      → check_schema min_confidence signal input v ≡ c
      → (output : DecisionOutput) × (v ≡ some output)
        × (check_output min_confidence signal input output ≡ c)
  schema none h = absurd (ne _ h)
  schema (some output) h = (output, refl, h)

  module _ (raises : unserializable ≢ c) where
    facts :
        (f : Option Bool) (v : Option DecisionOutput)
        → check_facts min_confidence signal input f v ≡ c
        → (f ≡ some false) × (check_schema min_confidence signal input v ≡ c)
    facts none v h = absurd (raises h)
    facts (some true) v h = absurd (ne _ h)
    facts (some false) v h = (refl, h)

  module _ (raises : unserializable ≢ c) (lower : String → String)
      (claims_facts : Json → Option Bool) (model_validate : Json → Option DecisionOutput)
      (secrets : List String) where
    pub vetted :
        (raw : Json)
        → validate_output lower claims_facts model_validate min_confidence secrets raw signal input
          ≡ c
        → (output : DecisionOutput) × IsVetted lower claims_facts model_validate secrets raw signal
            output
          × (check_verdict output.verdict min_confidence signal input output ≡ c)
    unfolding validate_output
    vetted raw h =
        let (a, h1) = gate _ _ _ c (ne _) h in
        let (b, h2) = gate _ _ _ c (ne _) h1 in
        let (d, h3) = gate _ _ _ c (ne _) h2 in
        let (e, h4) = facts raises (claims_facts raw) (model_validate raw) h3 in
        let (output, v, h5) = schema (model_validate raw) h4 in
        let (p, q, r, s) = checked output h5 in
        (
          output,
          record {
            unprohibited = b;
            secretless = d;
            factless = e;
            valid = v;
            allowed = p;
            matching = q;
            enough = r;
          },
          s,
        )

accepted_inj : (a b : DecisionOutput) → accepted a ≡ accepted b → a ≡ b
accepted_inj a b h =
    ap (λ x. elim x [ accepted o ↦ o | refused o code ↦ a | invalid ↦ a | unserializable ↦ a ]) h

watched :
    (output out : DecisionOutput) (ws : List String)
    → accept_or_invalid (shadow_watch output ws) ≡ accepted out
    → out.verdict ≡ watch
unfolding shadow_watch
watched output out ws h = elim (Bool-cases (ltb 20 (length (unique (output.warnings ++ ws))))) [
  | inl e ↦ absurd (cc (rw e at h))
  | inr e ↦ ap DecisionOutput.verdict (sym (accepted_inj _ out (rw e at h)))
]

context-accepted :
    (signal : DecisionSignal) (mode : EvaluationMode) (ws : List String)
    (output out : DecisionOutput)
    → check_context signal mode ws output ≡ accepted out
    → out.verdict ≡ eligible
    → (output ≡ out) × ((mode ≡ historical_replay) ⊎ (ws ≡ []))
context-accepted signal mode [] output out h e = (accepted_inj output out h, inr refl)
context-accepted signal historical_replay (w ∷ ws) output out h e =
    (accepted_inj output out h, inl refl)
context-accepted signal live_shadow (w ∷ ws) output out h e =
    absurd (not_watch (sym (watched output out (w ∷ ws) h) ∙ e))
context-accepted signal future_live_eligibility (w ∷ ws) output out h e = cc

verdict-accepted :
    (min_confidence : ℕ) (signal : DecisionSignal) (input : DecisionInput) (v : Verdict)
    (output out : DecisionOutput)
    → v ≡ output.verdict
    → check_verdict v min_confidence signal input output ≡ accepted out
    → out.verdict ≡ eligible
    → (output ≡ out)
      × (ltb output.confidence min_confidence ≡ false)
      × ((input.evaluation_mode ≡ historical_replay) ⊎ (eligibility_context_warnings input ≡ []))
verdict-accepted m signal input eligible output out k h e =
    let (sure, h1) = gate _ _ _ (accepted out) (refused-accepted _ out _) h in
    let (same_, context) =
      context-accepted signal input.evaluation_mode (eligibility_context_warnings input) output out
        h1 e in
    (same_, sure, context)
verdict-accepted m signal input watch output out k h e =
    absurd (not_watch (k ∙ ap DecisionOutput.verdict (accepted_inj output out h) ∙ e))
verdict-accepted m signal input reject output out k h e =
    absurd (not_reject (k ∙ ap DecisionOutput.verdict (accepted_inj output out h) ∙ e))

module _ (lower : String → String) (claims_facts : Json → Option Bool)
    (model_validate : Json → Option DecisionOutput) (min_confidence : ℕ)
    (secrets : List String) where
  -- An accepted output of an eligible verdict is the validated raw output, unchanged: the raw output
  -- has no prohibited key, no secret and no claim of outside facts; its strategy is an allowed one
  -- and the signal's; its data are sufficient and its confidence is not below the minimum; and
  -- outside a historical replay nothing is missing from the context.
  pub validate_output-IsVetted :
      (raw : Json) (signal : DecisionSignal) (input : DecisionInput) (out : DecisionOutput)
      → validate_output lower claims_facts model_validate min_confidence secrets raw signal input
        ≡ accepted out
      → out.verdict ≡ eligible
      → IsVetted lower claims_facts model_validate secrets raw signal out
        × (ltb out.confidence min_confidence ≡ false)
        × ((input.evaluation_mode ≡ historical_replay) ⊎ (eligibility_context_warnings input ≡ []))
  validate_output-IsVetted raw signal input out h e =
      let (output, v, h1) =
        vetted min_confidence signal input (accepted out) (λ code. refused-accepted _ out code)
          (unserializable-accepted out) lower claims_facts model_validate secrets raw h in
      let (same_, sure, context) =
        verdict-accepted min_confidence signal input output.verdict output out refl h1 e in
      (
        subst (IsVetted lower claims_facts model_validate secrets raw signal) same_ v,
        subst (λ (o : DecisionOutput). ltb o.confidence min_confidence ≡ false) same_ sure,
        context,
      )
