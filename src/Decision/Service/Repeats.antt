-- ===== src/Decision/Service/Repeats.antt =====
-- `evaluate` of backend/app/decision/service.py, called again for the same signal.
use mathlib.Core.Option
use trader_ai.Common.{
  ℕ, String, ◌≡◌, refl, sym, ap, ◌∙◌, subst, ◌≢◌, inl, inr, Bool, true, false, Option, none, some,
  List, [], ◌∷◌, str_eq, str_eq_iff, nat_eq, Bool-cases, find_first, text_comparable,
  number_comparable, contains, Json,
}
use trader_ai.Decision.Outputs.{
  EvaluationMode, DecisionOutput, DecisionInput, DecisionSignal, safe_reject, Checked, accepted,
  refused, invalid, unserializable,
}
use trader_ai.Decision.Service.{
  PersistedDecision, DecisionStore, load_signal, find_key, mark_existing, find_by_evaluation_key,
  record_decision, Answer, DecisionError, Evaluated, InputLimits, BuiltInput, build_input,
  store_and_decision, record_checked, record_answer, ask, existing_or_ask, evaluate_loaded,
  evaluate, answered, failed, refused_by, decided, adapter_error, input_invalid, built,
}

pub decided_inj :
    (a b : DecisionStore) (x y : PersistedDecision) → decided a x ≡ decided b y → (a ≡ b) × (x ≡ y)
decided_inj a b x y h = (
  ap (λ e. elim e [ decided s d ↦ s | refused_by r ↦ a ]) h,
  ap (λ e. elim e [ decided s d ↦ d | refused_by r ↦ x ]) h,
)

refused_decided :
    (r : DecisionError) (after : DecisionStore) (d : PersistedDecision)
    → refused_by r ≢ decided after d
refused_decided r after d h = cc

-- What recording under a key leaves behind.
abbrev IsKept : DecisionStore → String → DecisionStore → PersistedDecision → Type 0
IsKept store key after d =
    (after.signals ≡ store.signals) × (find_key key after.evaluation_keys ≡ some d)

text_same : (s : String) → str_eq s s ≡ true
text_same s = (str_eq_iff s s).1 refl

kept :
    (store after : DecisionStore) (d : PersistedDecision) (signal : DecisionSignal)
    (output : DecisionOutput) (payload : Json) (code : Option String) (key : String)
    → store_and_decision (record_decision store signal output payload code (some key))
      ≡ decided after d
    → IsKept store key after d
unfolding record_decision
kept store after d signal output payload code key h =
    let (e, f) = decided_inj _ after _ d h in
    (
      ap DecisionStore.signals (sym e),
      subst (λ (s : DecisionStore). find_key key s.evaluation_keys ≡ some d) e
          (rw (text_same key) (ap some f)),
    )

module _ (enabled : Bool) (adapter_name : String) (mode : EvaluationMode) (min_confidence : ℕ)
    (secrets : List String) (lower : String → String) (replace : String → String → String → String)
    (claims_facts : Json → Option Bool) (model_validate : Json → Option DecisionOutput)
    (adapter : DecisionInput → Answer) (evaluation_key : DecisionSignal → String)
    (limits : InputLimits) where
  abbrev run : DecisionStore → ℕ → Bool → Evaluated
  run =
      evaluate enabled adapter_name mode min_confidence secrets lower replace claims_facts
        model_validate adapter evaluation_key limits

  abbrev asks : DecisionStore → DecisionSignal → Option String → BuiltInput → Evaluated
  asks =
      ask enabled adapter_name mode min_confidence secrets lower replace claims_facts model_validate
        adapter evaluation_key limits

  checked-IsKept :
      (store after : DecisionStore) (d : PersistedDecision) (signal : DecisionSignal)
      (payload : Json) (key : String) (c : Checked)
      → record_checked store signal payload (some key) c ≡ decided after d
      → IsKept store key after d
  checked-IsKept store after d signal payload key invalid h = cc
  checked-IsKept store after d signal payload key unserializable h = cc
  checked-IsKept store after d signal payload key (accepted output) h =
      kept store after d signal output payload none key h
  checked-IsKept store after d signal payload key (refused output code) h =
      kept store after d signal output payload (some code) key h

  ask-IsKept :
      (store after : DecisionStore) (d : PersistedDecision) (signal : DecisionSignal) (key : String)
      (b : BuiltInput)
      → asks store signal (some key) b ≡ decided after d
      → IsKept store key after d
  ask-IsKept store after d signal key input_invalid h = cc
  ask-IsKept store after d signal key (adapter_error code) h =
      kept store after d signal (safe_reject signal code) _ (some code) key h
  ask-IsKept store after d signal key (built input) h = answer (adapter input) h
    where
      answer :
          (x : Answer)
          → record_answer enabled adapter_name mode min_confidence secrets lower replace
              claims_facts model_validate adapter evaluation_key limits store signal
              (some key)
              input
              x
            ≡ decided after d
          → IsKept store key after d
      answer (failed code) h =
          kept store after d signal (safe_reject signal code) _ (some code) key h
      answer (answered raw) h = checked-IsKept store after d signal _ key _ h

  abbrev locked : DecisionStore → DecisionSignal → String → Option PersistedDecision → Evaluated
  locked =
      existing_or_ask enabled adapter_name mode min_confidence secrets lower replace claims_facts
        model_validate adapter evaluation_key limits

  abbrev loaded : DecisionStore → Bool → Option DecisionSignal → Evaluated
  loaded =
      evaluate_loaded enabled adapter_name mode min_confidence secrets lower replace claims_facts
        model_validate adapter evaluation_key limits

  found_again :
      (store after : DecisionStore) (d : PersistedDecision) (signal : DecisionSignal) (key : String)
      (o : Option PersistedDecision)
      → find_key key store.evaluation_keys ≡ o
      → locked store signal key (Option.map mark_existing o) ≡ decided after d
      → (after.signals ≡ store.signals)
        × (find_by_evaluation_key after key ≡ some (mark_existing d))
  found_again store after d signal key (some old) f h =
      let (e, g) = decided_inj store after (mark_existing old) d h in
      (
        ap DecisionStore.signals (sym e),
        subst (λ (s : DecisionStore). find_by_evaluation_key s key ≡ some (mark_existing d)) e
            (ap (Option.map mark_existing) f ∙ ap (λ x. some (mark_existing x)) g),
      )
  found_again store after d signal key none f h =
      let k = ask-IsKept store after d signal key (build_input limits mode signal) h in
      (k.0, ap (Option.map mark_existing) k.1)

  loaded_again :
      (store after : DecisionStore) (d : PersistedDecision) (o : Option DecisionSignal)
      → loaded store false o ≡ decided after d
      → (after.signals ≡ store.signals) × (loaded after false o ≡ decided after (mark_existing d))
  loaded_again store after d none h = cc
  loaded_again store after d (some signal) h =
      elim (Bool-cases (str_eq signal.signal_status "CANDIDATE")) [
        | inr e ↦ absurd (refused_decided _ after d (rw e at h))
        | inl e ↦ elim (Bool-cases (contains adapter_name ("fake" ∷ "openai" ∷ []))) [
          | inr g ↦ absurd (refused_decided _ after d (rw (e, g) at h))
          | inl g ↦
              let (s, again) =
                found_again store after d signal (evaluation_key signal)
                  (find_key (evaluation_key signal) store.evaluation_keys) refl (rw (e, g) at h) in
              (s, rw (e, g) (ap (locked after signal (evaluation_key signal)) again))
        ]
      ]

  -- An evaluation that is not forced and gives a decision, repeated on the store that it left, gives
  -- the same decision marked as existing and leaves the store as it is.
  pub evaluate-repeats :
      (store after : DecisionStore) (signal_id : ℕ) (d : PersistedDecision)
      → run store signal_id false ≡ decided after d
      → run after signal_id false ≡ decided after (mark_existing d)
  unfolding evaluate
  evaluate-repeats store after signal_id d h = elim (Bool-cases enabled) [
    | inr e ↦ absurd (refused_decided _ after d (rw e at h))
    | inl e ↦
        let (s, again) = loaded_again store after d (load_signal store signal_id) (rw e at h) in
        rw e (
          ap
            (λ ss.
              loaded after false (find_first (λ (x : DecisionSignal). nat_eq x.id signal_id) ss))
            s
          ∙ again)
  ]
