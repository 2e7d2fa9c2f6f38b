-- ===== src/Scanner/Strategies/Tradable.antt =====
-- When an evaluation is a candidate.
use trader_ai.Common.{
  ℕ, ◌≤◌, String, ◌≡◌, refl, sym, ap, ◌↔◌, inl, inr, Bool, true, false, not, ◌&&◌, Option, none,
  some, List, [], ◌∷◌, arith, str_eq, Option-cases, is_none, some_inj, last_of, text_comparable,
  number_comparable, unique, ℤ, ltb_ℤ, ist_time,
}
use trader_ai.Paper.Schemas.{CompletedBar}
use trader_ai.Scanner.Schemas.{
  ScannerConfig, IndicatorSnapshot, DataQuality, Veto, veto_comparable, candidate, spread_too_wide,
  invalid_indicator_state,
}
use trader_ai.Scanner.Vetoes.{
  orb, pullback, entry_end, append_if, after_entry_end, is_set, is_above, spread_required_now,
  require_spread, plain_vetoes, hard_vetoes,
}
use trader_ai.Scanner.Strategies.{
  Evaluation, status_of, evaluation, condition_of, evaluate_strategy,
}
use text.Mathlib.Text.{starts_with}

-- What a candidate has to satisfy, without the vetoes.
pub record IsTradable (upper : String → String) (name symbol : String) (bars : List CompletedBar)
    (latest : CompletedBar) (indicators : IndicatorSnapshot) (quality : DataQuality)
    (config : ScannerConfig) (is_stale : Bool) : Type 0 where
  pub on_nse : starts_with symbol "NSE:" ≡ true
  pub complete : quality.history_complete ≡ true
  pub continuous : quality.candle_continuity_ok ≡ true
  pub session : str_eq name pullback ≡ true → quality.current_session_complete_through_latest ≡ true
  pub opening : str_eq name orb ≡ true → quality.opening_range_complete ≡ true
  pub fresh : is_stale ≡ false
  pub in_time : ist_time latest.started_at ≤ entry_end
  pub benched :
      is_set config.benchmark_symbol ≡ true → is_none indicators.relative_index_move ≡ false
  pub spread_known :
      spread_required_now upper config name ≡ true → is_none indicators.spread_pct ≡ false
  pub spread_narrow : is_above indicators.spread_pct config.max_spread_pct ≡ false
  pub met : condition_of name bars latest indicators config ≡ some true

pub append_if-nil :
    (b : Bool) (v : Veto) (vs : List Veto) → append_if b v vs ≡ [] → (b ≡ false) × (vs ≡ [])
append_if-nil false v vs h = (refl, h)
append_if-nil true v [] h = cc
append_if-nil true v (u ∷ us) h = cc

pub append_if-false :
    (b : Bool) (v : Veto) (vs : List Veto) → b ≡ false → vs ≡ [] → append_if b v vs ≡ []
append_if-false b v vs e h = rw e h

pub unique_nil : (vs : List Veto) → unique vs ≡ [] → vs ≡ []
unique_nil [] h = refl
unique_nil (v ∷ vs) h = cc

require_spread-nil :
    (b : Bool) (spread : Option ℤ) (bound : ℤ) (vs : List Veto)
    → require_spread b spread bound vs ≡ []
    → (vs ≡ []) × (b ≡ true → is_none spread ≡ false)
require_spread-nil false spread bound vs h = (h, λ e. cc)
require_spread-nil true none bound [] h = cc
require_spread-nil true none bound (v ∷ vs) h = cc
require_spread-nil true (some x) bound vs h =
    ((append_if-nil (ltb_ℤ bound x) spread_too_wide vs h).1, λ e. refl)

require_spread-clear :
    (b : Bool) (spread : Option ℤ) (bound : ℤ) (vs : List Veto)
    → vs ≡ []
    → (b ≡ true → is_none spread ≡ false)
    → is_above spread bound ≡ false
    → require_spread b spread bound vs ≡ []
require_spread-clear false spread bound vs e h w = e
require_spread-clear true none bound vs e h w = absurd (cc (h refl))
require_spread-clear true (some x) bound vs e h w = append_if-false _ spread_too_wide vs w e

module _ (upper : String → String) (name symbol : String) (bars : List CompletedBar)
    (indicators : IndicatorSnapshot) (quality : DataQuality) (config : ScannerConfig)
    (is_stale : Bool) where
  abbrev pub IsClear : Type 0
  IsClear =
      ((is_set config.benchmark_symbol && is_none indicators.relative_index_move) ≡ false)
      × (after_entry_end bars ≡ false)
      × (is_stale ≡ false)
      × ((str_eq name orb && not quality.opening_range_complete) ≡ false)
      × ((str_eq name pullback && not quality.current_session_complete_through_latest) ≡ false)
      × (not quality.candle_continuity_ok ≡ false)
      × (not quality.history_complete ≡ false)
      × (not (starts_with symbol "NSE:") ≡ false)

  plain_vetoes-IsClear :
      plain_vetoes symbol bars indicators quality config name is_stale ≡ [] → IsClear
  plain_vetoes-IsClear h =
      let (a, h1) = append_if-nil _ _ _ h in
      let (b, h2) = append_if-nil _ _ _ h1 in
      let (c, h3) = append_if-nil _ _ _ h2 in
      let (d, h4) = append_if-nil _ _ _ h3 in
      let (e, h5) = append_if-nil _ _ _ h4 in
      let (f, h6) = append_if-nil _ _ _ h5 in
      let (g, h7) = append_if-nil _ _ _ h6 in (a, b, c, d, e, f, g, (append_if-nil _ _ _ h7).0)

  IsClear-plain_vetoes :
      IsClear → plain_vetoes symbol bars indicators quality config name is_stale ≡ []
  IsClear-plain_vetoes (a, b, c, d, e, f, g, k) = append_if-false _ _ _ a (
      append_if-false _ _ _ b (
        append_if-false _ _ _ c (
          append_if-false _ _ _ d (
            append_if-false _ _ _ e (
              append_if-false _ _ _ f (append_if-false _ _ _ g (append_if-false _ _ [] k refl)))))))

  abbrev pub SpreadClear : Type 0
  SpreadClear =
      (is_above indicators.spread_pct config.max_spread_pct ≡ false)
      × (spread_required_now upper config name ≡ true → is_none indicators.spread_pct ≡ false)

  pub hard_vetoes-nil :
      hard_vetoes upper symbol bars indicators quality config name is_stale ≡ []
      → IsClear × SpreadClear
  unfolding hard_vetoes
  hard_vetoes-nil h =
      let (wide, h1) = append_if-nil _ _ _ (unique_nil _ h) in
      let (plain, known) = require_spread-nil _ _ _ _ h1 in
      (plain_vetoes-IsClear plain, (wide, known))

  hard_vetoes-clear :
      IsClear
      → SpreadClear
      → hard_vetoes upper symbol bars indicators quality config name is_stale ≡ []
  unfolding hard_vetoes
  hard_vetoes-clear clear (wide, known) = ap unique (
      append_if-false _ _ _ wide
        (require_spread-clear _ _ _ _ (IsClear-plain_vetoes clear) known wide))

  pub made :
      (instrument_id : ℕ) (latest : CompletedBar) (e : Evaluation)
      → evaluate_strategy upper name instrument_id symbol bars indicators quality config is_stale
        ≡ some e
      → last_of bars ≡ some latest
      → (c : Bool) × (condition_of name bars latest indicators config ≡ some c)
        × (e
            ≡ evaluation instrument_id symbol name latest indicators config
                (append_if
                  (not c)
                  invalid_indicator_state
                  (hard_vetoes upper symbol bars indicators quality config name is_stale))
                is_stale)
  unfolding evaluate_strategy
  made instrument_id latest e h l =
      elim (Option-cases (condition_of name bars latest indicators config)) [
        | inl n ↦ absurd (cc (rw (l, n, evaluate_strategy) at h))
        | inr (c, k) ↦ (c, k, sym (some_inj (rw (l, k, evaluate_strategy) at h)))
      ]

pub status_of-candidate : (vs : List Veto) → (status_of vs ≡ candidate) ↔ (vs ≡ [])
status_of-candidate [] = (λ h. refl, λ h. refl)
status_of-candidate (v ∷ vs) = (λ h. cc, λ h. cc)

pub not-false : (b : Bool) → not b ≡ false → b ≡ true
not-false true h = refl
not-false false h = cc

true-not : (b : Bool) → b ≡ true → not b ≡ false
true-not b h = rw h refl

nand : (a b : Bool) → (a && b) ≡ false → a ≡ true → b ≡ false
nand a b h e = ground arith

to_nand : (a b : Bool) → (a ≡ true → b ≡ false) → (a && b) ≡ false
to_nand false b h = refl
to_nand true b h = h refl

in_time-after :
    (bars : List CompletedBar) (latest : CompletedBar)
    → last_of bars ≡ some latest
    → (after_entry_end bars ≡ false) ↔ (ist_time latest.started_at ≤ entry_end)
in_time-after bars latest l = rw (l, after_entry_end) (ground arith)

module _ (upper : String → String) (name symbol : String) (bars : List CompletedBar)
    (latest : CompletedBar) (indicators : IndicatorSnapshot) (quality : DataQuality)
    (config : ScannerConfig) (is_stale : Bool) (l : last_of bars ≡ some latest) where
  pub tradable :
      condition_of name bars latest indicators config ≡ some true
      → IsClear upper name symbol bars indicators quality config is_stale
      → SpreadClear upper name symbol bars indicators quality config is_stale
      → IsTradable upper name symbol bars latest indicators quality config is_stale
  tradable met (a, b, c, d, e, f, g, k) (wide, known) = record {
    on_nse = not-false _ k;
    complete = not-false _ g;
    continuous = not-false _ f;
    session = λ h. not-false _ (nand _ _ e h);
    opening = λ h. not-false _ (nand _ _ d h);
    fresh = c;
    in_time = (in_time-after bars latest l).0 b;
    benched = λ h. nand _ _ a h;
    spread_known = known;
    spread_narrow = wide;
    met = met;
  }

  pub tradable-clear :
      IsTradable upper name symbol bars latest indicators quality config is_stale
      → hard_vetoes upper symbol bars indicators quality config name is_stale ≡ []
  tradable-clear t =
      hard_vetoes-clear upper name symbol bars indicators quality config is_stale
        (
          to_nand _ _ t.benched,
          (in_time-after bars latest l).1 t.in_time,
          t.fresh,
          to_nand _ _ (λ h. true-not _ (t.opening h)),
          to_nand _ _ (λ h. true-not _ (t.session h)),
          true-not _ t.continuous,
          true-not _ t.complete,
          true-not _ t.on_nse,
        )
        (t.spread_narrow, t.spread_known)
