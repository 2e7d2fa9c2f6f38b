-- ===== src/Scanner/Vetoes.antt =====
-- backend/app/scanners/vetoes.py. `upper` is `str.upper`.
use trader_ai.Common.{
  ℕ, ◌+◌, ◌*◌, String, Bool, true, false, not, ◌&&◌, Option, none, some, List, [], ◌∷◌, ◌++◌,
  str_eq, ltb, is_none, last_of, text_comparable, number_comparable, unique, ℤ, ltb_ℤ, minute_us,
  ist_time,
}
use trader_ai.Paper.Schemas.{CompletedBar}
use trader_ai.Scanner.Schemas.{
  ScannerConfig, IndicatorSnapshot, DataQuality, Veto, veto_comparable, unsupported_symbol,
  missing_history, stale_quote_or_data, spread_too_wide, spread_unavailable_when_required,
  outside_configured_time_window, data_quality_failure, benchmark_data_missing_when_required,
  incomplete_session_context,
}
use text.Mathlib.Text.{starts_with}

abbrev pub orb : String
orb = "opening_range_breakout_long"

abbrev pub pullback : String
pullback = "vwap_pullback_continuation_long"

-- 14:30
abbrev pub entry_end : ℕ
entry_end = (14 * 60 + 30) * minute_us

-- `if condition: reasons.append(reason)`
abbrev pub append_if : Bool → Veto → List Veto → List Veto
append_if true v reasons = reasons ++ v ∷ []
append_if false v reasons = reasons

-- `bars and bars[-1].started_at.astimezone(IST).time() > ENTRY_END`
abbrev pub after_entry_end : List CompletedBar → Bool
after_entry_end bars = elim (last_of bars) [
  | none ↦ false
  | some b ↦ ltb entry_end (ist_time b.started_at)
]

-- Truthiness of an optional string.
abbrev pub is_set : Option String → Bool
is_set none = false
is_set (some s) = not (str_eq s "")

abbrev pub is_above : Option ℤ → ℤ → Bool
is_above none bound = false
is_above (some x) bound = ltb_ℤ bound x

abbrev pub spread_required_now : (String → String) → ScannerConfig → String → Bool
spread_required_now upper config strategy_name =
    str_eq strategy_name config.future_live_eligible_strategy
    && (config.require_spread_for_future_live
        && not (str_eq (upper config.observation_mode) "SHADOW"))

abbrev pub require_spread : Bool → Option ℤ → ℤ → List Veto → List Veto
require_spread false spread bound reasons = reasons
require_spread true none bound reasons = reasons ++ spread_unavailable_when_required ∷ []
require_spread true (some x) bound reasons = append_if (ltb_ℤ bound x) spread_too_wide reasons

-- The checks before those of the spread.
abbrev pub plain_vetoes :
    String
    → List CompletedBar
    → IndicatorSnapshot
    → DataQuality
    → ScannerConfig
    → String
    → Bool
    → List Veto
plain_vetoes symbol bars indicators quality config strategy_name is_stale =
    let pulling_back = str_eq strategy_name pullback in
    let breaking_out = str_eq strategy_name orb in
    let unbenched = is_set config.benchmark_symbol && is_none indicators.relative_index_move in
    let r1 = append_if (not (starts_with symbol "NSE:")) unsupported_symbol [] in
    let r2 = append_if (not quality.history_complete) missing_history r1 in
    let r3 = append_if (not quality.candle_continuity_ok) data_quality_failure r2 in
    let r4 =
      append_if (pulling_back && not quality.current_session_complete_through_latest)
        incomplete_session_context r3 in
    let r5 =
      append_if (breaking_out && not quality.opening_range_complete) incomplete_session_context
        r4 in
    let r6 = append_if is_stale stale_quote_or_data r5 in
    let r7 = append_if (after_entry_end bars) outside_configured_time_window r6 in
    append_if unbenched benchmark_data_missing_when_required r7

unfoldable pub hard_vetoes :
    (String → String)
    → String
    → List CompletedBar
    → IndicatorSnapshot
    → DataQuality
    → ScannerConfig
    → String
    → Bool
    → List Veto
hard_vetoes upper symbol bars indicators quality config strategy_name is_stale =
    let plain = plain_vetoes symbol bars indicators quality config strategy_name is_stale in
    let required = spread_required_now upper config strategy_name in
    unique (
      append_if (is_above indicators.spread_pct config.max_spread_pct) spread_too_wide
        (require_spread required indicators.spread_pct config.max_spread_pct plain))
