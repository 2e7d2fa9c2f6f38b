-- ===== src/Scanner/Schemas.antt =====
-- backend/app/scanners/schemas.py and backend/app/analysis/schemas.py. A `Decimal`, and a float
-- setting read by `Decimal(str(x))`, is in units of 10^-6.
use trader_ai.Common.{
  ℕ, zero, suc, String, ◌≡◌, refl, sym, ap, ◌∙◌, Bool, Option, List, [], ◌∷◌, nat_eq, nat_eq_iff,
  Comparable, ℤ,
}

pub record ScannerConfig : Type 0 where
  pub enabled : Bool
  pub strategies : List String
  pub observation_mode : String
  pub future_live_eligible_strategy : String
  pub opening_range_minutes : ℤ
  pub stale_after_seconds : ℤ
  pub min_volume_ratio : ℤ
  pub max_spread_pct : ℤ
  pub require_spread_for_future_live : Bool
  pub benchmark_symbol : Option String

pub record IndicatorSnapshot : Type 0 where
  pub ema_9 : Option ℤ
  pub ema_20 : Option ℤ
  pub ema_50 : Option ℤ
  pub rsi_14 : Option ℤ
  pub atr_14 : Option ℤ
  pub vwap : Option ℤ
  pub opening_range_high : Option ℤ
  pub opening_range_low : Option ℤ
  pub previous_day_high : Option ℤ
  pub previous_day_low : Option ℤ
  pub volume_ratio : Option ℤ
  pub relative_index_move : Option ℤ
  pub spread_pct : Option ℤ

pub record DataQuality : Type 0 where
  pub history_complete : Bool
  pub quote_fresh : Bool
  pub spread_available : Bool
  pub candle_continuity_ok : Bool
  pub session_start_available : Bool
  pub opening_range_complete : Bool
  pub current_session_complete_through_latest : Bool

pub data Status : Type 0 where
  candidate rejected_signal : Status

-- The constants of backend/app/scanners/vetoes.py.
pub data Veto : Type 0 where
  unsupported_symbol missing_history stale_quote_or_data spread_too_wide : Veto
  spread_unavailable_when_required outside_configured_time_window data_quality_failure : Veto
  benchmark_data_missing_when_required invalid_indicator_state duplicate_signal : Veto
  incomplete_session_context : Veto

abbrev pub rank : Veto → ℕ
rank unsupported_symbol = 0
rank missing_history = 1
rank stale_quote_or_data = 2
rank spread_too_wide = 3
rank spread_unavailable_when_required = 4
rank outside_configured_time_window = 5
rank data_quality_failure = 6
rank benchmark_data_missing_when_required = 7
rank invalid_indicator_state = 8
rank duplicate_signal = 9
rank incomplete_session_context = 10

abbrev pick : ℕ → List Veto → Veto
pick n [] = incomplete_session_context
pick zero (v ∷ vs) = v
pick (suc n) (v ∷ vs) = pick n vs

abbrev of_rank : ℕ → Veto
of_rank n = pick n (
    unsupported_symbol ∷ missing_history ∷ stale_quote_or_data ∷ spread_too_wide
    ∷ spread_unavailable_when_required ∷ outside_configured_time_window ∷ data_quality_failure
    ∷ benchmark_data_missing_when_required ∷ invalid_indicator_state ∷ duplicate_signal ∷ [])

of_rank-rank : (v : Veto) → of_rank (rank v) ≡ v
of_rank-rank unsupported_symbol = refl
of_rank-rank missing_history = refl
of_rank-rank stale_quote_or_data = refl
of_rank-rank spread_too_wide = refl
of_rank-rank spread_unavailable_when_required = refl
of_rank-rank outside_configured_time_window = refl
of_rank-rank data_quality_failure = refl
of_rank-rank benchmark_data_missing_when_required = refl
of_rank-rank invalid_indicator_state = refl
of_rank-rank duplicate_signal = refl
of_rank-rank incomplete_session_context = refl

pub rank_inj : (u v : Veto) → rank u ≡ rank v → u ≡ v
rank_inj u v h = sym (of_rank-rank u) ∙ ap of_rank h ∙ of_rank-rank v

instance abbrev pub veto_comparable : Comparable Veto
veto_comparable = record {
  same = λ u v. nat_eq (rank u) (rank v);
  same_iff = λ u v. (
    (λ h. rank_inj u v ((nat_eq_iff (rank u) (rank v)).0 h)),
    (λ h. (nat_eq_iff (rank u) (rank v)).1 (ap rank h)),
  );
}
