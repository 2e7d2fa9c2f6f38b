-- ===== src/MarketData/Candles/Startup.antt =====
-- backend/app/market_data/candle_builder.py after startup and after a stream gap.
use trader_ai.Common.{
  ℕ, String, ◌≡◌, refl, sym, ap, ◌∙◌, subst, inl, inr, true, false, Option, none, some, List, [],
  ◌∷◌, ◌++◌, arith, ltb, nat_eq, Bool-cases, is_some, All, lookup, floor_minute,
}
use trader_ai.MarketData.Candles.{
  NormalizedTick, WorkingCandle, Builder, as_utc, rolled, open_or_update, take_volume, accept_tick,
  accept_ticks, invalidate_after_stream_gap,
}
use trader_ai.MarketData.Candles.Frame.{
  TokenState, token_view, after_roll, ignored, token_step, view-accept_tick,
}
use trader_ai.MarketData.Candles.Times.{AreOf}

-- Nothing is held but an incomplete candle of the minute `m`; with no candle, no volume is known.
abbrev IsStarting? : ℕ → Option WorkingCandle → Option ℕ → Type 0
IsStarting? m none cumulative = cumulative ≡ none
IsStarting? m (some c) cumulative = (c.started_at ≡ m) × (c.volume_complete ≡ false)

abbrev pub IsStarting : ℕ → TokenState → Type 0
IsStarting m s = IsStarting? m s.working s.cumulative

abbrev IsPartial : ℕ → WorkingCandle → Type 0
IsPartial m c = (c.started_at ≡ m) × (c.volume_complete ≡ false)

take_volume-IsPartial :
    (m : ℕ) (c : WorkingCandle) (previous v : Option ℕ)
    → IsPartial m c
    → IsPartial m (take_volume c previous v)
take_volume-IsPartial m c previous none h = h
take_volume-IsPartial m c none (some v) h = (h.0, refl)
take_volume-IsPartial m c (some p) (some v) h = elim (Bool-cases (ltb v p)) [
  | inl r ↦ rw r (h.0, refl)
  | inr r ↦ rw r h
]

open_or_update-IsPartial :
    (m : ℕ) (o : Option WorkingCandle) (cumulative : Option ℕ) (instrument_id : ℕ)
    (timeframe : String) (tick : NormalizedTick)
    → IsStarting? m o cumulative
    → IsPartial m
        (open_or_update (after_roll o m) instrument_id timeframe m tick (is_some cumulative))
open_or_update-IsPartial m none cumulative instrument_id timeframe tick h = rw h (refl, refl)
open_or_update-IsPartial m (some c) cumulative instrument_id timeframe tick h =
    rw (let r : nat_eq c.started_at m ≡ true = ground arith in r) h

token_step-IsStarting :
    (m : ℕ) (s : TokenState) (timeframe : String) (tick : NormalizedTick) (instrument_id : ℕ)
    → IsStarting m s
    → floor_minute (as_utc tick.exchange_timestamp) ≡ m
    → IsStarting m (token_step s timeframe tick instrument_id).0
unfolding token_step
token_step-IsStarting m s timeframe tick instrument_id h em = elim (Bool-cases (ignored s tick)) [
  | inl r ↦ rw r h
  | inr r ↦
      rw (r, em)
        (take_volume-IsPartial m _ s.cumulative tick.volume
          (open_or_update-IsPartial m s.working s.cumulative instrument_id timeframe tick h))
]

rolled_partial :
    (m minute : ℕ) (o : Option WorkingCandle) (cumulative : Option ℕ)
    → IsStarting? m o cumulative
    → rolled o minute ≡ []
rolled_partial m minute none cumulative h = refl
rolled_partial m minute (some c) cumulative h = rw h.1 (ground arith)

token_step-silent :
    (m : ℕ) (s : TokenState) (timeframe : String) (tick : NormalizedTick) (instrument_id : ℕ)
    → IsStarting m s
    → (token_step s timeframe tick instrument_id).1 ≡ []
unfolding token_step
token_step-silent m s timeframe tick instrument_id h = elim (Bool-cases (ignored s tick)) [
  | inl r ↦ rw r
  | inr r ↦
      rw r
        (rolled_partial m (floor_minute (as_utc tick.exchange_timestamp)) s.working s.cumulative h)
]

accept_tick-silent :
    (m : ℕ) (b : Builder) (tick : NormalizedTick) (instrument_id : ℕ)
    → IsStarting m (token_view b tick.instrument_token)
    → (accept_tick b tick instrument_id).1 ≡ []
accept_tick-silent m b tick instrument_id h =
    ap (λ r. r.1) (view-accept_tick b tick instrument_id)
    ∙ token_step-silent m (token_view b tick.instrument_token) b.timeframe tick instrument_id h

accept_tick-IsStarting :
    (m : ℕ) (b : Builder) (tick : NormalizedTick) (instrument_id : ℕ)
    → IsStarting m (token_view b tick.instrument_token)
    → floor_minute (as_utc tick.exchange_timestamp) ≡ m
    → IsStarting m (token_view (accept_tick b tick instrument_id).0 tick.instrument_token)
accept_tick-IsStarting m b tick instrument_id h em =
    subst (IsStarting m) (sym (ap (λ r. r.0) (view-accept_tick b tick instrument_id))) (
      token_step-IsStarting m (token_view b tick.instrument_token) b.timeframe tick instrument_id h
        em)

-- All the ticks are of the minute `m`.
abbrev pub AreIn : ℕ → List (NormalizedTick × ℕ) → Type 0
AreIn m = All (λ (p : NormalizedTick × ℕ). floor_minute (as_utc p.0.exchange_timestamp) ≡ m)

startup_silent :
    (m k : ℕ) (b : Builder) (ticks : List (NormalizedTick × ℕ)) (last : NormalizedTick)
    (instrument_id : ℕ)
    → AreOf k ticks
    → AreIn m ticks
    → last.instrument_token ≡ k
    → IsStarting m (token_view b k)
    → (accept_ticks b (ticks ++ (last, instrument_id) ∷ [])).1 ≡ []
unfolding accept_ticks
startup_silent m k b [] last instrument_id of at e h = rw (
    accept_tick-silent m b last instrument_id
      (subst (λ j. IsStarting m (token_view b j)) (sym e) h))
startup_silent m k b ((tick, i) ∷ rest) last instrument_id of at e h =
    let h' : IsStarting m (token_view b tick.instrument_token) =
      subst (λ j. IsStarting m (token_view b j)) (sym of.0) h in
    rw (accept_tick-silent m b tick i h') (
      startup_silent m k (accept_tick b tick i).0 rest last instrument_id of.1 at.1 e (
        subst (λ j. IsStarting m (token_view (accept_tick b tick i).0 j)) of.0
          (accept_tick-IsStarting m b tick i h' at.0)))

-- After a stream gap, the ticks of a token in one minute and the next tick, of whatever time,
-- emit nothing: the partial first minute is not persisted.
pub gap-silent :
    (m k : ℕ) (b : Builder) (ticks : List (NormalizedTick × ℕ)) (last : NormalizedTick)
    (instrument_id : ℕ)
    → AreOf k ticks
    → AreIn m ticks
    → last.instrument_token ≡ k
    → (accept_ticks (invalidate_after_stream_gap b) (ticks ++ (last, instrument_id) ∷ [])).1 ≡ []
unfolding invalidate_after_stream_gap
gap-silent m k b ticks last instrument_id of at e =
    startup_silent m k _ ticks last instrument_id of at e (unfold lookup in refl)
