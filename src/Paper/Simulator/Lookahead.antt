-- ===== src/Paper/Simulator/Lookahead.antt =====
-- Which candles a simulation of backend/app/paper/simulator.py reads.
mod Order
use trader_ai.Common.{
  ℕ, ◌≤◌, ◌≡◌, sym, ap, ◌∙◌, subst, ◌≢◌, ◌⊎◌, inl, inr, Bool, true, false, not, Option, none, some,
  List, [], ◌∷◌, ◌++◌, arith, ltb, leb, Bool-cases, Option-cases, keep_if, find_first,
  find_first-append, keep_if-append, keep_if_comm, keep_if-drop, leb_ℤ, ist_date,
}
use trader_ai.Paper.Schemas.{
  CompletedBar, PaperExitReason, PaperConfig, PaperInstruction, no_fill_outcome,
  completed_trade_outcome, stop_hit, target_hit, force_flat,
}
use trader_ai.Paper.Simulator.{
  sort_bars, at_or_after_force_flat, is_same_day_future, is_entry, exit_loop, simulate_from,
  simulate,
}
use trader_ai.Paper.Simulator.Exits.{future_of}
use Order.{keep_if-sort_bars, sorted_split, sort_bars-IsSorted, keep_if-IsSorted}

irrelevant :
    (i : PaperInstruction) (c : CompletedBar)
    → (c.started_at ≤ i.signal_time) ⊎ (ist_date c.started_at ≢ ist_date i.signal_time)
    → is_same_day_future i c ≡ false
irrelevant i c (inl h) = ground arith
irrelevant i c (inr h) = ground arith

-- A candle that begins at or before the time of the signal, or on another day in India, changes
-- nothing in a simulation, wherever it stands among the candles.
pub simulate-irrelevant :
    (i : PaperInstruction) (before later : List CompletedBar) (c : CompletedBar)
    (config : PaperConfig)
    → (c.started_at ≤ i.signal_time) ⊎ (ist_date c.started_at ≢ ist_date i.signal_time)
    → simulate i (before ++ c ∷ later) config ≡ simulate i (before ++ later) config
unfolding simulate
simulate-irrelevant i before later c config h = rw (
    let e : future_of i (before ++ c ∷ later) ≡ future_of i (before ++ later) =
      keep_if-sort_bars (is_same_day_future i) (before ++ c ∷ later)
      ∙ ap sort_bars (keep_if-drop (is_same_day_future i) before later c (irrelevant i c h))
      ∙ sym (keep_if-sort_bars (is_same_day_future i) (before ++ later)) in
    e)

-- The reasons that a candle gives, and not the end of the data.
abbrev pub is_decisive : PaperExitReason → Bool
is_decisive force_flat = true
is_decisive stop_hit = true
is_decisive target_hit = true
is_decisive _ = false

-- The candles up to the instant `u`.
abbrev pub up_to : ℕ → CompletedBar → Bool
up_to u c = leb c.started_at u

module _ (i : PaperInstruction) (config : PaperConfig) where
  exit_loop-append :
      (entry : CompletedBar) (last : Option CompletedBar) (cs late : List CompletedBar)
      → is_decisive (exit_loop i config entry last cs).exit_reason ≡ true
      → exit_loop i config entry last (cs ++ late) ≡ exit_loop i config entry last cs
  unfolding exit_loop completed_trade_outcome
  exit_loop-append entry none [] late h = cc
  exit_loop-append entry (some l) [] late h = cc
  exit_loop-append entry last (c ∷ cs) late h =
      elim (Bool-cases (at_or_after_force_flat c.started_at config)) [
        | inl f ↦ rw f
        | inr f ↦ elim (Bool-cases (leb_ℤ c.low_price i.stop_price)) [
          | inl s ↦ rw (f, s)
          | inr s ↦ elim (Bool-cases (leb_ℤ i.target_price c.high_price)) [
            | inl t ↦ rw (f, s, t)
            | inr t ↦ rw (f, s, t) (exit_loop-append entry (some c) cs late (rw (f, s, t) at h))
          ]
        ]
      ]

  simulate_from-append :
      (cs late : List CompletedBar)
      → is_decisive (simulate_from i config cs (find_first (is_entry i config) cs)).exit_reason
        ≡ true
      → simulate_from i config (cs ++ late) (find_first (is_entry i config) (cs ++ late))
        ≡ simulate_from i config cs (find_first (is_entry i config) cs)
  unfolding no_fill_outcome
  simulate_from-append cs late h = elim (Option-cases (find_first (is_entry i config) cs)) [
    | inl e ↦ let g : is_decisive (no_fill_outcome i).exit_reason ≡ true = rw e at h in cc
    | inr (entry, e) ↦
        rw (find_first-append (is_entry i config) cs late entry e, e)
          (rw (keep_if-append (λ (c : CompletedBar). ltb entry.started_at c.started_at) cs late)
            (exit_loop-append entry none _ _ (rw e at h)))
  ]

-- If the candles up to an instant decide the trade by the clock, the stop or the target, then all
-- the candles give the same result: what comes later has no influence.
pub simulate-no_lookahead :
    (i : PaperInstruction) (candles : List CompletedBar) (config : PaperConfig) (u : ℕ)
    → is_decisive (simulate i (keep_if (up_to u) candles) config).exit_reason ≡ true
    → simulate i candles config ≡ simulate i (keep_if (up_to u) candles) config
unfolding simulate
simulate-no_lookahead i candles config u h =
    let future = future_of i candles in
    let early = keep_if (up_to u) future in
    let cut : future_of i (keep_if (up_to u) candles) ≡ early =
      rw (← keep_if-sort_bars (up_to u) candles)
        (keep_if_comm (is_same_day_future i) (up_to u) (sort_bars candles)) in
    let split : future ≡ early ++ keep_if (λ c. not (up_to u c)) future =
      sorted_split u future (
        keep_if-IsSorted (is_same_day_future i) (sort_bars candles) (sort_bars-IsSorted candles)) in
    rw cut (
      subst
        (λ l.
          simulate_from i config l (find_first (is_entry i config) l)
          ≡ simulate_from i config early (find_first (is_entry i config) early))
        (sym split) (simulate_from-append i config early _ (rw cut at h)))
