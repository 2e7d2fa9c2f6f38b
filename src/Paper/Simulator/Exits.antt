-- ===== src/Paper/Simulator/Exits.antt =====
-- How a simulated trade ends: the first decisive candle after the entry, and its price.
use trader_ai.Common.{
  ◌≤◌, ◌<◌, ◌≡◌, refl, ap, ◌⊎◌, inl, inr, Bool, true, false, Option, none, some, List, [], ◌∷◌,
  ◌++◌, arith, ltb, Bool-cases, keep_if, find_first, All, ℤ, ◌≤ℤ◌, ◌<ℤ◌, leb_ℤ, ist_date, ist_time,
}
use trader_ai.Paper.Schemas.{
  CompletedBar, PaperExitReason, PaperConfig, PaperInstruction, PaperSimulationResult,
  no_fill_outcome, completed_trade_outcome, stop_hit, target_hit, time_exit, force_flat, data_ended,
}
use trader_ai.Paper.Simulator.{
  sort_bars, at_or_after_force_flat, is_same_day_future, is_entry, exit_loop, simulate,
}

module _ (i : PaperInstruction) (config : PaperConfig) where
  -- Neither the clock, the stop nor the target ends the trade at this candle.
  pub record IsQuiet (c : CompletedBar) : Type 0 where
    pub early : ist_time c.started_at < config.force_flat_time_ist
    pub above_stop : i.stop_price <ℤ c.low_price
    pub below_target : c.high_price <ℤ i.target_price

  -- The candle ends the trade for this reason at this price: the clock first, then the stop.
  pub data Ends (c : CompletedBar) : PaperExitReason → ℤ → Type 0 where
    flat : config.force_flat_time_ist ≤ ist_time c.started_at → Ends c force_flat c.close_price
    stopped :
        ist_time c.started_at < config.force_flat_time_ist
        → c.low_price ≤ℤ i.stop_price
        → Ends c stop_hit i.stop_price
    reached :
        ist_time c.started_at < config.force_flat_time_ist
        → i.stop_price <ℤ c.low_price
        → i.target_price ≤ℤ c.high_price
        → Ends c target_hit i.target_price

  -- The candle that `last_eligible` names at the end of the list.
  abbrev pub last_eligible : Option CompletedBar → List CompletedBar → Option CompletedBar
  last_eligible last [] = last
  last_eligible last (c ∷ cs) = last_eligible (some c) cs

  abbrev pub outcome : CompletedBar → CompletedBar → ℤ → PaperExitReason → PaperSimulationResult
  outcome entry c price reason =
      completed_trade_outcome i entry.started_at (some c.started_at) (some price) reason

  abbrev pub run_out : CompletedBar → Option CompletedBar → PaperSimulationResult
  run_out entry none = completed_trade_outcome i entry.started_at none none data_ended
  run_out entry (some c) = outcome entry c c.close_price time_exit

  -- The specification of an exit: quiet candles up to one that ends the trade, or quiet candles
  -- only.
  pub data ExitsBy (entry : CompletedBar) (last : Option CompletedBar) (cs : List CompletedBar)
      (r : PaperSimulationResult) : Type 0 where
    decided :
        (quiet : List CompletedBar) (c : CompletedBar) (rest : List CompletedBar)
        (reason : PaperExitReason) (price : ℤ)
        → cs ≡ quiet ++ c ∷ rest
        → All IsQuiet quiet
        → Ends c reason price
        → r ≡ outcome entry c price reason
        → ExitsBy entry last cs r
    undecided : All IsQuiet cs → r ≡ run_out entry (last_eligible last cs) → ExitsBy entry last cs r

  ExitsBy-cons :
      (entry c : CompletedBar) (last : Option CompletedBar) (cs : List CompletedBar)
      (r : PaperSimulationResult)
      → IsQuiet c
      → ExitsBy entry (some c) cs r
      → ExitsBy entry last (c ∷ cs) r
  ExitsBy-cons entry c last cs r q (decided quiet d rest reason price e all ends out) =
      decided (c ∷ quiet) d rest reason price (ap (◌∷◌ c) e) (q, all) ends out
  ExitsBy-cons entry c last cs r q (undecided all out) = undecided (q, all) out

  pub exit_loop-ExitsBy :
      (entry : CompletedBar) (last : Option CompletedBar) (cs : List CompletedBar)
      → ExitsBy entry last cs (exit_loop i config entry last cs)
  unfolding exit_loop
  exit_loop-ExitsBy entry none [] = undecided tt refl
  exit_loop-ExitsBy entry (some last) [] = undecided tt refl
  exit_loop-ExitsBy entry last (c ∷ cs) =
      elim (Bool-cases (at_or_after_force_flat c.started_at config)) [
        | inl f ↦ decided [] c cs force_flat c.close_price refl tt (flat (ground arith)) (rw f)
        | inr f ↦ elim (Bool-cases (leb_ℤ c.low_price i.stop_price)) [
          | inl s ↦
              decided [] c cs stop_hit i.stop_price refl tt (stopped (ground arith) (ground arith))
                (rw (f, s))
          | inr s ↦ elim (Bool-cases (leb_ℤ i.target_price c.high_price)) [
            | inl t ↦
                decided [] c cs target_hit i.target_price refl tt
                  (reached (ground arith) (ground arith) (ground arith)) (rw (f, s, t))
            | inr t ↦
                rw (f, s, t)
                  (ExitsBy-cons entry c last cs _
                    (record {
                      early = ground arith;
                      above_stop = ground arith;
                      below_target = ground arith;
                    })
                    (exit_loop-ExitsBy entry (some c) cs))
          ]
        ]
      ]

-- The candles after the signal on its session day, in the order of their times.
abbrev pub future_of : PaperInstruction → List CompletedBar → List CompletedBar
future_of i candles = keep_if (is_same_day_future i) (sort_bars candles)

-- The candle fills the limit order.
pub record Fills (i : PaperInstruction) (config : PaperConfig) (c : CompletedBar) : Type 0 where
  pub early : ist_time c.started_at < config.force_flat_time_ist
  pub after_signal : i.signal_time < c.started_at
  pub same_day : ist_date c.started_at ≡ ist_date i.signal_time
  pub low : c.low_price ≤ℤ i.entry_reference_price
  pub high : i.entry_reference_price ≤ℤ c.high_price

-- The specification of a simulation: no candle fills the order, or the first that does is the
-- entry, and the later candles decide the exit.
pub data Simulates (i : PaperInstruction) (config : PaperConfig) (future : List CompletedBar)
    (r : PaperSimulationResult) : Type 0 where
  missed :
      All (λ (c : CompletedBar). ¬ Fills i config c) future
      → r ≡ no_fill_outcome i
      → Simulates i config future r
  traded :
      (before : List CompletedBar) (entry : CompletedBar) (after : List CompletedBar)
      → future ≡ before ++ entry ∷ after
      → All (λ (c : CompletedBar). ¬ Fills i config c) before
      → Fills i config entry
      → ExitsBy i config entry none
          (keep_if (λ (c : CompletedBar). ltb entry.started_at c.started_at) future)
          r
      → Simulates i config future r

module _ (i : PaperInstruction) (config : PaperConfig) where
  abbrev IsFuture : CompletedBar → Type 0
  IsFuture c = is_same_day_future i c ≡ true

  is_entry→Fills : (c : CompletedBar) → IsFuture c → is_entry i config c ≡ true → Fills i config c
  is_entry→Fills c h e = record {
    early = ground arith;
    after_signal = ground arith;
    same_day = ground arith;
    low = ground arith;
    high = ground arith;
  }

  not_entry→not_Fills : (c : CompletedBar) → is_entry i config c ≡ false → ¬ Fills i config c
  not_entry→not_Fills c e f = ground arith

  -- The split of a list at the first entry.
  find_entry :
      (cs : List CompletedBar)
      → All IsFuture cs
      → ((find_first (is_entry i config) cs ≡ none)
          × All (λ (c : CompletedBar). ¬ Fills i config c) cs)
        ⊎ ((before : List CompletedBar) × (entry : CompletedBar) × (after : List CompletedBar)
            × (find_first (is_entry i config) cs ≡ some entry)
            × (cs ≡ before ++ entry ∷ after)
            × All (λ (c : CompletedBar). ¬ Fills i config c) before
            × Fills i config entry)
  find_entry [] h = inl (refl, tt)
  find_entry (c ∷ cs) h = elim (Bool-cases (is_entry i config c)) [
    | inl e ↦ inr ([], c, cs, rw e, refl, tt, is_entry→Fills c h.0 e)
    | inr e ↦ elim (find_entry cs h.1) [
      | inl (none_found, all) ↦ inl (rw e none_found, (not_entry→not_Fills c e, all))
      | inr (before, entry, after, found, split, all, fills) ↦ inr (
        c ∷ before,
        entry,
        after,
        rw e found,
        ap (◌∷◌ c) split,
        (not_entry→not_Fills c e, all),
        fills,
      )
    ]
  ]

All-keep_if_test {ℓ} :
    {A : Type ℓ} (p : A → Bool) (xs : List A) → All (λ x. p x ≡ true) (keep_if p xs)
All-keep_if_test p [] = tt
All-keep_if_test p (x ∷ xs) = elim (Bool-cases (p x)) [
  | inl e ↦ rw e (e, All-keep_if_test p xs)
  | inr e ↦ rw e (All-keep_if_test p xs)
]

-- Every simulation meets the specification, for every instruction, configuration and candles.
pub simulate-Simulates :
    (i : PaperInstruction) (candles : List CompletedBar) (config : PaperConfig)
    → Simulates i config (future_of i candles) (simulate i candles config)
unfolding simulate
simulate-Simulates i candles config =
    elim (find_entry i config (future_of i candles)
      (All-keep_if_test (is_same_day_future i) (sort_bars candles))) [
        | inl (none_found, all) ↦ missed all (rw none_found)
        | inr (before, entry, after, found, split, all, fills) ↦
            traded before entry after split all fills
              (rw found (exit_loop-ExitsBy i config entry none _))
      ]
