-- ===== src/Paper/Simulator/Instructions.antt =====
-- Which signals become instructions, and what an instruction guarantees.
use trader_ai.Common.{
  ◌≡◌, refl, inl, inr, true, false, none, some, List, [], arith, str_eq_iff, nat_eq, Option-cases,
  find_first-holds, ◌-ℤ◌, ◌*ℤ◌, ◌≤ℤ◌, ◌<ℤ◌, -ℤ_parts, pos, Fields, get_field, is_dict, is_text,
  is_blank_list, is_end, end, field,
}
use trader_ai.Paper.Schemas.{
  CompletedBar, PaperConfig, PaperSignal, PaperInstruction, Rejection, rejected_outcome,
  invalid_signal_context, signal_candle_unavailable,
}
use trader_ai.Paper.Simulator.{
  candidate, long, signal_rejection, find_signal_candle, entry_price_of, stop_price_of,
  invalid_context, instruct_at, instruct_on, build_instruction, instruct, reject,
}

-- What the paper engine wants of a signal, in the terms of its stored snapshot.
pub record IsEligible (s : PaperSignal) : Type 0 where
  pub status : s.signal_status ≡ candidate
  pub direction : s.direction ≡ long
  pub vetoes : s.veto_reasons ≡ []
  pub snapshot_status : is_text candidate (get_field "signal_status" s.features) ≡ true
  pub snapshot_vetoes : is_blank_list (get_field "veto_reasons" s.features) ≡ true
  pub indicators : is_dict (get_field "indicator_values" s.features) ≡ true
  pub quality : is_dict (get_field "data_quality" s.features) ≡ true

features_nonempty :
    (s : PaperSignal)
    → is_text candidate (get_field "signal_status" s.features) ≡ true
    → is_end s.features ≡ false
features_nonempty s h = go s.features h
  where
    go : (f : Fields) → is_text candidate (get_field "signal_status" f) ≡ true → is_end f ≡ false
    go end e = cc
    go (field k v rest) e = refl

signal_rejection→IsEligible : (s : PaperSignal) → signal_rejection s ≡ none → IsEligible s
unfolding signal_rejection
signal_rejection→IsEligible s h = record {
  status = ground (arith, str_eq_iff s.signal_status candidate);
  direction = ground (arith, str_eq_iff s.direction long);
  vetoes = ground arith;
  snapshot_status = ground arith;
  snapshot_vetoes = ground arith;
  indicators = ground arith;
  quality = ground arith;
}

IsEligible→signal_rejection : (s : PaperSignal) → IsEligible s → signal_rejection s ≡ none
unfolding signal_rejection
IsEligible→signal_rejection s e = ground (
  arith,
  str_eq_iff s.signal_status candidate,
  str_eq_iff s.direction long,
  features_nonempty s e.snapshot_status,
)

-- What an instruction promises of its prices.
pub record IsSound (i : PaperInstruction) : Type 0 where
  pub stop_positive : pos 0 <ℤ i.stop_price
  pub stop_below : i.stop_price <ℤ i.entry_reference_price
  pub target_above : i.entry_reference_price <ℤ i.target_price
  pub quantity_positive : pos 1 ≤ℤ i.quantity
  pub risk : i.paper_max_risk ≡ (i.entry_reference_price -ℤ i.stop_price) *ℤ i.quantity

pub instruct_at-IsSound :
    (s : PaperSignal) (config : PaperConfig) (c : CompletedBar) (i : PaperInstruction)
    → instruct_at s config c ≡ instruct i
    → IsSound i
unfolding instruct_at
instruct_at-IsSound s config c i h = record {
  stop_positive = ground arith;
  stop_below =
      ground (
        arith,
        -ℤ_parts (entry_price_of config c) (stop_price_of config (entry_price_of config c)),
      );
  target_above = ground arith;
  quantity_positive = ground arith;
  risk = ground arith;
}

-- An instruction is built exactly of an eligible signal whose own candle is among the candles, and
-- then its stop, entry and target prices are positive and in this order, its quantity is positive
-- and its risk is the price risk times the quantity.
pub build_instruction-IsSound :
    (s : PaperSignal) (candles : List CompletedBar) (config : PaperConfig) (i : PaperInstruction)
    → build_instruction s candles config ≡ instruct i
    → IsEligible s
      × ((c : CompletedBar) × (find_signal_candle s candles ≡ some c)
          × (c.started_at ≡ s.signal_time)
          × (instruct_at s config c ≡ instruct i))
      × IsSound i
unfolding build_instruction
build_instruction-IsSound s candles config i h = elim (Option-cases (signal_rejection s)) [
  | inr (why, e) ↦ absurd (cc (let g : invalid_context s config why ≡ instruct i = rw e at h in g))
  | inl e ↦
      let built : instruct_on s config (find_signal_candle s candles) ≡ instruct i = rw e at h in
      elim (Option-cases (find_signal_candle s candles)) [
        | inl f ↦ absurd (
            cc (
              let g : invalid_context s config signal_candle_unavailable ≡ instruct i =
                rw f at built in
              g))
        | inr (c, f) ↦
            let g : instruct_at s config c ≡ instruct i = rw f at built in
            (
              signal_rejection→IsEligible s e,
              (
                c,
                f,
                ground (
                  arith,
                  find_first-holds (λ (d : CompletedBar). nat_eq d.started_at s.signal_time) candles
                      c f,
                ),
                g,
              ),
              instruct_at-IsSound s config c i g,
            )
      ]
]

-- A signal that is eligible is never rejected for its snapshot, and one that is not always is,
-- whatever the candles.
pub build_instruction-IsEligible :
    (s : PaperSignal) (candles : List CompletedBar) (config : PaperConfig)
    → (IsEligible s
        → build_instruction s candles config ≡ instruct_on s config (find_signal_candle s candles))
      × (¬ IsEligible s
          → (why : Rejection) × (build_instruction s candles config
              ≡ reject (rejected_outcome s config invalid_signal_context why)))
unfolding build_instruction
build_instruction-IsEligible s candles config = (
  (λ e. rw (IsEligible→signal_rejection s e)),
  (λ n. elim (Option-cases (signal_rejection s)) [
    | inl e ↦ absurd (n (signal_rejection→IsEligible s e))
    | inr (why, e) ↦ (why, rw e)
  ]),
)
