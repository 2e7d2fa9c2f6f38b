-- ===== src/Paper/Simulator/Profit.antt =====
-- The profit of a simulated trade against what its instruction planned.
use trader_ai.Common.{
  ℕ, ◌≡◌, refl, sym, subst, ◌≢◌, false, Option, none, some, List, arith, ℤ, ◌+ℤ◌, ◌-ℤ◌, ◌<ℤ◌,
  -ℤ_parts, sub_mul_cancel, mul_positive, pos,
}
use trader_ai.Paper.Schemas.{
  CompletedBar, PaperExitReason, PaperConfig, PaperSignal, PaperInstruction, PaperSimulationResult,
  no_fill_outcome, completed_trade_outcome, stop_hit, target_hit, data_ended,
}
use trader_ai.Paper.Simulator.{build_instruction, simulate, instruct}
use trader_ai.Paper.Simulator.Instructions.{IsSound, build_instruction-IsSound}
use trader_ai.Paper.Simulator.Exits.{
  Ends, outcome, run_out, future_of, Simulates, simulate-Simulates, flat, stopped, reached, decided,
  undecided, missed, traded,
}

-- What the outcome of an instruction has to satisfy.
pub record IsAccounted (i : PaperInstruction) (r : PaperSimulationResult) : Type 0 where
  pub net : r.net_estimated_pnl ≡ r.gross_pnl -ℤ r.estimated_costs
  pub loss : r.exit_reason ≡ stop_hit → r.gross_pnl +ℤ i.paper_max_risk ≡ pos 0
  pub gain : r.exit_reason ≡ target_hit → pos 0 <ℤ r.gross_pnl
  pub untraded : r.trade_created ≡ false → (r.gross_pnl ≡ pos 0) × (r.estimated_costs ≡ pos 0)
  pub costs : r.exit_price ≢ none → r.estimated_costs ≡ i.estimated_costs

no_fill-IsAccounted : (i : PaperInstruction) → IsAccounted i (no_fill_outcome i)
unfolding no_fill_outcome ◌-ℤ◌
no_fill-IsAccounted i = record {
  net = refl;
  loss = λ h. cc;
  gain = λ h. cc;
  untraded = λ h. (refl, refl);
  costs = λ h. absurd (h refl);
}

unpriced-IsAccounted :
    (i : PaperInstruction) (t : ℕ)
    → IsAccounted i (completed_trade_outcome i t none none data_ended)
unfolding completed_trade_outcome
unpriced-IsAccounted i t = record {
  net = refl;
  loss = λ h. cc;
  gain = λ h. cc;
  untraded = λ h. cc;
  costs = λ h. absurd (h refl);
}

priced-IsAccounted :
    (i : PaperInstruction) (t : ℕ) (u : ℕ) (price : ℤ) (reason : PaperExitReason)
    → IsSound i
    → (reason ≡ stop_hit → price ≡ i.stop_price)
    → (reason ≡ target_hit → price ≡ i.target_price)
    → IsAccounted i (completed_trade_outcome i t (some u) (some price) reason)
unfolding completed_trade_outcome
priced-IsAccounted i t u price reason sound at_stop at_target = record {
  net = refl;
  loss = λ h.
      rw (at_stop h, sound.risk) (sub_mul_cancel i.stop_price i.entry_reference_price i.quantity);
  gain = λ h. rw (at_target h) (
      mul_positive (i.target_price -ℤ i.entry_reference_price) i.quantity
        (omega (arith, -ℤ_parts i.target_price i.entry_reference_price, sound.target_above))
        sound.quantity_positive);
  untraded = λ h. cc;
  costs = λ h. refl;
}

Ends-IsAccounted :
    (i : PaperInstruction) (config : PaperConfig) (entry c : CompletedBar)
    (reason : PaperExitReason) (price : ℤ)
    → IsSound i
    → Ends i config c reason price
    → IsAccounted i (outcome i config entry c price reason)
Ends-IsAccounted i config entry c reason price sound (flat f) =
    priced-IsAccounted i _ _ _ _ sound (λ h. cc) (λ h. cc)
Ends-IsAccounted i config entry c reason price sound (stopped f s) =
    priced-IsAccounted i _ _ _ _ sound (λ h. refl) (λ h. cc)
Ends-IsAccounted i config entry c reason price sound (reached f s t) =
    priced-IsAccounted i _ _ _ _ sound (λ h. cc) (λ h. refl)

run_out-IsAccounted :
    (i : PaperInstruction) (config : PaperConfig) (entry : CompletedBar)
    (last : Option CompletedBar)
    → IsSound i
    → IsAccounted i (run_out i config entry last)
run_out-IsAccounted i config entry none sound = unpriced-IsAccounted i entry.started_at
run_out-IsAccounted i config entry (some c) sound =
    priced-IsAccounted i _ _ _ _ sound (λ h. cc) (λ h. cc)

Simulates-IsAccounted :
    (i : PaperInstruction) (config : PaperConfig) (future : List CompletedBar)
    (r : PaperSimulationResult)
    → IsSound i
    → Simulates i config future r
    → IsAccounted i r
Simulates-IsAccounted i config future r sound (missed all e) =
    subst (IsAccounted i) (sym e) (no_fill-IsAccounted i)
Simulates-IsAccounted i config future r sound
      (traded before entry after split all fills (decided quiet c rest reason price s q ends e)) =
    subst (IsAccounted i) (sym e) (Ends-IsAccounted i config entry c reason price sound ends)
Simulates-IsAccounted i config future r sound
      (traded before entry after split all fills (undecided q e)) =
    subst (IsAccounted i) (sym e) (run_out-IsAccounted i config entry _ sound)

-- A simulation of an instruction that `build_instruction` gave: the net profit is the gross one
-- less the costs; a stop loses exactly the planned risk and a target gains; with no trade there is
-- neither profit nor cost; and a priced exit costs the estimate.
pub simulate-IsAccounted :
    (s : PaperSignal) (candles : List CompletedBar) (config : PaperConfig) (i : PaperInstruction)
    → build_instruction s candles config ≡ instruct i
    → IsAccounted i (simulate i candles config)
simulate-IsAccounted s candles config i h =
    Simulates-IsAccounted i config (future_of i candles) (simulate i candles config)
      (build_instruction-IsSound s candles config i h).2 (simulate-Simulates i candles config)
