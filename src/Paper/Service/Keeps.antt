-- ===== src/Paper/Service/Keeps.antt =====
-- One signal of a replay in backend/app/paper/service.py: what is recorded, and when.
use trader_ai.Common.{
  ℕ, ◌≡◌, refl, inl, inr, true, false, Option, none, some, arith, Bool-cases, Option-cases, ◌<ℤ◌,
  pos,
}
use trader_ai.Paper.Schemas.{
  PaperExitReason, PaperConfig, PaperSignal, Rejection, PaperSimulationResult, rejected_outcome,
  mode_disabled, repeated_signal,
}
use trader_ai.Paper.Repository.{
  Store, paper_trade_exists, count_paper_trades_for_day, record_attempt, add_journal,
  record_paper_outcome,
}
use trader_ai.Paper.Service.{cap_rejection, simulated_outcome, replay_signal}

abbrev pub recorded : Store → PaperSignal → PaperSimulationResult → Store
recorded store signal outcome = add_journal signal outcome (record_attempt signal outcome store)

pub record RecordsOne (store : Store) (config : PaperConfig) (signal : PaperSignal) (after : Store)
    (outcome : PaperSimulationResult) : Type 0 where
  pub as_recorded : after ≡ recorded store signal outcome
  pub fresh : outcome.trade_created ≡ true → paper_trade_exists store signal.id ≡ false
  pub room :
      outcome.trade_created ≡ true
      → pos (count_paper_trades_for_day store signal.signal_time) <ℤ config.max_trades_per_day

record_rejection :
    (store : Store) (signal : PaperSignal) (config : PaperConfig) (reason : PaperExitReason)
    (why : Rejection)
    → let o = rejected_outcome signal config reason why in
      record_paper_outcome store signal o ≡ some (recorded store signal o)
unfolding record_paper_outcome rejected_outcome
record_rejection store signal config reason why = refl

untraded_rejection :
    (signal : PaperSignal) (config : PaperConfig) (reason : PaperExitReason) (why : Rejection)
    → (rejected_outcome signal config reason why).trade_created ≡ false
unfolding rejected_outcome
untraded_rejection signal config reason why = refl

rejection-RecordsOne :
    (store : Store) (config : PaperConfig) (signal : PaperSignal) (reason : PaperExitReason)
    (why : Rejection)
    → let o = rejected_outcome signal config reason why in
      RecordsOne store config signal (recorded store signal o) o
rejection-RecordsOne store config signal reason why =
    let u = untraded_rejection signal config reason why in
    record { as_recorded = refl; fresh = λ h. cc (u, h); room = λ h. cc (u, h) }

cap_rejection-none :
    (store : Store) (config : PaperConfig) (signal : PaperSignal)
    → cap_rejection store config signal ≡ none
    → pos (count_paper_trades_for_day store signal.signal_time) <ℤ config.max_trades_per_day
unfolding cap_rejection
cap_rejection-none store config signal h = ground arith

-- The replay of one signal returns, and records one outcome.
pub replay_signal-RecordsOne :
    (store : Store) (config : PaperConfig) (stop : Option ℕ) (signal : PaperSignal)
    → (after : Store) × (outcome : PaperSimulationResult) × (replay_signal store config stop signal
        ≡ some (after, outcome))
      × RecordsOne store config signal after outcome
unfolding replay_signal
replay_signal-RecordsOne store config stop signal =
    elim (Bool-cases (paper_trade_exists store signal.id)) [
      | inl old ↦ (
        _,
        _,
        rw (
          old,
          record_rejection store signal config PaperExitReason.duplicate_signal repeated_signal,
        ),
        rejection-RecordsOne store config signal PaperExitReason.duplicate_signal repeated_signal,
      )
      | inr new ↦ elim (Option-cases (cap_rejection store config signal)) [
        | inr (why, e) ↦ (
          _,
          _,
          rw (new, e, record_rejection store signal config mode_disabled why),
          rejection-RecordsOne store config signal mode_disabled why,
        )
        | inl e ↦ (
          recorded store signal (simulated_outcome store config stop signal),
          simulated_outcome store config stop signal,
          rw (new, e) (unfold record_paper_outcome in (rw new (ground arith))),
          record {
            as_recorded = refl;
            fresh = λ h. new;
            room = λ h. cap_rejection-none store config signal e;
          },
        )
      ]
    ]
