-- ===== src/Paper/Service/Runs.antt =====
-- `run_replay` of backend/app/paper/service.py as a whole.
use trader_ai.Common.{
  ℕ, String, ◌≡◌, sym, ◌∙◌, subst, ◌≢◌, inl, inr, true, Option, none, List, [], ◌∷◌, arith,
  Option-cases, All, ℤ,
}
use trader_ai.Paper.Schemas.{PaperConfig, PaperSignal, PaperSimulationResult, paper}
use trader_ai.Paper.Repository.{Store}
use trader_ai.Paper.Service.{PaperError, replay_error, run_replay, refused, replayed}
use trader_ai.Paper.Service.Keeps.{RecordsOne}
use trader_ai.Paper.Service.Trades.{
  Replays, replay_signals-keeps, IsSingle, replayed_inj, selected, replay_error-none, allowed_run,
  IsSingle-step,
}

All-trivial : (ss : List PaperSignal) → All {0, 0} (λ (s : PaperSignal). Unit) ss
All-trivial [] = tt
All-trivial (s ∷ ss) = (tt, All-trivial ss)

-- In PAPER mode with the feature on, a replay returns on every store and for every filter; it gives
-- one outcome for each signal it selects, and journals these outcomes, in order, after what was there.
pub run_replay-Replays :
    (store : Store) (config : PaperConfig) (symbol : Option String) (start stop : Option ℕ)
    (bound : ℤ)
    → config.mode ≡ paper
    → config.enabled ≡ true
    → (after : Store) × (outcomes : List PaperSimulationResult) × (run_replay store config symbol
          start stop bound
        ≡ replayed after outcomes)
      × Replays store (selected store symbol start stop bound) after outcomes
run_replay-Replays store config symbol start stop bound m e =
    let signals = selected store symbol start stop bound in
    let (after, outcomes, ran, all_, _) =
      replay_signals-keeps config stop (λ _. Unit) (λ _. Unit) (λ _ _ _ _ _ _ _. tt) signals store
        (All-trivial signals) tt in
    (
      after,
      outcomes,
      allowed_run store config symbol start stop bound after outcomes (replay_error-none config m e)
          ran,
      all_,
    )

replay_error-gate :
    (config : PaperConfig)
    → replay_error config ≡ none
    → (config.mode ≡ paper) × (config.enabled ≡ true)
unfolding replay_error
replay_error-gate config h = ground arith

refused-replayed :
    (e : PaperError) (after : Store) (outcomes : List PaperSimulationResult)
    → refused e ≢ replayed after outcomes
refused-replayed e after outcomes h = cc

-- A replay that ran was in PAPER mode with the feature on; in any other mode nothing is read or
-- written.
run_replay-gate :
    (store : Store) (config : PaperConfig) (symbol : Option String) (start stop : Option ℕ)
    (bound : ℤ) (after : Store) (outcomes : List PaperSimulationResult)
    → run_replay store config symbol start stop bound ≡ replayed after outcomes
    → (config.mode ≡ paper) × (config.enabled ≡ true)
unfolding run_replay
run_replay-gate store config symbol start stop bound after outcomes h =
    elim (Option-cases (replay_error config)) [
      | inl ok ↦ replay_error-gate config ok
      | inr (e, is_e) ↦ absurd (refused-replayed e after outcomes (rw is_e at h))
    ]

module _ (config : PaperConfig) (stop : Option ℕ) (P : Store → Type 0) (Q : PaperSignal → Type 0)
    (step : (store : Store) (signal : PaperSignal) (after : Store) (outcome : PaperSimulationResult)
      → Q signal
      → P store
      → RecordsOne store config signal after outcome
      → P after) where
  -- What each signal of a run keeps the run keeps.
  pub run_replay-keeps :
      (store : Store) (symbol : Option String) (start : Option ℕ) (bound : ℤ) (after : Store)
      (outcomes : List PaperSimulationResult)
      → run_replay store config symbol start stop bound ≡ replayed after outcomes
      → All Q (selected store symbol start stop bound)
      → P store
      → P after
  run_replay-keeps store symbol start bound after outcomes h q p =
      let (m, e) = run_replay-gate store config symbol start stop bound after outcomes h in
      let (after', outcomes', ran, _, p') =
        replay_signals-keeps config stop P Q step (selected store symbol start stop bound) store q
          p in
      subst P
        (replayed_inj after' after outcomes' outcomes (
          sym (
            allowed_run store config symbol start stop bound after' outcomes'
              (replay_error-none config m e) ran)
          ∙ h)).0
        p'

-- Where the trades of the store are simulated and of different signals, they are so after a run: no
-- run gives a signal a second trade.
pub run_replay-IsSingle :
    (store : Store) (config : PaperConfig) (symbol : Option String) (start stop : Option ℕ)
    (bound : ℤ) (after : Store) (outcomes : List PaperSimulationResult)
    → run_replay store config symbol start stop bound ≡ replayed after outcomes
    → IsSingle store
    → IsSingle after
run_replay-IsSingle store config symbol start stop bound after outcomes h single =
    run_replay-keeps config stop IsSingle (λ _. Unit)
      (λ st s mid o _ p one. IsSingle-step config st s mid o p one) store symbol start bound after
      outcomes h (All-trivial _) single
