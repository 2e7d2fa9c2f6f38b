-- ===== src/Scanner/Service/Lookahead.antt =====
-- `run_replay` of backend/app/scanners/service.py: what the loop over the bars reads.
use trader_ai.Common.{
  ℕ, ◌<◌, String, ◌≡◌, refl, sym, ap, ◌∙◌, false, Option, some, List, [], ◌∷◌, ◌++◌, arith, leb,
  keep_if, All,
}
use trader_ai.Scanner.Schemas.{ScannerConfig, IndicatorSnapshot}
use trader_ai.Paper.Schemas.{CompletedBar}
use trader_ai.Scanner.Signals.{Repository, Tally, Run, ran, raised}
use trader_ai.Scanner.Service.{run_strategies}
use trader_ai.Scanner.Service.Replay.{and_then, always, replay_bar, replay_bars}

and_then_assoc :
    (r : Run) (f g : Tally → Repository → Run)
    → and_then (and_then r f) g ≡ and_then r (λ t repo. and_then (f t repo) g)
and_then_assoc (ran t repo) f g = refl
and_then_assoc (raised repo) f g = refl

append-step :
    (before : List CompletedBar) (x : CompletedBar) (xs : List CompletedBar)
    → (before ++ x ∷ []) ++ xs ≡ before ++ x ∷ xs
append-step [] x xs = refl
append-step (b ∷ before) x xs = ap (λ zs. b ∷ zs) (append-step before x xs)

later-unseen :
    (x : CompletedBar) (bs later : List CompletedBar)
    → All (λ b. x.started_at < b.started_at) later
    → keep_if (λ (b : CompletedBar). leb b.started_at x.started_at) (bs ++ later)
      ≡ keep_if (λ (b : CompletedBar). leb b.started_at x.started_at) bs
later-unseen x [] [] h = refl
later-unseen x [] (b ∷ later) h = ground (arith, later-unseen x [] later h.1, h.0)
later-unseen x (b ∷ bs) later h = ground (arith, later-unseen x bs later h)

append-nil : (xs : List CompletedBar) → xs ++ [] ≡ xs
append-nil [] = refl
append-nil (x ∷ xs) = ap (λ zs. x ∷ zs) (append-nil xs)

and_then-same :
    (r : Run) (f g : Tally → Repository → Run)
    → ((t : Tally) (repo : Repository) → f t repo ≡ g t repo)
    → and_then r f ≡ and_then r g
and_then-same (ran t repo) f g h = h t repo
and_then-same (raised repo) f g h = refl

-- Every bar of `later` is after every bar of `xs`.
abbrev pub IsAfter : List CompletedBar → List CompletedBar → Type 0
IsAfter xs later = All (λ x. All (λ b. x.started_at < b.started_at) later) xs

module _ (upper : String → String) (iso : ℕ → String)
    (indicators : List CompletedBar → Option (List CompletedBar) → IndicatorSnapshot)
    (config : ScannerConfig) (symbol timeframe run_id : String)
    (ys bs later : List CompletedBar) where
  replay_bars-append :
      (before xs : List CompletedBar) (t : Tally) (repo : Repository)
      → IsAfter xs later
      → replay_bars upper iso indicators config symbol timeframe run_id before
          (xs ++ ys)
          (some (bs ++ later))
          t
          repo
        ≡ and_then
            (replay_bars upper iso indicators config symbol timeframe run_id before xs
              (some bs)
              t
              repo)
            (replay_bars upper iso indicators config symbol timeframe run_id
              (before ++ xs)
              ys
              (some (bs ++ later)))
  replay_bars-append before [] t repo h =
      ap
        (λ b.
          replay_bars upper iso indicators config symbol timeframe run_id b ys (some (bs ++ later))
            t repo)
        (sym (append-nil before))
  replay_bars-append before (x ∷ xs) t repo h =
      let prefix = before ++ x ∷ [] in
      let next = replay_bars upper iso indicators config symbol timeframe run_id in
      let now = replay_bar upper iso indicators config symbol timeframe run_id prefix x in
      ap
        (λ seen.
          and_then
            (run_strategies upper iso indicators config always (some run_id) x.instrument_id symbol
              timeframe prefix (some seen) false config.strategies t repo)
            (next prefix (xs ++ ys) (some (bs ++ later))))
        (later-unseen x bs later h.0)
      ∙ and_then-same (now (some bs) t repo) _ _ (λ t' repo'.
        replay_bars-append prefix xs t' repo' h.1
        ∙ ap (λ b. and_then (next prefix xs (some bs) t' repo') (next b ys (some (bs ++ later))))
            (append-step before x xs))
      ∙ sym (and_then_assoc (now (some bs) t repo) _ _)

  -- The replay of a history that goes on starts as the replay of its first part, with the bars of
  -- the benchmark so far: where the benchmark's other bars are after all of the first part, the
  -- whole is the first replay, followed by the bars that are left.
  pub replay_bars-no_lookahead :
      (xs : List CompletedBar) (t : Tally) (repo : Repository)
      → IsAfter xs later
      → replay_bars upper iso indicators config symbol timeframe run_id []
          (xs ++ ys)
          (some (bs ++ later))
          t
          repo
        ≡ and_then
            (replay_bars upper iso indicators config symbol timeframe run_id [] xs (some bs) t repo)
            (replay_bars upper iso indicators config symbol timeframe run_id xs ys
              (some (bs ++ later)))
  replay_bars-no_lookahead xs t repo h = replay_bars-append [] xs t repo h
