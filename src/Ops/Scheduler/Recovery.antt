-- ===== src/Ops/Scheduler/Recovery.antt =====
-- The login recovery of backend/app/ops/market_ops_scheduler.py: its six fields over all runs.
use trader_ai.Common.{
  ℕ, ◌+◌, ◌≤◌, ◌≡◌, refl, inl, inr, Bool, true, false, not, ◌&&◌, ◌||◌, Option, none, some, arith,
  ltb, nat_eq, if◌then◌else◌, Bool-cases, is_none, ist_time,
}
use trader_ai.Ops.Events.{
  Job, Summary, preopen_check, stream_start, stream_verify, universe_selection, scanner_batch,
  stream_stop,
}
use trader_ai.Ops.Scheduler.{
  Settings, Key, JobResult, Env, Scheduler, new_scheduler, call, seconds_us, next_recovery,
  is_start_event, login_missing, process_pending, may_arm, process_summary, store_summary,
  finish_job, run_job, due_job, has_key, complete_key, run_due, is_waiting, expire, inside_window,
  attempt, run_recovery, tick, prepare_late_start, start, operate, Machine, Step, Reach, requested,
  returned, raised, starts, stops, ticks, operates, fresh, later,
}

-- The next retry is set, and it is at least the interval after the last attempt.
abbrev pub IsPaced : Settings → ℕ → Option ℕ → Option ℕ → Type 0
IsPaced cfg clock last none = ⊥
IsPaced cfg clock none (some next) = Unit
IsPaced cfg clock (some at) (some next) =
    (at ≤ clock) × (at + seconds_us cfg.login_recovery_interval_seconds ≤ next)

abbrev pub IsAction : Bool → Job → Bool → Type 0
IsAction waiting stream_start sent = (not waiting || sent) ≡ true
IsAction waiting stream_verify sent = waiting ≡ false
IsAction waiting preopen_check sent = ⊥
IsAction waiting universe_selection sent = ⊥
IsAction waiting scanner_batch sent = ⊥
IsAction waiting stream_stop sent = ⊥

-- The recovery fields in the order waiting, pending action, attempts, last attempt, next retry and
-- link sent.
abbrev pub IsRecovery : Settings → ℕ → Bool → Option Job → ℕ → Option ℕ → Option ℕ → Bool → Type 0
IsRecovery cfg clock waiting none attempts last next sent =
    (waiting ≡ false) × (attempts ≡ 0) × (last ≡ none) × (next ≡ none) × (sent ≡ false)
IsRecovery cfg clock waiting (some action) attempts last next sent =
    IsAction waiting action sent × (is_none last ≡ nat_eq attempts 0) × IsPaced cfg clock last next

unfoldable pub IsRecovering : Settings → ℕ → Scheduler → Type 0
IsRecovering cfg clock s =
    IsRecovery cfg clock s.waiting_for_kite_login s.pending_action s.recovery_attempts
      s.recovery_last_attempt_at s.recovery_next_retry_at s.login_link_sent

module _ (cfg : Settings) (c now : ℕ) (le : c ≤ now) where
  next_recovery_le : now + seconds_us cfg.login_recovery_interval_seconds ≤ next_recovery cfg now
  next_recovery_le = omega arith

  IsPaced-later : (last next : Option ℕ) → IsPaced cfg c last next → IsPaced cfg now last next
  IsPaced-later last none h = h
  IsPaced-later none (some next) h = tt
  IsPaced-later (some at) (some next) h = (omega (arith, h.0), h.1)

  IsPaced-schedule :
      (last next : Option ℕ)
      → IsPaced cfg c last next
      → IsPaced cfg now last (some (next_recovery cfg now))
  IsPaced-schedule last none h = absurd h
  IsPaced-schedule none (some next) h = tt
  IsPaced-schedule (some at) (some next) h =
      (omega (arith, h.0), omega (arith, h.0, next_recovery_le))

  IsRecovery-later :
      (w : Bool) (p : Option Job) (n : ℕ) (last next : Option ℕ) (sent : Bool)
      → IsRecovery cfg c w p n last next sent
      → IsRecovery cfg now w p n last next sent
  IsRecovery-later w none n last next sent h = h
  IsRecovery-later w (some a) n last next sent h = (h.0, h.1, IsPaced-later last next h.2)

  IsRecovery-arm :
      (w : Bool) (p : Option Job) (n : ℕ) (last next : Option ℕ) (sent : Bool)
      → IsRecovery cfg c w p n last next sent
      → IsRecovery cfg now true
          (some stream_start)
          (if is_none p then 0 else n)
          last
          (some (next_recovery cfg now))
          true
  IsRecovery-arm w none n last next sent h = (refl, rw h.2 refl, rw h.2 tt)
  IsRecovery-arm w (some a) n last next sent h = (refl, h.1, IsPaced-schedule last next h.2)

  IsRecovery-attempt :
      (w : Bool) (a : Job) (n : ℕ) (last next : Option ℕ) (sent : Bool)
      → IsRecovery cfg c w (some a) n last next sent
      → IsRecovery cfg now w (some a) (n + 1) (some now) (some (next_recovery cfg now)) sent
  IsRecovery-attempt w a n last next sent h = (h.0, ground arith, (omega arith, next_recovery_le))

  IsRecovery-reschedule :
      (w : Bool) (a : Job) (n : ℕ) (last next : Option ℕ) (sent : Bool)
      → IsRecovery cfg c w (some a) n last next sent
      → IsRecovery cfg now w (some a) n last (some (next_recovery cfg now)) sent
  IsRecovery-reschedule w a n last next sent h = (h.0, h.1, IsPaced-schedule last next h.2)

  IsRecovering-later : (s : Scheduler) → IsRecovering cfg c s → IsRecovering cfg now s
  unfolding IsRecovering
  IsRecovering-later s h = IsRecovery-later _ _ _ _ _ _ h

  IsRecovering-start :
      (summary : Summary) (w : Bool) (a : Job) (n : ℕ) (last next : Option ℕ) (sent : Bool)
      → IsRecovery cfg c w (some a) n last next sent
      → IsRecovery cfg now false
          (if is_start_event summary.event then some stream_verify else some a)
          n
          last
          (some (next_recovery cfg now))
          sent
  IsRecovering-start summary w stream_start n last next sent h =
      elim (Bool-cases (is_start_event summary.event)) [
        | inl e ↦ rw e (refl, h.1, IsPaced-schedule last next h.2)
        | inr e ↦ rw e (refl, h.1, IsPaced-schedule last next h.2)
      ]
  IsRecovering-start summary w stream_verify n last next sent h =
      elim (Bool-cases (is_start_event summary.event)) [
        | inl e ↦ rw e (refl, h.1, IsPaced-schedule last next h.2)
        | inr e ↦ rw e (refl, h.1, IsPaced-schedule last next h.2)
      ]
  IsRecovering-start summary w preopen_check n last next sent h = absurd h.0
  IsRecovering-start summary w universe_selection n last next sent h = absurd h.0
  IsRecovering-start summary w scanner_batch n last next sent h = absurd h.0
  IsRecovering-start summary w stream_stop n last next sent h = absurd h.0

module _ (cfg : Settings) (now : ℕ) (env : Env) where
  process_pending-Recovering :
      (job : Job) (summary : Summary) (p : Option Job) (s : Scheduler)
      → s.pending_action ≡ p
      → IsRecovering cfg now s
      → IsRecovering cfg now (process_pending cfg now job summary p s)
  unfolding IsRecovering
  process_pending-Recovering job summary none s e h = h
  process_pending-Recovering stream_start summary (some a) s e h =
      IsRecovering-start cfg now now (omega arith) summary _ a _ _ _ _ (rw e at h)
  process_pending-Recovering stream_verify summary (some a) s e h = elim (Bool-cases summary.ok) [
    | inl r ↦ rw r (refl, refl, refl, refl, refl)
    | inr r ↦ rw (r, e) (IsRecovery-reschedule cfg now now (omega arith) _ a _ _ _ _ (rw e at h))
  ]
  process_pending-Recovering preopen_check summary (some a) s e h = h
  process_pending-Recovering universe_selection summary (some a) s e h = h
  process_pending-Recovering scanner_batch summary (some a) s e h = h
  process_pending-Recovering stream_stop summary (some a) s e h = h

  finish_job-Recovering :
      (r : Scheduler × Bool)
      → IsRecovering cfg now r.0
      → IsRecovering cfg now (finish_job now env r)
  unfolding IsRecovering
  finish_job-Recovering (s, false) h = h
  finish_job-Recovering (s, true) h = h

  process_summary-Recovering :
      (job : Job) (summary : Summary) (s : Scheduler)
      → IsRecovering cfg now s
      → IsRecovering cfg now (process_summary cfg now env job summary s).0
  unfolding IsRecovering
  process_summary-Recovering job summary s h =
      elim (Bool-cases (may_arm job && login_missing summary)) [
        | inl r ↦ rw r (IsRecovery-arm cfg now now (omega arith) _ _ _ _ _ _ h)
        | inr r ↦ rw r (process_pending-Recovering job summary _ s refl h)
      ]

  pub run_job-Recovering :
      (job : Job) (result : JobResult) (s : Scheduler)
      → IsRecovering cfg now s
      → IsRecovering cfg now (run_job cfg now env job result s)
  unfolding IsRecovering
  run_job-Recovering job raised s h = h
  run_job-Recovering job (returned summary) s h =
      finish_job-Recovering _
        (process_summary-Recovering job summary (store_summary now job summary s) h)

  run_due-Recovering :
      (busy : Bool) (key : Option Key) (s : Scheduler)
      → IsRecovering cfg now s
      → IsRecovering cfg now (run_due cfg now busy env key s)
  unfolding IsRecovering
  run_due-Recovering busy none s h = h
  run_due-Recovering busy (some key) s h =
      elim (Bool-cases (has_key key s.completed_keys || busy)) [
        | inl r ↦ rw r h
        | inr r ↦ rw r (run_job-Recovering key.job env.result (complete_key key s) h)
      ]

  expire-Recovering : (s : Scheduler) → IsRecovering cfg now (expire cfg env s)
  unfolding IsRecovering
  expire-Recovering s = (refl, refl, refl, refl, refl)

  attempt-Recovering :
      (a : Job) (s : Scheduler)
      → s.pending_action ≡ some a
      → IsRecovering cfg now s
      → IsRecovering cfg now (run_job cfg now env a env.result (attempt cfg now a s))
  unfolding IsRecovering
  attempt-Recovering a s e h =
      run_job-Recovering a env.result (attempt cfg now a s)
        (rw e (IsRecovery-attempt cfg now now (omega arith) _ a _ _ _ _ (rw e at h)))

  run_recovery-Recovering :
      (busy : Bool) (p : Option Job) (s : Scheduler)
      → s.pending_action ≡ p
      → IsRecovering cfg now s
      → IsRecovering cfg now (run_recovery cfg now busy env p s)
  run_recovery-Recovering busy none s e h = h
  run_recovery-Recovering busy (some a) s e h =
      elim (Bool-cases (ltb cfg.login_recovery_stop (ist_time now))) [
        | inl r ↦ rw r (expire-Recovering s)
        | inr r ↦
            rw r
              (elim (Bool-cases (
                not cfg.login_recovery_enabled
                || (not (inside_window cfg (ist_time now)) || busy))) [
                  | inl q ↦ rw q h
                  | inr q ↦ rw q (elim (Bool-cases (is_waiting s.recovery_next_retry_at now)) [
                    | inl w ↦ rw w h
                    | inr w ↦ rw w (attempt-Recovering a s e h)
                  ])
                ])
      ]

  prepare_late_start-Recovering :
      (s : Scheduler) → IsRecovering cfg now s → IsRecovering cfg now (prepare_late_start cfg now s)
  unfolding IsRecovering
  prepare_late_start-Recovering s h =
      elim (Bool-cases (cfg.login_recovery_enabled && inside_window cfg (ist_time now))) [
        | inl r ↦ rw r (refl, refl, tt)
        | inr r ↦ rw r h
      ]

module _ (cfg : Settings) where
  Step-Recovering :
      (m n : Machine)
      → Step cfg m n
      → IsRecovering cfg m.clock m.state
      → IsRecovering cfg n.clock n.state
  unfolding start tick operate IsRecovering
  Step-Recovering m n (starts now env le) h =
      prepare_late_start-Recovering cfg now env m.state
        (IsRecovering-later cfg m.clock now le m.state h)
  Step-Recovering m n (stops now ok le) h = IsRecovering-later cfg m.clock now le m.state h
  Step-Recovering m n (ticks now busy env env' le) h =
      run_recovery-Recovering cfg now env' busy _ _ refl (
        run_due-Recovering cfg now env busy (due_job cfg now) m.state
          (IsRecovering-later cfg m.clock now le m.state h))
  Step-Recovering m n (operates now env job le) h =
      run_job-Recovering cfg now env job env.result (call (requested job) m.state)
        (IsRecovering-later cfg m.clock now le m.state h)

  -- In every reachable state the recovery fields agree: with no pending action they are all reset,
  -- else the action is to start or to verify the stream, a wait for a login has had its link
  -- sent or tried, no attempt is counted exactly where there is no last attempt, and the next
  -- retry is set, at least the interval (at least a second) after the last attempt.
  pub reach-Recovering : (t : ℕ) (m : Machine) → Reach cfg t m → IsRecovering cfg m.clock m.state
  unfolding IsRecovering new_scheduler
  reach-Recovering t m fresh = (refl, refl, refl, refl, refl)
  reach-Recovering t m (later {m = k} r step) = Step-Recovering k m step (reach-Recovering t k r)
