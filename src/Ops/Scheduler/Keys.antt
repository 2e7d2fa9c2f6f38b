-- ===== src/Ops/Scheduler/Keys.antt =====
-- The completed keys of backend/app/ops/market_ops_scheduler.py against the calls that it makes.
use trader_ai.Common.{
  ℕ, ◌≡◌, refl, ap, ◌∙◌, ◌↔◌, inl, inr, Bool, true, false, not, ◌&&◌, ◌||◌, Option, none, some,
  List, [], ◌∷◌, ltb, if◌then◌else◌, nat_eq_iff, Bool-cases, is_none, &&-split, some_inj,
  Comparable, ist_time,
}
use trader_ai.Ops.Events.{
  Job, job_rank, job_rank_inj, Summary, preopen_check, stream_start, stream_verify,
  universe_selection, scanner_batch, stream_stop,
}
use trader_ai.Ops.Scheduler.{
  Settings, Key, same_slot, same_key, Call, JobResult, Env, Scheduler, arm_login_recovery,
  login_missing, process_pending, may_arm, process_summary, store_summary, finish_job, run_job,
  is_waiting, inside_window, attempt, run_recovery, prepare_late_start, start, scheduled, recovered,
  requested, login_link, notified, returned, raised,
}

same_slot_iff : (m n : Option ℕ) → (same_slot m n ≡ true) ↔ (m ≡ n)
same_slot_iff none none = (λ h. refl, λ h. refl)
same_slot_iff none (some n) = (λ h. cc, λ h. cc)
same_slot_iff (some m) none = (λ h. cc, λ h. cc)
same_slot_iff (some m) (some n) =
    (λ h. ap some ((nat_eq_iff m n).0 h), λ h. (nat_eq_iff m n).1 (some_inj h))

key_eq : (a b : Key) → a.day ≡ b.day → a.job ≡ b.job → a.slot ≡ b.slot → a ≡ b
key_eq a b p q r = λ i. record { day = p i; job = q i; slot = r i }

pub same_key_iff : (a b : Key) → (same_key a b ≡ true) ↔ (a ≡ b)
same_key_iff a b = (
  λ h.
      let p = &&-split _ _ h in
      let q = &&-split _ _ p.1 in
      key_eq a b ((nat_eq_iff _ _).0 p.0) (job_rank_inj _ _ ((nat_eq_iff _ _).0 q.0))
        ((same_slot_iff _ _).0 q.1),
  λ h.
      rw
        (
          (nat_eq_iff a.day b.day).1 (ap (λ k. k.day) h),
          (nat_eq_iff (job_rank a.job) (job_rank b.job)).1 (ap (λ k. job_rank k.job) h),
          (same_slot_iff a.slot b.slot).1 (ap (λ k. k.slot) h),
        )
        refl,
)

instance abbrev pub key_comparable : Comparable Key
key_comparable = record { same = same_key; same_iff = same_key_iff }

abbrev pub scheduled_keys : List Call → List Key
scheduled_keys [] = []
scheduled_keys (scheduled key ∷ rest) = key ∷ scheduled_keys rest
scheduled_keys (recovered _ _ ∷ rest) = scheduled_keys rest
scheduled_keys (requested _ ∷ rest) = scheduled_keys rest
scheduled_keys (login_link ∷ rest) = scheduled_keys rest
scheduled_keys (notified _ ∷ rest) = scheduled_keys rest

-- The keys and the completed keys of two states are the same.
abbrev pub SameKeys : Scheduler → Scheduler → Type 0
SameKeys r s =
    (scheduled_keys r.calls ≡ scheduled_keys s.calls) × (r.completed_keys ≡ s.completed_keys)

module _ (cfg : Settings) (now : ℕ) (env : Env) where
  process_pending-SameKeys :
      (job : Job) (summary : Summary) (p : Option Job) (s : Scheduler)
      → SameKeys (process_pending cfg now job summary p s) s
  process_pending-SameKeys job summary none s = (refl, refl)
  process_pending-SameKeys stream_start summary (some a) s = (refl, refl)
  process_pending-SameKeys stream_verify summary (some a) s = elim (Bool-cases summary.ok) [
    | inl r ↦ rw r (refl, refl)
    | inr r ↦ rw r (refl, refl)
  ]
  process_pending-SameKeys preopen_check summary (some a) s = (refl, refl)
  process_pending-SameKeys universe_selection summary (some a) s = (refl, refl)
  process_pending-SameKeys scanner_batch summary (some a) s = (refl, refl)
  process_pending-SameKeys stream_stop summary (some a) s = (refl, refl)

  arm-SameKeys : (s : Scheduler) → SameKeys (arm_login_recovery cfg now env s).0 s
  arm-SameKeys s =
      elim (Bool-cases (if is_none s.pending_action then false else s.login_link_sent)) [
        | inl r ↦ rw r (refl, refl)
        | inr r ↦ rw r (refl, refl)
      ]

  process_summary-SameKeys :
      (job : Job) (summary : Summary) (s : Scheduler)
      → SameKeys (process_summary cfg now env job summary s).0 s
  process_summary-SameKeys job summary s =
      elim (Bool-cases (may_arm job && login_missing summary)) [
        | inl r ↦ rw r (arm-SameKeys s)
        | inr r ↦ rw r (process_pending-SameKeys job summary s.pending_action s)
      ]

  finish_job-SameKeys : (r : Scheduler × Bool) → SameKeys (finish_job now env r) r.0
  finish_job-SameKeys (s, false) = (refl, refl)
  finish_job-SameKeys (s, true) = (refl, refl)

  pub run_job-SameKeys :
      (job : Job) (result : JobResult) (s : Scheduler)
      → SameKeys (run_job cfg now env job result s) s
  run_job-SameKeys job raised s = (refl, refl)
  run_job-SameKeys job (returned summary) s =
      let stored = store_summary now job summary s in
      let f = finish_job-SameKeys (process_summary cfg now env job summary stored) in
      let p = process_summary-SameKeys job summary stored in (f.0 ∙ p.0, f.1 ∙ p.1)

  pub run_recovery-SameKeys :
      (busy : Bool) (p : Option Job) (s : Scheduler)
      → SameKeys (run_recovery cfg now busy env p s) s
  run_recovery-SameKeys busy none s = (refl, refl)
  run_recovery-SameKeys busy (some a) s =
      let job = run_job-SameKeys a env.result (attempt cfg now a s) in
      elim (Bool-cases (ltb cfg.login_recovery_stop (ist_time now))) [
        | inl r ↦ rw r (elim (Bool-cases cfg.login_recovery_enabled) [
          | inl q ↦ rw q (refl, refl)
          | inr q ↦ rw q (refl, refl)
        ])
        | inr r ↦
            rw r
              (elim (Bool-cases (
                not cfg.login_recovery_enabled
                || (not (inside_window cfg (ist_time now)) || busy))) [
                  | inl q ↦ rw q (refl, refl)
                  | inr q ↦ rw q (elim (Bool-cases (is_waiting s.recovery_next_retry_at now)) [
                    | inl w ↦ rw w (refl, refl)
                    | inr w ↦ rw w (job.0, job.1)
                  ])
                ])
      ]

  prepare_late_start-SameKeys : (s : Scheduler) → SameKeys (prepare_late_start cfg now s) s
  prepare_late_start-SameKeys s =
      elim (Bool-cases (cfg.login_recovery_enabled && inside_window cfg (ist_time now))) [
        | inl r ↦ rw r (refl, refl)
        | inr r ↦ rw r (refl, refl)
      ]

  pub start-SameKeys : (s : Scheduler) → SameKeys (start cfg now env s) s
  unfolding start
  start-SameKeys s = prepare_late_start-SameKeys s
