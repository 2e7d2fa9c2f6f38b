-- ===== src/Ops/Scheduler/Once.antt =====
-- `_run_due_job` of backend/app/ops/market_ops_scheduler.py over all runs.
use trader_ai.Common.{
  ℕ, ◌≤◌, ◌≡◌, refl, sym, ap, ◌∙◌, subst, inl, inr, Bool, true, false, ◌||◌, Option, none, some,
  List, [], ◌∷◌, arith, if◌then◌else◌, nat_eq_iff, Bool-cases, Option-cases, some_inj, keep_if, All,
  All-keep_if, text_comparable, number_comparable, contains, IsDistinct, ist_date, ist_time,
  ist_date_mono,
}
use trader_ai.Ops.Scheduler.{
  Settings, Key, same_key, Env, Scheduler, new_scheduler, call, run_job, one_shot, one_shots,
  scanner_slot, key_of, due_job, has_key, of_day, prune, complete_key, run_due, tick, operate,
  Machine, Step, Reach, requested, starts, stops, ticks, operates, fresh, later,
}
use trader_ai.Ops.Scheduler.Keys.{
  same_key_iff, key_comparable, scheduled_keys, SameKeys, run_job-SameKeys, run_recovery-SameKeys,
  start-SameKeys,
}
use trader_ai.Ops.Events.{Job}

has_key-keep :
    (d : ℕ) (k : Key) (xs : List Key)
    → k.day ≡ d
    → has_key k xs ≡ true
    → has_key k (keep_if (of_day d) xs) ≡ true
has_key-keep d k [] e h = h
has_key-keep d k (x ∷ xs) e h = elim (Bool-cases (same_key x k)) [
  | inl r ↦ rw ((nat_eq_iff x.day d).1 (ap (λ z. z.day) ((same_key_iff x k).0 r) ∙ e), r) refl
  | inr r ↦
      let rest = has_key-keep d k xs e (rw r at h) in
      elim (Bool-cases (of_day d x)) [ inl q ↦ rw (q, r) rest | inr q ↦ rw q rest ]
]

-- A key that was run: its day is not after the clock's, and on the clock's own day it is completed.
abbrev IsRun : ℕ → List Key → Key → Type 0
IsRun d completed k = (k.day ≤ d) × (k.day ≡ d → has_key k completed ≡ true)

-- The keys that were run, against the completed keys.
abbrev IsOnce : ℕ → List Key → List Key → Type 0
IsOnce d keys completed =
    IsDistinct keys × All (IsRun d completed) keys × All (λ k. contains k keys ≡ true) completed

unfoldable IsScheduled : ℕ → Scheduler → Type 0
IsScheduled now s = IsOnce (ist_date now) (scheduled_keys s.calls) s.completed_keys

All-of-contains :
    (P : Key → Type 0) (k : Key) (xs : List Key) → contains k xs ≡ true → All P xs → P k
All-of-contains P k [] h a = absurd (grind arith)
All-of-contains P k (x ∷ xs) h a = elim (Bool-cases (same_key x k)) [
  | inl r ↦ subst P ((same_key_iff x k).0 r) a.0
  | inr r ↦ All-of-contains P k xs (rw r at h) a.1
]

All-map : (P Q : Key → Type 0) → ((k : Key) → P k → Q k) → (xs : List Key) → All P xs → All Q xs
All-map P Q f [] h = tt
All-map P Q f (x ∷ xs) h = (f x h.0, All-map P Q f xs h.1)

IsOnce-later :
    (c d : ℕ) (keys completed : List Key)
    → c ≤ d
    → IsOnce c keys completed
    → IsOnce d keys completed
IsOnce-later c d keys completed le h =
    (h.0, All-map _ _ (λ k p. (omega (arith, p.0), λ e. p.1 (omega (arith, p.0)))) keys h.1, h.2)

-- A key of the day that is not completed is run and completed, and the older keys are dropped.
IsOnce-run :
    (d : ℕ) (key : Key) (keys completed : List Key)
    → key.day ≡ d
    → has_key key completed ≡ false
    → IsOnce d keys completed
    → IsOnce d (key ∷ keys) (keep_if (of_day d) (key ∷ completed))
IsOnce-run d key keys completed e new h = (
  (
    elim (Bool-cases (contains key keys)) [
      | inl r ↦
          absurd (grind (arith, (All-of-contains (IsRun d completed) key keys r h.1).1 e, new))
      | inr r ↦ r
    ],
    h.0,
  ),
  (
    (
      omega arith,
      λ q. has_key-keep d key (key ∷ completed) q (rw ((same_key_iff key key).1 refl) refl),
    ),
    All-map _ _
        (λ k p. (
          p.0,
          λ q.
              has_key-keep d k (key ∷ completed) q
                (elim (Bool-cases (same_key key k)) [ inl r ↦ rw r refl | inr r ↦ rw r (p.1 q) ]),
        ))
        keys h.1,
  ),
  All-keep_if _ (of_day d) (key ∷ completed) (
    rw ((same_key_iff key key).1 refl) refl,
    All-map _ _ (λ k p. elim (Bool-cases (same_key key k)) [ inl r ↦ rw r refl | inr r ↦ rw r p ])
        completed h.2,
  ),
)

IsScheduled-same :
    (now : ℕ) (r s : Scheduler) → SameKeys r s → IsScheduled now s → IsScheduled now r
unfolding IsScheduled
IsScheduled-same now r s e h = rw (e.0, e.1) h

IsScheduled-later : (c now : ℕ) (s : Scheduler) → c ≤ now → IsScheduled c s → IsScheduled now s
unfolding IsScheduled
IsScheduled-later c now s le h = IsOnce-later _ _ _ _ (ist_date_mono c now le) h

has_key-All : (P : Key → Type 0) (k : Key) (xs : List Key) → has_key k xs ≡ true → All P xs → P k
has_key-All P k [] h a = absurd (grind arith)
has_key-All P k (x ∷ xs) h a = elim (Bool-cases (same_key x k)) [
  | inl r ↦ subst P ((same_key_iff x k).0 r) a.0
  | inr r ↦ has_key-All P k xs (rw r at h) a.1
]

IsScheduled-run :
    (now : ℕ) (key : Key) (s r : Scheduler)
    → SameKeys r (complete_key key s)
    → key.day ≡ ist_date now
    → has_key key s.completed_keys ≡ false
    → IsScheduled now s
    → IsScheduled now (prune (ist_date now) r)
unfolding IsScheduled
IsScheduled-run now key s r same e new h =
    let d = ist_date now in
    subst (λ keys. IsOnce d keys (keep_if (of_day d) r.completed_keys)) (sym same.0)
      (subst (λ done. IsOnce d (key ∷ scheduled_keys s.calls) (keep_if (of_day d) done))
        (sym same.1) (IsOnce-run d key (scheduled_keys s.calls) s.completed_keys e new h))

key_of-day :
    (day : ℕ) (job : Option Job) (slot : Option ℕ) (key : Key)
    → key_of day job slot ≡ some key
    → key.day ≡ day
key_of-day day (some job) slot key e = ap (λ k. k.day) (sym (some_inj e))
key_of-day day none (some n) key e = ap (λ k. k.day) (sym (some_inj e))
key_of-day day none none key e = absurd (grind arith)

module _ (cfg : Settings) (now : ℕ) (env : Env) where
  run_due-Scheduled :
      (busy : Bool) (key : Key) (s : Scheduler)
      → key.day ≡ ist_date now
      → IsScheduled now s
      → IsScheduled now (run_due cfg now busy env (some key) s)
  unfolding IsScheduled
  run_due-Scheduled busy key s e h = elim (Bool-cases (has_key key s.completed_keys || busy)) [
    | inl r ↦ rw r h
    | inr r ↦
        let done = run_job cfg now env key.job env.result (complete_key key s) in
        subst (λ b. IsScheduled now (if b then s else prune (ist_date now) done)) (sym r)
          (IsScheduled-run now key s done
            (run_job-SameKeys cfg now env key.job env.result (complete_key key s)) e (ground arith)
            h)
  ]

  due_job-day : (key : Key) → due_job cfg now ≡ some key → key.day ≡ ist_date now
  unfolding due_job
  due_job-day key e =
      key_of-day (ist_date now) (one_shot (ist_time now) (one_shots cfg))
        (scanner_slot cfg (ist_time now)) key e

  tick-Scheduled :
      (busy : Bool) (env' : Env) (s : Scheduler)
      → IsScheduled now s
      → IsScheduled now (tick cfg now busy env env' s)
  unfolding tick
  tick-Scheduled busy env' s h =
      let due = run_due cfg now busy env (due_job cfg now) s in
      IsScheduled-same now _ due (run_recovery-SameKeys cfg now env' busy due.pending_action due)
        (elim (Option-cases (due_job cfg now)) [
          | inl r ↦ rw r h
          | inr (key, r) ↦ rw r (run_due-Scheduled busy key s (due_job-day key r) h)
        ])

module _ (cfg : Settings) where
  Step-Scheduled :
      (m n : Machine) → Step cfg m n → IsScheduled m.clock m.state → IsScheduled n.clock n.state
  unfolding operate
  Step-Scheduled m n (starts now env le) h =
      IsScheduled-same now _ _ (start-SameKeys cfg now env m.state)
        (IsScheduled-later m.clock now m.state le h)
  Step-Scheduled m n (stops now ok le) h =
      IsScheduled-same now _ _ (refl, refl) (IsScheduled-later m.clock now m.state le h)
  Step-Scheduled m n (ticks now busy env env' le) h =
      tick-Scheduled cfg now env busy env' m.state (IsScheduled-later m.clock now m.state le h)
  Step-Scheduled m n (operates now env job le) h =
      IsScheduled-same now _ _
        (run_job-SameKeys cfg now env job env.result (call (requested job) m.state))
        (IsScheduled-later m.clock now m.state le h)

  reach-Scheduled : (t : ℕ) (m : Machine) → Reach cfg t m → IsScheduled m.clock m.state
  unfolding IsScheduled new_scheduler
  reach-Scheduled t m fresh = (tt, tt, tt)
  reach-Scheduled t m (later {m = k} r step) = Step-Scheduled k m step (reach-Scheduled t k r)

  -- In every reachable state no scheduled job was run twice: the keys (day, job, slot) of the
  -- scheduled runs are distinct, although the scheduler forgets the keys of the days before.
  pub scheduled_keys-IsDistinct :
      (t : ℕ) (m : Machine) → Reach cfg t m → IsDistinct (scheduled_keys m.state.calls)
  unfolding IsScheduled
  scheduled_keys-IsDistinct t m r = (reach-Scheduled t m r).0

  -- In a reachable state, a tick that no running job holds up, at an instant where a job is due,
  -- leaves a scheduled run of the key of that job on record.
  pub tick-runs_due :
      (t : ℕ) (m : Machine) (now : ℕ) (env env' : Env) (key : Key)
      → Reach cfg t m
      → m.clock ≤ now
      → due_job cfg now ≡ some key
      → contains key (scheduled_keys (tick cfg now false env env' m.state).calls) ≡ true
  unfolding tick IsScheduled
  tick-runs_due t m now env env' key r le e =
      let after =
        run_recovery-SameKeys cfg now env' false
          (run_due cfg now false env (some key) m.state).pending_action
          (run_due cfg now false env (some key) m.state) in
      rw (e, after.0)
        (elim (Bool-cases (has_key key m.state.completed_keys)) [
          | inl q ↦ rw q (has_key-All _ key m.state.completed_keys q (reach-Scheduled t m r).2)
          | inr q ↦
              let same =
                run_job-SameKeys cfg now env key.job env.result (complete_key key m.state) in
              rw (q, same.0, (same_key_iff key key).1 refl) refl
        ])
