-- ===== src/Ops/Scheduler.antt =====
-- backend/app/ops/market_ops_scheduler.py in the zone Asia/Kolkata. Instants are microseconds, times
-- of day are microseconds since midnight. The calls of the orchestrator are kept in order in
-- `calls`; what each of them does comes from an `Env`. One step reads the clock once.
pub mod Recovery
pub mod Once
pub mod Keys
mod Tests
use trader_ai.Common.{
  ℕ, ◌+◌, ◌-◌, ◌*◌, ◌/◌, ◌≤◌, max, Bool, true, false, not, ◌&&◌, ◌||◌, Option, none, some, List, [],
  ◌∷◌, ltb, leb, nat_eq, if◌then◌else◌, is_none, keep_if, any_of, ℤ, pos_part, ltb_ℤ, max_ℤ, pos,
  second_us, minute_us, day_us, ist_offset_us, ist_date, ist_time,
}
use trader_ai.Ops.Events.{
  Job, job_rank, Event, Summary, preopen_check, stream_start, stream_verify, universe_selection,
  scanner_batch, stream_stop, kite_session_missing, stream_started, stream_not_connected,
  market_ops_job_failed, kite_login_recovery_expired, market_ops_started, market_ops_stopped,
  market_ops_notification_failed,
}

pub record Settings : Type 0 where
  pub preopen_check_time : ℕ
  pub stream_start_time : ℕ
  pub stream_verify_time : ℕ
  pub universe_select_time : ℕ
  pub stream_stop_time : ℕ
  pub scanner_start_time : ℕ
  pub scanner_stop_time : ℕ
  pub scanner_interval_seconds : ℤ
  pub login_recovery_enabled : Bool
  pub login_recovery_start : ℕ
  pub login_recovery_stop : ℕ
  pub login_recovery_interval_seconds : ℤ
  pub poll_us : ℕ

-- `f"{date}:{name}"` and `f"{date}:scanner_batch:{slot}"`
pub record Key : Type 0 where
  pub day : ℕ
  pub job : Job
  pub slot : Option ℕ

abbrev pub same_slot : Option ℕ → Option ℕ → Bool
same_slot none none = true
same_slot (some m) (some n) = nat_eq m n
same_slot _ _ = false

abbrev pub same_key : Key → Key → Bool
same_key a b =
    nat_eq a.day b.day && (nat_eq (job_rank a.job) (job_rank b.job) && same_slot a.slot b.slot)

pub data Call : Type 0 where
  scheduled : Key → Call
  recovered : Job → ℕ → Call
  requested : Job → Call
  login_link : Call
  notified : Event → Call

pub data JobResult : Type 0 where
  returned : Summary → JobResult
  raised : JobResult

-- How the calls of one step end: the job, the login link and a notification.
pub record Env : Type 0 where
  pub result : JobResult
  pub link_ok : Bool
  pub notify_ok : Bool

pub record Scheduler : Type 0 where
  pub completed_keys : List Key
  pub last_event_at : Option ℕ
  pub last_error : Option Event
  pub last : Job → Option Summary
  pub waiting_for_kite_login : Bool
  pub pending_action : Option Job
  pub recovery_attempts : ℕ
  pub recovery_last_attempt_at : Option ℕ
  pub recovery_next_retry_at : Option ℕ
  pub login_link_sent : Bool
  pub calls : List Call

unfoldable pub new_scheduler : Scheduler
new_scheduler = record {
  completed_keys = [];
  last_event_at = none;
  last_error = none;
  last = λ job. none;
  waiting_for_kite_login = false;
  pending_action = none;
  recovery_attempts = 0;
  recovery_last_attempt_at = none;
  recovery_next_retry_at = none;
  login_link_sent = false;
  calls = [];
}

abbrev pub call : Call → Scheduler → Scheduler
call c s = record s { calls = c ∷ s.calls }

-- `_notify_event`
abbrev pub notify_event : Event → Bool → Scheduler → Scheduler
notify_event event ok s = record s {
  calls = notified event ∷ s.calls;
  last_error = if ok then s.last_error else some market_ops_notification_failed;
}

abbrev pub seconds_us : ℤ → ℕ
seconds_us n = pos_part (max_ℤ (pos 1) n) * second_us

-- `_schedule_next_recovery`: not before the start of the window of the day.
abbrev pub next_recovery : Settings → ℕ → ℕ
next_recovery cfg now =
    max (now + seconds_us cfg.login_recovery_interval_seconds)
      (ist_date now * day_us + cfg.login_recovery_start - ist_offset_us)

abbrev pub schedule_next_recovery : Settings → ℕ → Scheduler → Scheduler
schedule_next_recovery cfg now s = record s {
  recovery_next_retry_at = some (next_recovery cfg now);
}

-- `_clear_recovery`
abbrev pub clear_recovery : Scheduler → Scheduler
clear_recovery s = record s {
  waiting_for_kite_login = false;
  pending_action = none;
  recovery_attempts = 0;
  recovery_last_attempt_at = none;
  recovery_next_retry_at = none;
  login_link_sent = false;
}

-- `_arm_login_recovery`; its second part is true where sending the link raises.
abbrev pub arm_login_recovery : Settings → ℕ → Env → Scheduler → Scheduler × Bool
arm_login_recovery cfg now env s =
    let new_episode = is_none s.pending_action in
    let sent = if new_episode then false else s.login_link_sent in
    let attempts = if new_episode then 0 else s.recovery_attempts in
    (
      record s {
        waiting_for_kite_login = true;
        pending_action = some stream_start;
        recovery_next_retry_at = some (next_recovery cfg now);
        recovery_attempts = attempts;
        login_link_sent = true;
        calls = if sent then s.calls else login_link ∷ s.calls;
      },
      not sent && not env.link_ok,
    )

abbrev pub is_login_event : Event → Bool
is_login_event kite_session_missing = true
is_login_event _ = false

abbrev pub is_start_event : Event → Bool
is_start_event stream_started = true
is_start_event stream_not_connected = true
is_start_event _ = false

abbrev pub login_missing : Summary → Bool
login_missing summary = is_login_event summary.event || summary.login_recommended

-- `_process_recovery_summary` past its first test.
abbrev pub process_pending : Settings → ℕ → Job → Summary → Option Job → Scheduler → Scheduler
process_pending cfg now job summary none s = s
process_pending cfg now stream_start summary (some pending) s = record s {
  waiting_for_kite_login = false;
  pending_action = if is_start_event summary.event then some stream_verify else some pending;
  recovery_next_retry_at = some (next_recovery cfg now);
}
process_pending cfg now stream_verify summary (some pending) s =
    if summary.ok then clear_recovery s else schedule_next_recovery cfg now s
process_pending cfg now preopen_check summary (some pending) s = s
process_pending cfg now universe_selection summary (some pending) s = s
process_pending cfg now scanner_batch summary (some pending) s = s
process_pending cfg now stream_stop summary (some pending) s = s

abbrev pub may_arm : Job → Bool
may_arm preopen_check = true
may_arm stream_start = true
may_arm _ = false

-- `_process_recovery_summary`
abbrev pub process_summary : Settings → ℕ → Env → Job → Summary → Scheduler → Scheduler × Bool
process_summary cfg now env job summary s =
    if may_arm job && login_missing summary
    then arm_login_recovery cfg now env s
    else (process_pending cfg now job summary s.pending_action s, false)

-- The `except` branch of `run_job`.
abbrev pub job_failed : ℕ → Env → Scheduler → Scheduler
job_failed now env s =
    notify_event market_ops_job_failed env.notify_ok
      (record s { last_error = some market_ops_job_failed; last_event_at = some now })

abbrev pub store_summary : ℕ → Job → Summary → Scheduler → Scheduler
store_summary now job summary s = record s {
  last = λ j. if nat_eq (job_rank j) (job_rank job) then some summary else s.last j;
  last_error = if summary.ok then none else some summary.event;
  last_event_at = some now;
}

abbrev pub finish_job : ℕ → Env → Scheduler × Bool → Scheduler
finish_job now env (s, false) = s
finish_job now env (s, true) = job_failed now env s

-- `run_job`, once its lock is free.
abbrev pub run_job : Settings → ℕ → Env → Job → JobResult → Scheduler → Scheduler
run_job cfg now env job raised s = job_failed now env s
run_job cfg now env job (returned summary) s =
    finish_job now env (process_summary cfg now env job summary (store_summary now job summary s))

abbrev pub same_minute : ℕ → ℕ → Bool
same_minute a b = nat_eq (a / minute_us) (b / minute_us)

abbrev pub one_shot : ℕ → List (Job × ℕ) → Option Job
one_shot time [] = none
one_shot time ((job, at) ∷ rest) =
    let later = one_shot time rest in if same_minute time at then some job else later

abbrev pub one_shots : Settings → List (Job × ℕ)
one_shots cfg =
    (preopen_check, cfg.preopen_check_time)
    ∷ (stream_start, cfg.stream_start_time)
    ∷ (stream_verify, cfg.stream_verify_time)
    ∷ (universe_selection, cfg.universe_select_time)
    ∷ (stream_stop, cfg.stream_stop_time)
    ∷ []

-- The scanner slot that an instant of the day falls in, within one poll of its start.
abbrev pub slot_of : ℕ → ℕ → ℕ → Option ℕ
slot_of elapsed seconds poll =
    let slot = elapsed / second_us / seconds in
    if ltb (elapsed - slot * seconds * second_us) poll then some slot else none

abbrev pub scanner_slot : Settings → ℕ → Option ℕ
scanner_slot cfg time =
    if leb cfg.scanner_start_time time && leb time cfg.scanner_stop_time
    then (if ltb_ℤ cfg.scanner_interval_seconds (pos 1)
        then none
        else slot_of (time - cfg.scanner_start_time) (pos_part cfg.scanner_interval_seconds)
            cfg.poll_us)
    else none

abbrev pub key_of : ℕ → Option Job → Option ℕ → Option Key
key_of day (some job) slot = some (record { day = day; job = job; slot = none })
key_of day none (some n) = some (record { day = day; job = scanner_batch; slot = some n })
key_of day none none = none

-- `_due_job`
unfoldable pub due_job : Settings → ℕ → Option Key
due_job cfg now =
    key_of (ist_date now) (one_shot (ist_time now) (one_shots cfg))
      (scanner_slot cfg (ist_time now))

abbrev pub has_key : Key → List Key → Bool
has_key key = any_of (λ k. same_key k key)

-- The prefix test of the keys that are kept.
abbrev pub of_day : ℕ → Key → Bool
of_day day key = nat_eq key.day day

abbrev pub prune : ℕ → Scheduler → Scheduler
prune day s = record s { completed_keys = keep_if (of_day day) s.completed_keys }

abbrev pub complete_key : Key → Scheduler → Scheduler
complete_key key s = record s {
  completed_keys = key ∷ s.completed_keys;
  calls = scheduled key ∷ s.calls;
}

-- `_run_due_job`
abbrev pub run_due : Settings → ℕ → Bool → Env → Option Key → Scheduler → Scheduler
run_due cfg now busy env none s = s
run_due cfg now busy env (some key) s =
    if has_key key s.completed_keys || busy
    then s
    else prune (ist_date now) (run_job cfg now env key.job env.result (complete_key key s))

abbrev pub is_waiting : Option ℕ → ℕ → Bool
is_waiting none now = false
is_waiting (some next) now = ltb now next

abbrev pub expire : Settings → Env → Scheduler → Scheduler
expire cfg env s = clear_recovery (
    if cfg.login_recovery_enabled
    then notify_event kite_login_recovery_expired env.notify_ok s
    else s)

abbrev pub inside_window : Settings → ℕ → Bool
inside_window cfg time = leb cfg.login_recovery_start time && leb time cfg.login_recovery_stop

abbrev pub attempt : Settings → ℕ → Job → Scheduler → Scheduler
attempt cfg now action s = record s {
  recovery_attempts = s.recovery_attempts + 1;
  recovery_last_attempt_at = some now;
  recovery_next_retry_at = some (next_recovery cfg now);
  calls = recovered action now ∷ s.calls;
}

-- `_run_recovery`
abbrev pub run_recovery : Settings → ℕ → Bool → Env → Option Job → Scheduler → Scheduler
run_recovery cfg now busy env none s = s
run_recovery cfg now busy env (some action) s =
    if ltb cfg.login_recovery_stop (ist_time now)
    then expire cfg env s
    else if not cfg.login_recovery_enabled || (not (inside_window cfg (ist_time now)) || busy)
    then s
    else if is_waiting s.recovery_next_retry_at now
    then s
    else run_job cfg now env action env.result (attempt cfg now action s)

-- One round of `_loop`.
unfoldable pub tick : Settings → ℕ → Bool → Env → Env → Scheduler → Scheduler
tick cfg now busy env env' s =
    let s' = run_due cfg now busy env (due_job cfg now) s in
    run_recovery cfg now busy env' s'.pending_action s'

-- `_prepare_late_start_recovery`
abbrev pub prepare_late_start : Settings → ℕ → Scheduler → Scheduler
prepare_late_start cfg now s =
    if cfg.login_recovery_enabled && inside_window cfg (ist_time now)
    then record s {
      waiting_for_kite_login = false;
      pending_action = some stream_start;
      recovery_attempts = 0;
      recovery_last_attempt_at = none;
      recovery_next_retry_at = some now;
      login_link_sent = false;
    }
    else s

-- `start`, with no task running.
unfoldable pub start : Settings → ℕ → Env → Scheduler → Scheduler
start cfg now env s = notify_event market_ops_started env.notify_ok (prepare_late_start cfg now s)

-- `run_job` on behalf of an operator.
unfoldable pub operate : Settings → ℕ → Env → Job → Scheduler → Scheduler
operate cfg now env job s = run_job cfg now env job env.result (call (requested job) s)

-- The scheduler at the instant of its last step.
pub record Machine : Type 0 where
  pub clock : ℕ
  pub state : Scheduler

-- The clock does not run backwards.
pub data Step (cfg : Settings) (m : Machine) : Machine → Type 0 where
  starts :
      (now : ℕ) (env : Env)
      → m.clock ≤ now
      → Step cfg m (record { clock = now; state = start cfg now env m.state })
  stops :
      (now : ℕ) (ok : Bool)
      → m.clock ≤ now
      → Step cfg m (record { clock = now; state = notify_event market_ops_stopped ok m.state })
  ticks :
      (now : ℕ) (busy : Bool) (env env' : Env)
      → m.clock ≤ now
      → Step cfg m (record { clock = now; state = tick cfg now busy env env' m.state })
  operates :
      (now : ℕ) (env : Env) (job : Job)
      → m.clock ≤ now
      → Step cfg m (record { clock = now; state = operate cfg now env job m.state })

abbrev pub initial : ℕ → Machine
initial t = record { clock = t; state = new_scheduler }

pub data Reach (cfg : Settings) (t : ℕ) : Machine → Type 0 where
  fresh : Reach cfg t (initial t)
  later : {m n : Machine} → Reach cfg t m → Step cfg m n → Reach cfg t n
