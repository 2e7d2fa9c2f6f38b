-- ===== src/Ops/Scheduler/Tests.antt =====
-- backend/app/ops/market_ops_scheduler.py on a day whose stream start finds no broker session.
use trader_ai.Common.{
  ℕ, ◌+◌, ◌-◌, ◌*◌, ◌≡◌, refl, true, false, some, arith, text_comparable, number_comparable,
  contains, IsDistinct, pos, second_us, minute_us, day_us, ist_offset_us, ist_date, ist_time,
}
use trader_ai.Ops.Events.{
  stream_start, stream_verify, scanner_batch, kite_session_missing, stream_started,
}
use trader_ai.Ops.Scheduler.{
  Settings, Key, Env, new_scheduler, due_job, tick, Machine, Reach, returned, ticks, fresh, later,
}
use trader_ai.Ops.Scheduler.Recovery.{IsRecovering, reach-Recovering}
use trader_ai.Ops.Scheduler.Keys.{key_comparable, scheduled_keys}
use trader_ai.Ops.Scheduler.Once.{scheduled_keys-IsDistinct, tick-runs_due}

abbrev day_settings : Settings
day_settings = record {
  preopen_check_time = 500 * minute_us;
  stream_start_time = 540 * minute_us;
  stream_verify_time = 560 * minute_us;
  universe_select_time = 565 * minute_us;
  stream_stop_time = 935 * minute_us;
  scanner_start_time = 570 * minute_us;
  scanner_stop_time = 915 * minute_us;
  scanner_interval_seconds = pos 300;
  login_recovery_enabled = true;
  login_recovery_start = 545 * minute_us;
  login_recovery_stop = 900 * minute_us;
  login_recovery_interval_seconds = pos 60;
  poll_us = 5 * second_us;
}

-- Minute `m` of 1970-01-02 in India.
abbrev at_minute : ℕ → ℕ
at_minute m = day_us + m * minute_us - ist_offset_us

abbrev no_session : Env
no_session = record {
  result = returned (record {
    ok = false;
    skipped = true;
    event = kite_session_missing;
    login_recommended = true;
  });
  link_ok = true;
  notify_ok = true;
}

abbrev started_stream : Env
started_stream = record {
  result =
      returned
        (record { ok = true; skipped = false; event = stream_started; login_recommended = false });
  link_ok = true;
  notify_ok = true;
}

abbrev armed : Machine
armed = record {
  clock = at_minute 540;
  state = tick day_settings (at_minute 540) false no_session no_session new_scheduler;
}

abbrev retried : Machine
retried = record {
  clock = at_minute 546;
  state = tick day_settings (at_minute 546) false no_session started_stream armed.state;
}

abbrev retried_reach : Reach day_settings 0 retried
retried_reach =
    later (later fresh (ticks (at_minute 540) false no_session no_session (omega arith)))
      (ticks (at_minute 546) false no_session started_stream (omega arith))

armed_state :
    (armed.state.pending_action ≡ some stream_start)
    × (armed.state.recovery_next_retry_at ≡ some (at_minute 545))
    × (armed.state.waiting_for_kite_login ≡ true)
unfolding new_scheduler tick due_job ist_date ist_time
armed_state = (refl, refl, refl)

retried_state :
    (retried.state.pending_action ≡ some stream_verify)
    × (retried.state.recovery_attempts ≡ 1)
    × (retried.state.waiting_for_kite_login ≡ false)
unfolding new_scheduler tick due_job ist_date ist_time
retried_state = (refl, refl, refl)

scanner_key : Key
scanner_key = record { day = 1; job = scanner_batch; slot = some 1 }

scanner_is_due : due_job day_settings (at_minute 575) ≡ some scanner_key
unfolding due_job ist_date ist_time scanner_key
scanner_is_due = refl

reach-Recovering_example : IsRecovering day_settings retried.clock retried.state
reach-Recovering_example = reach-Recovering day_settings 0 retried retried_reach

scheduled_keys-IsDistinct_example : IsDistinct (scheduled_keys retried.state.calls)
scheduled_keys-IsDistinct_example = scheduled_keys-IsDistinct day_settings 0 retried retried_reach

tick-runs_due_example :
    contains scanner_key (
      scheduled_keys
        (tick day_settings (at_minute 575) false started_stream started_stream retried.state).calls)
    ≡ true
tick-runs_due_example =
    tick-runs_due day_settings 0 retried (at_minute 575) started_stream started_stream scanner_key
      retried_reach (omega arith) scanner_is_due
