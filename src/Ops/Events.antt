-- ===== src/Ops/Events.antt =====
-- The jobs and events of backend/app/ops, and the summary that a job gives.
use trader_ai.Common.{ℕ, zero, suc, ◌≡◌, refl, sym, ap, ◌∙◌, Bool}

pub data Job : Type 0 where
  preopen_check stream_start stream_verify universe_selection scanner_batch stream_stop : Job

abbrev pub job_rank : Job → ℕ
job_rank preopen_check = 0
job_rank stream_start = 1
job_rank stream_verify = 2
job_rank universe_selection = 3
job_rank scanner_batch = 4
job_rank stream_stop = 5

abbrev pub job_of : ℕ → Job
job_of zero = preopen_check
job_of (suc zero) = stream_start
job_of (suc (suc zero)) = stream_verify
job_of (suc (suc (suc zero))) = universe_selection
job_of (suc (suc (suc (suc zero)))) = scanner_batch
job_of (suc (suc (suc (suc (suc _))))) = stream_stop

job_of-rank : (j : Job) → job_of (job_rank j) ≡ j
job_of-rank preopen_check = refl
job_of-rank stream_start = refl
job_of-rank stream_verify = refl
job_of-rank universe_selection = refl
job_of-rank scanner_batch = refl
job_of-rank stream_stop = refl

pub job_rank_inj : (i j : Job) → job_rank i ≡ job_rank j → i ≡ j
job_rank_inj i j h = sym (job_of-rank i) ∙ ap job_of h ∙ job_of-rank j

pub data Event : Type 0 where
  preopen_check_ok preopen_check_failed kite_session_missing watchlist_not_ready : Event
  stream_start_skipped stream_started stream_not_connected stream_start_failed : Event
  candle_health_warning stream_verify_ok : Event
  universe_selection_skipped universe_selection_completed universe_selection_failed : Event
  scanner_batch_completed scanner_batch_failed stream_stop_completed stream_stop_failed : Event
  market_ops_job_failed kite_login_recovery_expired market_ops_started market_ops_stopped : Event
  market_ops_notification_failed : Event

-- `login_kite` is the one recommended action that the scheduler reads.
pub record Summary : Type 0 where
  pub ok : Bool
  pub skipped : Bool
  pub event : Event
  pub login_recommended : Bool
