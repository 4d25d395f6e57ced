-- ===== src/Cron/Schedule.antt =====
-- cron/index.ts: the four jobs, their timers, and what the service closes when it stops. The work of
-- a job and the interval of the synchronisation are arguments.
use z1mak_cv_queue.Prelude.{Bool, List, String, [], false, if◌then◌else◌, true, ℕ, ◌*◌, ◌∷◌}
use z1mak_cv_queue.Cron.Locks.{run_with_lock}
use z1mak_cv_queue.Redis.{Redis}

pub data CronJob : Type 0 where
  reloads syncs cleans expires_stale : CronJob

abbrev pub lock_name : CronJob → String
lock_name reloads = "reloadModelLimits"
lock_name syncs = "syncDbResults"
lock_name cleans = "cleanupOrphanLocks"
lock_name expires_stale = "expireStaleJobs"

-- MODEL_RELOAD_MS, DB_SYNC_MS, ORPHAN_CLEAN_MS and EXPIRE_CHECK_MS
abbrev pub interval_ms : ℕ → CronJob → ℕ
interval_ms db_sync_ms reloads = 5 * 60 * 1000
interval_ms db_sync_ms syncs = db_sync_ms
interval_ms db_sync_ms cleans = 60 * 60 * 1000
interval_ms db_sync_ms expires_stale = 60 * 1000

-- The variables of the module: which timers are set.
pub record Timers : Type 0 where
  pub model_timer : Bool
  pub sync_timer : Bool
  pub cleanup_timer : Bool
  pub expire_timer : Bool

abbrev pub no_timers : Timers
no_timers = record {
  model_timer = false;
  sync_timer = false;
  cleanup_timer = false;
  expire_timer = false;
}

abbrev pub is_set : CronJob → Timers → Bool
is_set reloads t = t.model_timer
is_set syncs t = t.sync_timer
is_set cleans t = t.cleanup_timer
is_set expires_stale t = t.expire_timer

abbrev pub set_timer : CronJob → Timers → Timers
set_timer reloads t = record t { model_timer = true }
set_timer syncs t = record t { sync_timer = true }
set_timer cleans t = record t { cleanup_timer = true }
set_timer expires_stale t = record t { expire_timer = true }

module _ (R : Redis) (db_sync_ms : ℕ) (work : CronJob → R.State → R.State) where
  open R use {State}

  unfoldable pub run_job : CronJob → State → State
  run_job job s = run_with_lock R (lock_name job) (interval_ms db_sync_ms job) (work job) s

  -- The job runs at once, and then its timer is set.
  unfoldable pub start_job : CronJob → Timers × State → Timers × State
  start_job job (t, s) = (set_timer job t, run_job job s)

  -- `start`
  unfoldable pub start_cron : Timers × State → Timers × State
  start_cron u = start_job expires_stale (start_job cleans (start_job syncs (start_job reloads u)))

  -- The interval of a job ends.
  unfoldable pub tick : CronJob → Timers × State → Timers × State
  tick job (t, s) = (t, if is_set job t then run_job job s else s)

-- What the service has open.
pub data CronConnection : Type 0 where
  cron_queue_lite cron_queue_hard cron_redis : CronConnection

-- The awaits of `stop`: one that throws ends it. The result is what was closed, or tried to be, and
-- whether it threw.
unfoldable pub close_in_turn :
    (CronConnection → Bool) → List CronConnection → List CronConnection × Bool
close_in_turn throws_error [] = ([], false)
close_in_turn throws_error (c ∷ l) =
    let (rest, failed_too) = close_in_turn throws_error l in
    if throws_error c then (c ∷ [], true) else (c ∷ rest, failed_too)

-- `stop`
unfoldable pub stop_cron : (CronConnection → Bool) → Timers → Timers × (List CronConnection × Bool)
stop_cron throws_error t =
    (no_timers, close_in_turn throws_error (cron_queue_lite ∷ cron_queue_hard ∷ cron_redis ∷ []))
