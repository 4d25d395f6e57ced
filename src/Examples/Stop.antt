-- ===== src/Examples/Stop.antt =====
-- The API stops while its cron queues cannot be closed.
use z1mak_cv_queue.Prelude.{Bool, [], false, true, ◌∷◌, ◌≡◌}
use z1mak_cv_queue.Cron.Schedule.{
  CronConnection, Timers, cron_queue_hard, cron_queue_lite, no_timers,
}
use z1mak_cv_queue.Shutdown.Process.{
  database, handler_runs, of_cron, queue_hard, queue_lite, redis_client, run_process, running,
  server, signal, times,
}
use z1mak_cv_queue.Shutdown.Process.Signals.{signals_close_all, stopping}

abbrev all_timers : Timers
all_timers = record {
  model_timer = true;
  sync_timer = true;
  cleanup_timer = true;
  expire_timer = true;
}

abbrev hard_throws : CronConnection → Bool
hard_throws cron_queue_hard = true
hard_throws _ = false

signals_close_all_example :
    let p = run_process hard_throws (stopping 2 (times 5 handler_runs [])) (running all_timers) in
    let q = run_process hard_throws (stopping 2 (times 1 handler_runs [])) (running all_timers) in
    (p.closings
      ≡ server
        ∷ queue_lite
        ∷ queue_hard
        ∷ of_cron cron_queue_lite
        ∷ of_cron cron_queue_hard
        ∷ redis_client
        ∷ database
        ∷ [])
    × (p.timers ≡ no_timers)
    × (p.has_exited ≡ true)
    × (run_process hard_throws
          (stopping 2 (times 1 handler_runs (signal ∷ handler_runs ∷ [])))
          (running all_timers)
        ≡ record q { has_exited = true })
signals_close_all_example = signals_close_all 2 1 hard_throws all_timers (handler_runs ∷ [])
