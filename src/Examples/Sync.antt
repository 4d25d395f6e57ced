-- ===== src/Examples/Sync.antt =====
-- A finished job and its row, and workers that are given another concurrency.
use z1mak_cv_queue.Prelude.{
  Bool-cases, String, [], arith, eq_iff, false, inl, inr, insert, lookup, none, refl, some, str_eq,
  true, ◌∷◌, ◌≡◌,
}
use z1mak_cv_queue.Prelude.Int.{pos}
use z1mak_cv_queue.Cron.Locks.{member}
use z1mak_cv_queue.Cron.Sync.{
  JobRow, SyncClock, full_row, is_accepted, merge_row, missing_row, plan_job, sync_db_results,
  synced_before,
}
use z1mak_cv_queue.Cron.Sync.Rows.{RowFits}
use z1mak_cv_queue.Cron.Sync.Run.{run_syncs}
use z1mak_cv_queue.Js.{number_of}
use z1mak_cv_queue.Memory.{empty, memory}
use z1mak_cv_queue.Redis.{
  effect, fields, hard, hset, insert_all, job_meta, job_result, lite, pipeline, set_text, text,
  worker_concurrency,
}
use z1mak_cv_queue.Routes.Admin.{ConcurrencyBody, admin_needs_restart, set_worker_concurrency}
use z1mak_cv_queue.Worker.Concurrency.{
  Manager, Slots, default_concurrency, fetch_concurrency_config, init_workers, parse_concurrency,
  refresh_concurrency, reload_worker, slots_of, update_worker,
}
use z1mak_cv_queue.Worker.Lifecycle.{WorkerProcess, at_load, receive_all, start}
use z1mak_cv_queue.Worker.Preflight.{ready}

abbrev finished : memory.State
unfolding memory pipeline
finished =
    pipeline memory
      ((
        job_meta "j1",
        hset (
            ("user_id", "u1")
            ∷ ("requested_model", "flash-lite")
            ∷ ("created_at", "2026-01-01T00:00:00.000Z")
            ∷ []),
      )
        ∷ (job_result "j1", hset (("status", "completed") ∷ ("data", "{}") ∷ []))
        ∷ [])
      empty

abbrev at_noon : SyncClock
at_noon = record {
  sync_now_ms = 1767268800000;
  sync_iso = "2026-01-01T12:00:00.000Z";
  parse_date = λ text. none;
  parse_json = λ text. some text;
  fits_table = λ old row. true;
}

-- The table has a row of the job, without a status of its own.
abbrev queued_row : JobRow
unfolding missing_row
queued_row = record (missing_row at_noon "j1" (("user_id", "u1") ∷ [])) { row_job_error = none }

-- The table takes the row of the finished job; the other one has no hash.
rows_fit :
    (x : String)
    → member memory x ("j0" ∷ "j1" ∷ []) ≡ true
    → RowFits at_noon (lookup x (("j1", queued_row) ∷ [])) (
        plan_job at_noon x
          (fields memory finished (job_meta x))
          (fields memory finished (job_result x)))
unfolding lookup fields memory finished effect insert_all insert plan_job full_row is_accepted
rows_fit x h = elim (Bool-cases (str_eq x "j0")) [
  | inl e ↦ rw ((eq_iff x "j0").0 e) tt
  | inr e ↦ let same : x ≡ "j1" = (eq_iff x "j1").0 (ground arith) in rw same refl
]

run_syncs_example :
    let (is_done, u) =
      sync_db_results memory at_noon ("j0" ∷ "j1" ∷ []) (finished, ("j1", queued_row) ∷ []) in
    let (after, rows) = u in
    let result = fields memory finished (job_result "j1") in
    (is_done ≡ true)
    × (lookup "j1" rows
        ≡ some (
            merge_row
              (some queued_row)
              (full_row at_noon "j1" (fields memory finished (job_meta "j1")) result)))
    × (plan_job at_noon "j1"
          (fields memory after (job_meta "j1"))
          (fields memory after (job_result "j1"))
        ≡ synced_before)
    × (lookup "data" (fields memory after (job_result "j1")) ≡ lookup "data" result)
unfolding lookup fields memory finished effect insert_all insert
run_syncs_example =
    run_syncs memory at_noon at_noon "j1" "data" ("j0" ∷ "j1" ∷ []) finished
      (("j1", queued_row) ∷ []) refl refl (refl, (refl, tt)) rows_fit refl refl refl refl

-- Both workers are created with the defaults; then the configuration gives 5 to the light queue.
abbrev pub started : Manager
unfolding memory
started = init_workers memory empty record {
  active_concurrency = default_concurrency;
  is_loading = false;
  workers = none;
  restarts = [];
}

abbrev five_slots : memory.State
unfolding memory
five_slots = memory.exec (worker_concurrency lite, set_text "5") empty

five_restarts_lite : (refresh_concurrency memory five_slots started).restarts ≡ lite ∷ []
unfolding init_workers refresh_concurrency memory five_slots started update_worker reload_worker
    fetch_concurrency_config parse_concurrency text effect number_of
five_restarts_lite = refl

abbrev five_lite : ConcurrencyBody
five_lite = record { queue = lite; concurrency = 5 }

abbrev at_first : memory.State
unfolding memory
at_first = empty

admin_needs_restart_example :
    let u = set_worker_concurrency memory five_lite at_first in
    (p : WorkerProcess memory) × (q : WorkerProcess memory) × (w : Slots) × (start memory
        (ready 7)
        at_first
        at_first
        (at_load memory)
      ≡ some p)
    × (receive_all memory (u ∷ u ∷ []) p ≡ p)
    × (p.manager.workers ≡ some (fetch_concurrency_config memory at_first))
    × (start memory (ready 7) u u (at_load memory) ≡ some q)
    × (q.manager.workers ≡ some w)
    × (slots_of lite w ≡ pos 5)
    × (slots_of hard w ≡ slots_of hard (fetch_concurrency_config memory at_first))
admin_needs_restart_example =
    admin_needs_restart memory five_lite at_first 7
      (set_worker_concurrency memory five_lite at_first ∷ []) refl
