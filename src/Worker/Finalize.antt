-- ===== src/Worker/Finalize.antt =====
-- worker/markInProgress.ts, finalizeSuccess.ts and finalizeFailure.ts.
use z1mak_cv_queue.Prelude.{String, [], if◌then◌else◌, none, some, truthy, ◌∷◌}
use z1mak_cv_queue.Admission.Submission.{job_key_ttl_seconds}
use z1mak_cv_queue.Redis.{
  Redis, expire, hset, job_meta, job_result, pipeline, queue_waiting_model, user_active_jobs, zrem,
}
use z1mak_cv_queue.Scripts.Release.{decr_and_clamp_to_zero}
use z1mak_cv_queue.Worker.Types.{Failure, JobData, ProviderResult, thrown, unrecoverable}

module _ (R : Redis) where
  open R use {State, exec}

  unfoldable pub mark_in_progress : String → String → State → State
  unfolding pipeline
  mark_in_progress job now s =
      pipeline R
        ((job_meta job, hset (("status", "in_progress") ∷ ("updated_at", now) ∷ []))
          ∷ (job_meta job, expire job_key_ttl_seconds)
          ∷ [])
        s

  unfoldable pub finalize_success : JobData → ProviderResult → String → State → State
  unfolding pipeline
  finalize_success job result finished_at s =
      let s' =
        pipeline R
          ((
            job_meta job.job_id,
            hset (("processed_model", result.used_model) ∷ ("status", "completed") ∷ []),
          )
            ∷ (job_meta job.job_id, expire job_key_ttl_seconds)
            ∷ (
              job_result job.job_id,
              hset (
                  ("status", "completed")
                  ∷ ("data", result.text)
                  ∷ ("finished_at", finished_at)
                  ∷ ("used_model", result.used_model)
                  ∷ []),
            )
            ∷ (job_result job.job_id, expire job_key_ttl_seconds)
            ∷ (user_active_jobs job.user_id, zrem job.job_id)
            ∷ [])
          s in
      (decr_and_clamp_to_zero R (queue_waiting_model job.model) s').1

-- `err.retryable === false` makes the failure final.
unfoldable pub finalize_failure : Failure → Failure
finalize_failure (unrecoverable m) = unrecoverable m
finalize_failure (thrown e) = elim e.retryable [
  | none ↦ thrown e
  | some r ↦
      if r
      then thrown e
      else unrecoverable (if truthy e.message then e.message else "PROVIDER_FATAL_ERROR")
]
