-- ===== src/Worker/Job.antt =====
-- worker/handleJob.ts: one attempt at a job.
pub mod Attempts
pub mod Meta
pub mod Settled
use z1mak_cv_queue.Prelude.{Bool, String, [], lookup, or_else, str_eq, ℕ, ◌∷◌}
use z1mak_cv_queue.Redis.{Redis, fields, hset, job_meta}
use z1mak_cv_queue.Worker.Consume.{
  ConsumeResult, charged, consume_limits_if_needed, delayed, skipped,
}
use z1mak_cv_queue.Worker.Execute.{Call, execute_model}
use z1mak_cv_queue.Worker.Finalize.{finalize_failure, finalize_success, mark_in_progress}
use z1mak_cv_queue.Worker.Types.{Failure, JobData, ProviderResult, Result, returns, throws}

-- What handleJob ends with: BullMQ completes the job, or fails the attempt.
pub data Ending : Type 0 where
  put_off : Ending  -- delayed, and the handler returned
  completed : Ending
  failed : Failure → Ending

pub record Clock : Type 0 where
  pub now_iso : String
  pub day_ttl : ℕ

module _ (R : Redis) where
  open R use {State, exec}

  abbrev pub tokens_consumed : State → String → Bool
  tokens_consumed s job =
      str_eq (or_else (lookup "tokens_consumed" (fields R s (job_meta job))) "") "true"

  unfoldable pub set_provider_completed : String → String → State → State
  set_provider_completed job value s =
      exec (job_meta job, hset (("provider_completed", value) ∷ [])) s

  -- After `executeModel`.
  unfoldable pub after_execute : JobData → Clock → Result ProviderResult × State → Ending × State
  after_execute job clock (returns result, s) = (
    completed,
    finalize_success R job result clock.now_iso (set_provider_completed job.job_id "true" s),
  )
  after_execute job clock (throws f, s) = (failed (finalize_failure f), s)

  -- After `consumeLimitsIfNeeded`.
  unfoldable pub after_limits :
      JobData → Call → Clock → Result ConsumeResult × State → Ending × State
  after_limits job call clock (returns (delayed ms), s) = (put_off, s)
  after_limits job call clock (returns charged, s) =
      after_execute job clock
        (execute_model R job call (set_provider_completed job.job_id "false" s))
  after_limits job call clock (returns skipped, s) =
      after_execute job clock
        (execute_model R job call (set_provider_completed job.job_id "false" s))
  after_limits job call clock (throws f, s) = (failed (finalize_failure f), s)

  unfoldable pub handle_job : JobData → Call → Clock → State → Ending × State
  handle_job job call clock s = after_limits job call clock (
      consume_limits_if_needed R job (tokens_consumed s job.job_id) clock.day_ttl
        (mark_in_progress R job.job_id clock.now_iso s))
