-- ===== src/Worker/Failed.antt =====
-- worker/queueEvents.ts: the 'failed' event of a queue. The job's state in BullMQ is a parameter.
pub mod Settling
pub mod Release
pub mod Refund
use z1mak_cv_queue.Prelude.{
  Assoc, Bool, String, [], append_text, false, if◌then◌else◌, is_empty, lookup, not, or_else,
  str_eq, true, truthy, ℕ, ◌&&◌, ◌∷◌,
}
use z1mak_cv_queue.Admission.Submission.{job_key_ttl_seconds, mode_text}
use z1mak_cv_queue.Redis.{
  ModeType, Redis, expire, fields, hset, job_meta, job_result, job_stream, pipeline,
  queue_waiting_model, user_active_jobs, when, zrem,
}
use z1mak_cv_queue.Scripts.Consume.{consumed}
use z1mak_cv_queue.Scripts.Release.{decr_and_clamp_to_zero}
use z1mak_cv_queue.Worker.Consume.{return_tokens}
use z1mak_cv_queue.Worker.Execute.{append_entry, error_entry, stream_ttl_completed}

-- `queue.getJob(jobId)`, and `getState()` of what it finds.
pub data Seen : Type 0 where
  missing : Seen
  in_state : String → Seen

unfoldable pub is_final_attempt : Seen → Bool
is_final_attempt missing = true
is_final_attempt (in_state state) = str_eq state "failed"

-- `limitReasons[reason] ?? 'PROVIDER_ERROR'`, with the user's code made that of the queue.
unfoldable pub error_code_for : ModeType → String → String
error_code_for type reason =
    if str_eq reason "MODEL_RPD_EXCEEDED"
    then "MODEL_LIMIT"
    else if str_eq reason "USER_RPD_EXCEEDED"
    then append_text "USER_RPD_LIMIT:" (mode_text type)
    else "PROVIDER_ERROR"

abbrev pub text_field : String → Assoc String → String
text_field k h = or_else (lookup k h) ""

-- `a || b` on texts
abbrev pub or_text : String → String → String
or_text a b = if truthy a then a else b

module _ (R : Redis) where
  open R use {State, exec, next_id}

  -- The pipeline that records the failure and ends the stream; the lock goes if the user is known.
  unfoldable pub record_failure : String → String → String → String → String → State → State
  unfolding pipeline append_entry
  record_failure job owner reason code failed_at s =
      let s' =
        pipeline R
          ((
            job_result job,
            hset (
                ("status", "failed")
                ∷ ("error", reason)
                ∷ ("error_code", code)
                ∷ ("finished_at", failed_at)
                ∷ []),
          )
            ∷ (job_meta job, hset (("status", "failed") ∷ ("updated_at", failed_at) ∷ []))
            ∷ (job_result job, expire job_key_ttl_seconds)
            ∷ (job_meta job, expire job_key_ttl_seconds)
            ∷ [])
          s in
      when R (truthy owner) (user_active_jobs owner, zrem job)
        (exec (job_stream job, expire stream_ttl_completed)
          (append_entry R job (error_entry code reason false) s'))

  unfoldable pub on_failed : ModeType → String → Seen → String → String → ℕ → State → State
  on_failed type job seen failed_reason failed_at day_ttl s =
      let meta = fields R s (job_meta job) in
      let owner = text_field "user_id" meta in
      let model = or_text (text_field "processed_model" meta) (text_field "requested_model" meta) in
      let consumed = str_eq (text_field "tokens_consumed" meta) "true" in
      let answered = str_eq (text_field "provider_completed" meta) "true" in
      let give_back = truthy owner && (truthy model && (consumed && not answered)) in
      let reason = or_text failed_reason "PROVIDER_ERROR" in
      let s1 = if give_back then return_tokens R model day_ttl s else s in
      let s2 = record_failure job owner reason (error_code_for type reason) failed_at s1 in
      let s3 =
        if truthy model then (decr_and_clamp_to_zero R (queue_waiting_model model) s2).1 else s2 in
      if is_final_attempt seen && not (is_empty meta) then s3 else s
