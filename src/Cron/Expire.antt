-- ===== src/Cron/Expire.antt =====
-- cron/expireStaleJobs.ts: jobs that wait too long in their queue are removed and settled.
pub mod Restores
pub mod Unstarted
use z1mak_cv_queue.Prelude.{
  Assoc, List, Option, String, [], if◌then◌else◌, leb, none, not, some, str_eq, truthy, ℕ, ◌&&◌,
  ◌∷◌,
}
use z1mak_cv_queue.Redis.{
  Key, ModeType, Redis, error, fields, hard, job_meta, job_result, lite, queue_waiting_model,
  user_active_jobs, user_type_rpd,
}
use z1mak_cv_queue.Scripts.Consume.{consumed}
use z1mak_cv_queue.Scripts.Release.{ExpireArgs, expire_stale_job}
use z1mak_cv_queue.Worker.Consume.{return_tokens}
use z1mak_cv_queue.Worker.Failed.{or_text, text_field}

-- A waiting or delayed job of a queue: its age, its id, and the data that was enqueued with it.
pub record QueuedJob : Type 0 where
  pub age_ms : ℕ
  pub queued_id : String
  pub queued_user : String
  pub queued_model : String

pub record ExpireClock : Type 0 where
  pub sla_ms : ℕ
  pub expire_day_ttl : ℕ
  pub expire_iso : String
  pub expire_date_pt : String

-- `a ? key : '__nil__'`
abbrev pub key_if : String → Key → Option Key
key_if t k = if truthy t then some k else none

abbrev pub expire_args : ExpireClock → String → ExpireArgs
expire_args c job = record {
  day_ttl = c.expire_day_ttl;
  finished_at = c.expire_iso;
  updated_at = c.expire_iso;
  status = "failed";
  error = "expired";
  error_code = "expired";
  job_id = job;
}

module _ (R : Redis) where
  open R use {State}

  -- `model || meta.processed_model || meta.requested_model`
  abbrev pub model_for_tokens : QueuedJob → Assoc String → String
  model_for_tokens j meta =
      or_text j.queued_model
        (or_text (text_field "processed_model" meta) (text_field "requested_model" meta))

  -- The body of the loop for a job past the limit; `job.remove()` is a call of the queue library.
  unfoldable pub expire_job : ModeType → ExpireClock → QueuedJob → State → State
  expire_job type c j s =
      let meta = fields R s (job_meta j.queued_id) in
      let consumed = str_eq (text_field "tokens_consumed" meta) "true" in
      let answered = str_eq (text_field "provider_completed" meta) "true" in
      let model = model_for_tokens j meta in
      let s1 =
        if consumed && (truthy model && not answered)
        then return_tokens R model c.expire_day_ttl s
        else s in
      expire_stale_job R (key_if j.queued_model (queue_waiting_model j.queued_model))
        (key_if j.queued_user (user_active_jobs j.queued_user))
        (key_if j.queued_user (user_type_rpd j.queued_user type c.expire_date_pt))
        (job_result j.queued_id) (job_meta j.queued_id) (expire_args c j.queued_id) s1

  unfoldable pub expire_queue : ModeType → ExpireClock → List QueuedJob → State → State
  expire_queue type c [] s = s
  expire_queue type c (j ∷ jobs) s =
      expire_queue type c jobs (if leb j.age_ms c.sla_ms then s else expire_job type c j s)

  -- The lite queue, then the hard one.
  unfoldable pub expire_stale_jobs : ExpireClock → List QueuedJob → List QueuedJob → State → State
  expire_stale_jobs c lite_jobs hard_jobs s =
      expire_queue hard c hard_jobs (expire_queue lite c lite_jobs s)
