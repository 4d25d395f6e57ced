-- ===== src/Routes.antt =====
-- routes/resume/resume.ts. A row of the table cv_analyzes, or its absence, is what the database answers.
pub mod Accepted
pub mod Status
pub mod Admin
pub mod Recent
use z1mak_cv_queue.Prelude.{
  Assoc, Bool, List, Option, String, [], if◌then◌else◌, is_empty, lookup, none, not, or_else, some,
  true, truthy, ℕ, ◌∷◌,
}
use z1mak_cv_queue.Admission.Submission.{
  Prep, Submission, SubmitError, enqueue_job, prepare_job_submission, ready, rejected, threw,
}
use z1mak_cv_queue.Redis.{Redis, entries, fields, job_meta, job_result, job_stream}
use z1mak_cv_queue.Streaming.{Reply, ResultRow, error_frame, finished_from_db, finished_from_redis}
use z1mak_cv_queue.Streaming.Live.{Round, handle_active_streaming}

-- What `POST /analyze` answers.
pub data Analyzed : Type 0 where
  accepted : String → String → Analyzed  -- the id of the job, and the model that it waits for
  too_many : SubmitError → Analyzed  -- 429
  crashed : Analyzed  -- an exception: 500

-- The result of a job, as `GET /:id/result` answers it; `parseMaybeJson` of the text is left out.
pub record JobResult : Type 0 where
  pub status : Option String
  pub data_text : Option String
  pub error : Option String
  pub finished_at : Option String

abbrev pub result_of_row : ResultRow → JobResult
result_of_row r = record {
  status = some r.row_status;
  data_text = r.row_result;
  error = r.row_error;
  finished_at = r.row_finished_at;
}

abbrev pub result_of_hash : Assoc String → JobResult
result_of_hash h = record {
  status = lookup "status" h;
  data_text = lookup "data" h;
  error = lookup "error" h;
  finished_at = lookup "finished_at" h;
}

-- `meta.status ?? 'queued'`
abbrev pub pending : Assoc String → JobResult
pending m = record {
  status = some (or_else (lookup "status" m) "queued");
  data_text = none;
  error = none;
  finished_at = none;
}

abbrev pub not_found_reply : Reply
not_found_reply = record { frames = error_frame "NOT_FOUND" "Job not found" ∷ []; is_ended = true }

-- `row.f` of a row, or of no row.
abbrev pub of_row {ℓ} : {A : Type ℓ} → (ResultRow → A) → Option ResultRow → Option A
of_row f none = none
of_row f (some r) = some (f r)

module _ (R : Redis) where
  open R use {State}

  -- `POST /analyze`: `queued` and `written` say whether BullMQ takes the job and Redis its meta hash.
  unfoldable pub on_prepared : Submission → Bool → Bool → Prep × State → Analyzed × State
  on_prepared q queued written (rejected e, s) = (too_many e, s)
  on_prepared q queued written (threw, s) = (crashed, s)
  on_prepared q queued written (ready requested model, s) =
      let (ok_now, s') = enqueue_job R q requested model queued written s in
      (if ok_now then accepted q.job_id model else crashed, s')

  unfoldable pub analyze : Submission → Bool → Bool → State → Analyzed × State
  analyze q queued written s = on_prepared q queued written (prepare_job_submission R q s)

  -- `GET /:id/result`; `none` is 404.
  unfoldable pub get_result : String → Option ResultRow → State → Option JobResult
  get_result job row s =
      let result = fields R s (job_result job) in
      let meta = fields R s (job_meta job) in
      if not (is_empty result)
      then some (result_of_hash result)
      else if not (is_empty meta)
      then some (pending meta)
      else of_row result_of_row row

  -- `GET /:id/status`
  unfoldable pub get_status : String → Option ResultRow → State → Option String
  get_status job row s =
      let result = or_else (lookup "status" (fields R s (job_result job))) "" in
      let meta = or_else (lookup "status" (fields R s (job_meta job))) "" in
      if truthy result
      then some result
      else if truthy meta
      then some meta
      else of_row (λ r. r.row_status) row

  -- `POST /:id/result-stream`, on the rounds that its live loop meets.
  unfoldable pub result_stream : String → Option ℕ → Option ResultRow → List Round → State → Reply
  result_stream job last_event row rounds s =
      let active =
        handle_active_streaming (fields R s (job_meta job))
          (not (is_empty (entries R s (job_stream job)))) last_event (entries R s (job_stream job))
          rounds in
      or_else (finished_from_redis (fields R s (job_result job)))
        (or_else active (or_else (finished_from_db row) not_found_reply))
