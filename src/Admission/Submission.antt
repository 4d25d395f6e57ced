-- ===== src/Admission/Submission.antt =====
-- routes/resume/prepareJobSubmission.ts and enqueueJob.ts, and the route POST /resume/analyze of
-- routes/resume/resume.ts. The clock, the new job's id, the answer of the database and what
-- becomes of the two writes of `enqueueJob` are parameters.
pub mod Slots
pub mod Outcomes
pub mod Charged
use z1mak_cv_queue.Prelude.{
  Assoc, Bool, List, Option, String, [], false, if◌then◌else◌, none, some, true, ℕ, ◌&&◌, ◌*◌, ◌||◌,
  ◌∷◌,
}
use z1mak_cv_queue.Prelude.Int.{ltb_ℤ, negsuc, pos, ℤ}
use z1mak_cv_queue.Admission.QueueLength.{
  avg_seconds_hard, avg_seconds_lite, compute_max_queue_length,
}
use z1mak_cv_queue.Admission.Selection.{
  SelectParams, Selection, SelectionError, refused, select_available_model, selected,
}
use z1mak_cv_queue.Limits.{UserLimits, get_cached_user_limits}
use z1mak_cv_queue.Models.{ModelChain, resolve_model_chain}
use z1mak_cv_queue.Modes.{Mode, Role, admin, get_mode_type, user}
use z1mak_cv_queue.Redis.{
  ModeType, Redis, expire, hard, hset, incrby, job_meta, lite, pipeline, queue_waiting_model,
  user_limits,
}
use z1mak_cv_queue.Scripts.Acquire.{get_or_zero}

pub record Submission : Type 0 where
  pub user_id : String
  pub user_role : Role
  pub mode : Mode
  pub db_limits : Option (List UserLimits)  -- the query on user_limits, `none` if it throws
  pub job_id : String
  pub now : ℕ
  pub now_iso : String
  pub today_pt : String
  pub day_ttl : ℕ
  pub streaming : Bool

pub data SubmitError : Type 0 where
  limit : SelectionError → SubmitError
  queue_full : SubmitError

pub data Prep : Type 0 where
  ready : String → String → Prep  -- the requested and the selected model
  rejected : SubmitError → Prep  -- 429
  threw : Prep  -- 'No models configured in Redis'

-- CONCURRENCY_TTL_SECONDS of consts.ts
abbrev pub concurrency_ttl_seconds : ℕ
concurrency_ttl_seconds = 1860

-- JOB_KEY_TTL_SECONDS of constants/jobKeys.ts
abbrev pub job_key_ttl_seconds : ℕ
job_key_ttl_seconds = 24 * 60 * 60

abbrev is_admin_role : Role → Bool
is_admin_role admin = true
is_admin_role user = false

abbrev pub mode_text : ModeType → String
mode_text hard = "hard"
mode_text lite = "lite"

abbrev bool_text : Bool → String
bool_text true = "true"
bool_text false = "false"

abbrev avg_seconds : ModeType → ℕ
avg_seconds hard = avg_seconds_hard
avg_seconds lite = avg_seconds_lite

abbrev pub select_params : Submission → UserLimits → SelectParams
select_params q limits = record {
  user_id = q.user_id;
  is_admin = is_admin_role q.user_role || limits.unlimited;
  user_limits = limits;
  mode_type = get_mode_type q.mode;
  today_pt = q.today_pt;
  day_ttl = q.day_ttl;
  now = q.now;
  job_id = q.job_id;
  concurrency_ttl = concurrency_ttl_seconds;
}

-- The fields that `enqueueJob` writes to the job's meta hash.
unfoldable pub meta_fields : Submission → String → String → Assoc String
meta_fields q requested model =
    ("user_id", q.user_id)
    ∷ ("requested_model", requested)
    ∷ ("processed_model", model)
    ∷ ("created_at", q.now_iso)
    ∷ ("status", "queued")
    ∷ ("attempts", "0")
    ∷ ("mode_type", mode_text (get_mode_type q.mode))
    ∷ ("streaming", bool_text q.streaming)
    ∷ []

module _ (R : Redis) where
  open R use {State, exec}

  -- The slot in the model's queue: `incr`, and `decr` again if the queue is too long.
  unfoldable pub take_slot : ModeType → String → String → ℤ → ℤ → State → Prep × State
  take_slot type requested model rpm rpd s =
      let key = queue_waiting_model model in
      let s' = exec (key, incrby (pos 1)) s in
      if ltb_ℤ (pos (compute_max_queue_length rpm rpd (avg_seconds type))) (get_or_zero R key s')
      then (rejected queue_full, exec (key, incrby (negsuc 0)) s')
      else (ready requested model, s')

  unfoldable pub on_selection : ModeType → String → Selection × State → Prep × State
  on_selection type requested (refused e, s) = (rejected (limit e), s)
  on_selection type requested (selected model rpm rpd, s) = take_slot type requested model rpm rpd s

  unfoldable pub on_chain : Submission → UserLimits → Option ModelChain → State → Prep × State
  on_chain q limits none s = (threw, s)
  on_chain q limits (some c) s =
      on_selection (get_mode_type q.mode) c.requested_model (
        select_available_model R (select_params q limits) (c.requested_model ∷ c.fallback_models) s)

  unfoldable pub prepare_job_submission : Submission → State → Prep × State
  prepare_job_submission q s =
      let (limits, s') = get_cached_user_limits R q.user_id q.user_role q.db_limits s in
      on_chain q limits (resolve_model_chain R q.mode s') s'

  -- `enqueueJob`: `queued` says whether `queue.add` succeeded, `written` whether the MULTI block
  -- did. Both are started; if either fails the waiting slot is given back and the error is thrown
  -- (the Boolean of the result is `false`).
  unfoldable pub enqueue_job : Submission → String → String → Bool → Bool → State → Bool × State
  unfolding pipeline meta_fields
  enqueue_job q requested model queued written s =
      let write =
        (job_meta q.job_id, hset (meta_fields q requested model))
        ∷ (job_meta q.job_id, expire job_key_ttl_seconds)
        ∷ [] in
      let s' = if written then pipeline R write s else s in
      if queued && written
      then (true, s')
      else (false, exec (queue_waiting_model model, incrby (negsuc 0)) s')
