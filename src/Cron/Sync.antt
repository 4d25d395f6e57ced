-- ===== src/Cron/Sync.antt =====
-- cron/syncDbResults.ts: finished jobs go from Redis to the table cv_analyzes. `Date.parse` and
-- `JSON.parse` are arguments, and so are what PostgreSQL asks of the columns, and the ids of the jobs whose result key the scan finds.
pub mod Marks
pub mod Table
pub mod Rows
pub mod Run
use z1mak_cv_queue.Prelude.{
  Assoc, Bool, List, Option, String, [], drop, false, if◌then◌else◌, insert, is_empty, is_some, leb,
  length, lookup, none, not, some, str_eq, suc, take, true, truthy, zero, ℕ, ◌&&◌, ◌*◌, ◌-◌, ◌||◌,
  ◌∷◌,
}
use z1mak_cv_queue.Gemini.Schema.{keys}
use z1mak_cv_queue.Redis.{Redis, expire, fields, hset, job_meta, job_result}
use z1mak_cv_queue.Worker.Failed.{or_text, text_field}

-- JobRow; the table has one row for each id.
pub record JobRow : Type 0 where
  pub row_job_id : String
  pub row_user_id : Option String
  pub row_resume_id : Option String
  pub row_requested_model : Option String
  pub row_processed_model : Option String
  pub row_job_status : String
  pub row_data : Option String
  pub row_job_error : Option String
  pub row_error_code : Option String
  pub row_created_at : String
  pub row_job_finished_at : Option String
  pub row_expired_at : Option String

pub record SyncClock : Type 0 where
  pub sync_now_ms : ℕ
  pub sync_iso : String  -- `new Date().toISOString()`
  pub parse_date : String → Option ℕ  -- `Date.parse`, `none` for what is not a date
  pub parse_json : String → Option String  -- `safeJsonParse`, on a text that is not empty
  -- PostgreSQL, on the row that the table has of the job and the new one: the types of the columns, such
  -- as UUID, and for a new row the reference to a user.
  pub fits_table : Option JobRow → JobRow → Bool

-- SYNCED_DATA_TTL_SECONDS, and MISSING_RESULT_GRACE_MS of constants/jobKeys.ts
abbrev pub synced_ttl : ℕ
synced_ttl = 300

abbrev pub missing_result_grace_ms : ℕ
missing_result_grace_ms = 35 * 60 * 1000

-- `hash.f || null`
abbrev pub field_or_null : String → Assoc String → Option String
field_or_null k h = if truthy (text_field k h) then some (text_field k h) else none

-- What the loop does with a job: its row, or none, and whether its keys are to expire and its result
-- is marked.
pub data SyncPlan : Type 0 where
  write_missing : JobRow → SyncPlan  -- a stale job without a result
  skip_job : SyncPlan  -- nothing to write, the keys expire
  synced_before : SyncPlan
  write_result : JobRow → SyncPlan

-- `Number.isFinite(updatedAt) ? nowMs - updatedAt : Infinity`, against the grace
unfoldable pub is_stale : SyncClock → Assoc String → Bool
is_stale c meta =
    elim (c.parse_date (or_text (text_field "updated_at" meta) (text_field "created_at" meta))) [
      | none ↦ true
      | some t ↦ leb missing_result_grace_ms (c.sync_now_ms - t)
    ]

unfoldable pub missing_row : SyncClock → String → Assoc String → JobRow
missing_row c job meta = record {
  row_job_id = job;
  row_user_id = field_or_null "user_id" meta;
  row_resume_id = field_or_null "resume_id" meta;
  row_requested_model = field_or_null "requested_model" meta;
  row_processed_model = field_or_null "processed_model" meta;
  row_job_status = or_text (text_field "status" meta) "failed";
  row_data = none;
  row_job_error = some "missing_result";
  row_error_code = some "provider_error";
  row_created_at = or_text (text_field "created_at" meta) c.sync_iso;
  row_job_finished_at = field_or_null "updated_at" meta;
  row_expired_at = none;
}

unfoldable pub full_row : SyncClock → String → Assoc String → Assoc String → JobRow
full_row c job meta result = record {
  row_job_id = job;
  row_user_id = field_or_null "user_id" meta;
  row_resume_id = field_or_null "resume_id" meta;
  row_requested_model = field_or_null "requested_model" meta;
  row_processed_model = field_or_null "processed_model" meta;
  row_job_status =
      or_text (text_field "status" result) (or_text (text_field "status" meta) "unknown");
  row_data =
      if truthy (text_field "data" result) then c.parse_json (text_field "data" result) else none;
  row_job_error = field_or_null "error" result;
  row_error_code = field_or_null "error_code" result;
  row_created_at = or_text (text_field "created_at" meta) c.sync_iso;
  row_job_finished_at = field_or_null "finished_at" result;
  row_expired_at = field_or_null "expired_at" result;
}

unfoldable pub plan_job : SyncClock → String → Assoc String → Assoc String → SyncPlan
plan_job c job meta result =
    if is_empty meta || is_empty result
    then (if not (is_empty meta) && (is_empty result && is_stale c meta)
        then write_missing (missing_row c job meta)
        else skip_job)
    else if truthy (text_field "synced_at" result)
    then synced_before
    else write_result (full_row c job meta result)

-- `rows`, `keysToExpire` by job, and `syncedResultKeys` by job, of a slice.
abbrev pub rows_of : List (String × SyncPlan) → List JobRow
rows_of [] = []
rows_of ((job, write_missing r) ∷ l) = r ∷ rows_of l
rows_of ((job, write_result r) ∷ l) = r ∷ rows_of l
rows_of ((job, skip_job) ∷ l) = rows_of l
rows_of ((job, synced_before) ∷ l) = rows_of l

abbrev pub expiring : List (String × SyncPlan) → List String
expiring [] = []
expiring ((job, write_missing r) ∷ l) = job ∷ expiring l
expiring ((job, write_result r) ∷ l) = job ∷ expiring l
expiring ((job, skip_job) ∷ l) = job ∷ expiring l
expiring ((job, synced_before) ∷ l) = expiring l

abbrev pub synced_jobs : List (String × SyncPlan) → List String
synced_jobs [] = []
synced_jobs ((job, write_result r) ∷ l) = job ∷ synced_jobs l
synced_jobs ((job, write_missing r) ∷ l) = synced_jobs l
synced_jobs ((job, skip_job) ∷ l) = synced_jobs l
synced_jobs ((job, synced_before) ∷ l) = synced_jobs l

-- ON CONFLICT (id) DO UPDATE: what was asked for and by whom stays.
abbrev pub merge_row : Option JobRow → JobRow → JobRow
merge_row none r = r
merge_row (some old) r = record r {
  row_user_id = old.row_user_id;
  row_resume_id = old.row_resume_id;
  row_requested_model = old.row_requested_model;
  row_created_at = old.row_created_at;
}

unfoldable pub upsert : List JobRow → Assoc JobRow → Assoc JobRow
upsert [] t = t
upsert (r ∷ rows) t = upsert rows (insert r.row_job_id (merge_row (lookup r.row_job_id t) r) t)

abbrev pub has_row : String → List JobRow → Bool
has_row x [] = false
has_row x (r ∷ rows) = str_eq x r.row_job_id || has_row x rows

-- PostgreSQL refuses a statement that has one id twice.
abbrev pub is_refused : List JobRow → Bool
is_refused [] = false
is_refused (r ∷ rows) = has_row r.row_job_id rows || is_refused rows

-- The columns of the migration that are NOT NULL and may get a null here, and what else the table asks.
unfoldable pub is_accepted : SyncClock → Option JobRow → JobRow → Bool
is_accepted c old r = is_some r.row_user_id && (is_some r.row_requested_model && c.fits_table old r)

abbrev pub all_accepted : SyncClock → Assoc JobRow → List JobRow → Bool
all_accepted c t [] = true
all_accepted c t (r ∷ rows) = is_accepted c (lookup r.row_job_id t) r && all_accepted c t rows

-- `keys.slice(offset, offset + chunkSize)`, one after the other, with fuel for the number of slices.
unfoldable pub slices : ℕ → List String → List (List String)
slices zero keys = []
slices (suc f) keys =
    let rest = slices f (drop 100 keys) in if is_empty keys then [] else take 100 keys ∷ rest

module _ (R : Redis) where
  open R use {State, exec}

  abbrev pub plans : SyncClock → List String → State → List (String × SyncPlan)
  plans c [] s = []
  plans c (job ∷ jobs) s =
      (job, plan_job c job (fields R s (job_meta job)) (fields R s (job_result job)))
      ∷ plans c jobs s

  unfoldable pub mark_synced : String → List String → State → State
  mark_synced now [] s = s
  mark_synced now (job ∷ jobs) s =
      mark_synced now jobs (exec (job_result job, hset (("synced_at", now) ∷ [])) s)

  unfoldable pub expire_keys : List String → State → State
  expire_keys [] s = s
  expire_keys (job ∷ jobs) s =
      expire_keys jobs
        (exec (job_meta job, expire synced_ttl) (exec (job_result job, expire synced_ttl) s))

  -- One slice of the keys; `none` where the statement is refused, for one of its rows or for two of one
  -- id, which ends the whole run.
  unfoldable pub sync_slice :
      SyncClock → List String → State × Assoc JobRow → Option (State × Assoc JobRow)
  sync_slice c jobs (s, t) =
      let p = plans c jobs s in
      if is_empty (rows_of p)
      then some (expire_keys (expiring p) s, t)
      else if is_refused (rows_of p) || not (all_accepted c t (rows_of p))
      then none
      else some (
        expire_keys (expiring p) (mark_synced c.sync_iso (synced_jobs p) s),
        upsert (rows_of p) t,
      )

  -- The loop over the slices of the keys; an error leaves what was done before it.
  unfoldable pub sync_slices :
      SyncClock → List (List String) → State × Assoc JobRow → Bool × (State × Assoc JobRow)
  sync_slices c [] u = (true, u)
  sync_slices c (jobs ∷ rest) u = elim (sync_slice c jobs u) [
    | none ↦ (false, u)
    | some v ↦ sync_slices c rest v
  ]

  -- The run on the jobs that the scan found. The clock is read once.
  unfoldable pub sync_db_results :
      SyncClock → List String → State × Assoc JobRow → Bool × (State × Assoc JobRow)
  sync_db_results c jobs u =
      if is_empty jobs then (true, u) else sync_slices c (slices (length jobs) jobs) u
