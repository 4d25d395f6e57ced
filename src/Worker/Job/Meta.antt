-- ===== src/Worker/Job/Meta.antt =====
-- What an attempt at a job leaves in the meta hash of the job.
use z1mak_cv_queue.Prelude.{
  Assoc, Bool, List, Option, String, [], arith, false, lookup, lookup-insert, none, refl, some,
  str_eq, true, ℕ, ◌∙◌, ◌∷◌, ◌≡◌, ◌⊎◌,
}
use z1mak_cv_queue.Prelude.Int.{ℤ}
use z1mak_cv_queue.Admission.Selection.{limit_field}
use z1mak_cv_queue.Redis.{
  Redis, StreamEntry, expire, fields, hset, insert_all, job_meta, job_stream, model_limits, text,
  when,
}
use z1mak_cv_queue.Redis.Laws.{redis_laws}
use z1mak_cv_queue.Worker.Consume.{
  ConsumeResult, after_consume, charged, consume_limits_if_needed, consume_model_limits, delayed,
  skipped,
}
use z1mak_cv_queue.Worker.Execute.{
  Call, append_entry, chunk_entry, close_stream, code_or_unknown, done_entry, end_stream,
  error_entry, execute_model, execute_stream, stream_ttl_safety, write_chunks,
}
use z1mak_cv_queue.Worker.Finalize.{mark_in_progress}
use z1mak_cv_queue.Worker.Job.{
  Clock, Ending, after_execute, after_limits, completed, failed, handle_job, put_off,
  set_provider_completed, tokens_consumed,
}
use z1mak_cv_queue.Worker.Job.Attempts.{consume_cases}
use z1mak_cv_queue.Worker.Types.{Err, JobData, Result, returns, throws}

module _ (R : Redis) (job : JobData) where
  open R use {State, exec}

  abbrev pub meta_of : State → Assoc String
  meta_of s = fields R s (job_meta job.job_id)

  -- What the attempts do not touch: who owns the job, and which model it runs on.
  abbrev pub Kept : Assoc String → Assoc String → Type 0
  Kept m n =
      (lookup "user_id" n ≡ lookup "user_id" m)
      × (lookup "processed_model" n ≡ lookup "processed_model" m)
      × (lookup "requested_model" n ≡ lookup "requested_model" m)

  mark-Kept :
      (now : String) (s : State) → Kept (meta_of s) (meta_of (mark_in_progress R job.job_id now s))
  unfolding mark_in_progress insert_all
  mark-Kept now s = (
    simp (redis_laws, lookup-insert),
    simp (redis_laws, lookup-insert),
    simp (redis_laws, lookup-insert),
  )

  meta-write :
      (first : Bool) (chunks : List String) (s : State)
      → meta_of (write_chunks R job.job_id first chunks s) ≡ meta_of s
  unfolding write_chunks
  meta-write first [] s = refl
  meta-write first (text ∷ chunks) s =
      meta-write false chunks (
        when R first (job_stream job.job_id, expire stream_ttl_safety)
          (append_entry R job.job_id (chunk_entry text) s))
      ∙ simp redis_laws (ground arith)

  meta-close : (e : StreamEntry) (s : State) → meta_of (close_stream R job.job_id e s) ≡ meta_of s
  unfolding close_stream
  meta-close e s = simp redis_laws

  meta-end :
      (call : Call) (o : Option Err) (s : State) → meta_of (end_stream R job call o s).1 ≡ meta_of s
  unfolding end_stream
  meta-end call none s = meta-close done_entry s
  meta-end call (some e) s =
      meta-close (error_entry (code_or_unknown e.code) e.message call.retryable) s

  meta-execute : (call : Call) (s : State) → meta_of (execute_model R job call s).1 ≡ meta_of s
  unfolding execute_model execute_stream
  meta-execute call s = ground (
    arith,
    meta-write true call.chunks s,
    meta-end call call.broke (write_chunks R job.job_id true call.chunks s),
  )

  -- What the limits step does to the meta hash, by its answer.
  After : Result ConsumeResult → Bool → Assoc String → Assoc String → Type 0
  After (throws f) b m n = (n ≡ m) × (b ≡ false)
  After (returns r) b m n = Kept m n

  set-Kept :
      (f v : String) (s : State)
      → str_eq f "user_id" ≡ false
      → str_eq f "processed_model" ≡ false
      → str_eq f "requested_model" ≡ false
      → Kept (meta_of s) (meta_of (exec (job_meta job.job_id, hset ((f, v) ∷ [])) s))
  unfolding insert_all
  set-Kept f v s a b c = (
    simp (redis_laws, lookup-insert, a),
    simp (redis_laws, lookup-insert, b),
    simp (redis_laws, lookup-insert, c),
  )

  set-own :
      (f v : String) (s : State)
      → lookup f (meta_of (exec (job_meta job.job_id, hset ((f, v) ∷ [])) s)) ≡ some v
  unfolding insert_all
  set-own f v s = simp (redis_laws, lookup-insert)

  after_consume-After :
      (code : ℤ) (s t : State)
      → meta_of t ≡ meta_of s
      → let (r, u) = after_consume R job code t in After r false (meta_of s) (meta_of u)
  unfolding after_consume After
  after_consume-After code s t h = ground (
    arith,
    set-Kept "status" "queued" t refl refl refl,
    set-Kept "tokens_consumed" "true" t refl refl refl,
  )

  meta-consume :
      (lm ld : ℤ) (day_ttl : ℕ) (s : State)
      → meta_of (consume_model_limits R job.model lm ld day_ttl s).1 ≡ meta_of s
  meta-consume lm ld day_ttl s = ground (arith, consume_cases R job lm ld day_ttl s)

  consume-After :
      (b : Bool) (day_ttl : ℕ) (s : State)
      → let (r, t) = consume_limits_if_needed R job b day_ttl s in After r b (meta_of s) (meta_of t)
  unfolding consume_limits_if_needed After
  consume-After true day_ttl s = (refl, refl, refl)
  consume-After false day_ttl s =
      let hash = fields R s (model_limits job.model) in
      let lm = limit_field "rpm" hash in
      let ld = limit_field "rpd" hash in
      let r = consume_model_limits R job.model lm ld day_ttl s in
      after_consume-After r.0 s r.1 (meta-consume lm ld day_ttl s)

  -- What an attempt that does not complete the job leaves in the meta hash.
  unfoldable pub Left : Ending → Bool → Assoc String → Assoc String → Type 0
  Left put_off b m n = Kept m n
  Left completed b m n = m ≡ m
  Left (failed f) b m n =
      Kept m n
      × ((lookup "provider_completed" n ≡ some "false")
          ⊎ ((b ≡ false) × (lookup "tokens_consumed" n ≡ lookup "tokens_consumed" m)))

  phase-Left :
      (call : Call) (clock : Clock) (b : Bool) (s : State)
      → let u = set_provider_completed R job.job_id "false" s in
        let (e, t) = after_execute R job clock (execute_model R job call u) in
        Left e b (meta_of s) (meta_of t)
  unfolding after_execute Left set_provider_completed
  phase-Left call clock b s =
      let u = set_provider_completed R job.job_id "false" s in
      ground (
        arith,
        meta-execute call u,
        set-Kept "provider_completed" "false" s refl refl refl,
        set-own "provider_completed" "false" s,
      )

  after_limits-Left :
      (call : Call) (clock : Clock) (r : Result ConsumeResult) (b : Bool) (m : Assoc String)
      (s : State)
      → After r b m (meta_of s)
      → let (e, t) = after_limits R job call clock (r, s) in Left e b m (meta_of t)
  unfolding after_limits After Left
  after_limits-Left call clock (returns (delayed ms)) b m s h = h
  after_limits-Left call clock (throws f) b m s h = ground arith
  after_limits-Left call clock (returns charged) b m s h =
      ground (arith, phase-Left call clock true s)
  after_limits-Left call clock (returns skipped) b m s h =
      ground (arith, phase-Left call clock true s)

  mark-tokens :
      (now : String) (s : State)
      → lookup "tokens_consumed" (meta_of (mark_in_progress R job.job_id now s))
        ≡ lookup "tokens_consumed" (meta_of s)
  unfolding mark_in_progress insert_all
  mark-tokens now s = simp (redis_laws, lookup-insert)

  Left-trans :
      (e : Ending) (b : Bool) (l m n : Assoc String)
      → Kept l m
      → lookup "tokens_consumed" m ≡ lookup "tokens_consumed" l
      → Left e b m n
      → Left e b l n
  unfolding Left
  Left-trans put_off b l m n k h x = ground arith
  Left-trans completed b l m n k h x = refl
  Left-trans (failed f) b l m n k h x = ground arith

  pub handle-Left :
      (call : Call) (clock : Clock) (s : State)
      → let (e, t) = handle_job R job call clock s in
        Left e (tokens_consumed R s job.job_id) (meta_of s) (meta_of t)
  unfolding handle_job
  handle-Left call clock s =
      let b = tokens_consumed R s job.job_id in
      let t = mark_in_progress R job.job_id clock.now_iso s in
      let (r, u) = consume_limits_if_needed R job b clock.day_ttl t in
      let v = after_limits R job call clock (r, u) in
      Left-trans v.0 b (meta_of s) (meta_of t) (meta_of v.1) (mark-Kept clock.now_iso s)
        (mark-tokens clock.now_iso s)
        (after_limits-Left call clock r b (meta_of t) u (consume-After b clock.day_ttl t))
