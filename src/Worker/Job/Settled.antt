-- ===== src/Worker/Job/Settled.antt =====
-- What an attempt that completes the job leaves.
use z1mak_cv_queue.Prelude.{
  Bool, Option, String, [], ap, arith, eq_refl, if◌then◌else◌, lookup, lookup-insert,
  lookup-without, none, or_else, refl, some, true, ◌∷◌, ◌≡◌,
}
use z1mak_cv_queue.Prelude.Int.{pos}
use z1mak_cv_queue.Redis.{
  Redis, fields, insert_all, job_meta, job_result, model_limits, queue_waiting_model, scores,
  user_active_jobs,
}
use z1mak_cv_queue.Redis.Laws.{redis_laws}
use z1mak_cv_queue.Scripts.Acquire.{get_or_zero}
use z1mak_cv_queue.Scripts.Release.{clamp_sub, decr_and_clamp_to_zero}
use z1mak_cv_queue.Worker.Consume.{
  ConsumeResult, charged, consume_limits_if_needed, delayed, skipped,
}
use z1mak_cv_queue.Worker.Execute.{
  Call, concat, end_stream, execute_model, execute_stream, name_result, write_chunks,
}
use z1mak_cv_queue.Worker.Finalize.{finalize_success, mark_in_progress}
use z1mak_cv_queue.Worker.Job.{
  Clock, after_execute, after_limits, completed, handle_job, set_provider_completed,
  tokens_consumed,
}
use z1mak_cv_queue.Worker.Types.{Err, JobData, ProviderResult, Result, returns, throws}

module _ (R : Redis) (job : JobData) (r : ProviderResult) (now : String) (s : R.State) where
  abbrev finished : R.State
  finished = finalize_success R job r now s

  success-result :
      fields R finished (job_result job.job_id)
      ≡ insert_all
          (("status", "completed")
            ∷ ("data", r.text)
            ∷ ("finished_at", now)
            ∷ ("used_model", r.used_model)
            ∷ [])
          (fields R s (job_result job.job_id))
  unfolding finalize_success decr_and_clamp_to_zero
  success-result = simp redis_laws

  success-meta :
      fields R finished (job_meta job.job_id)
      ≡ insert_all
          (("processed_model", r.used_model) ∷ ("status", "completed") ∷ [])
          (fields R s (job_meta job.job_id))
  unfolding finalize_success decr_and_clamp_to_zero
  success-meta = simp redis_laws

  success-lock : lookup job.job_id (scores R finished (user_active_jobs job.user_id)) ≡ none
  unfolding finalize_success decr_and_clamp_to_zero
  success-lock = simp redis_laws (
      ground (
        arith,
        lookup-without job.job_id job.job_id (scores R s (user_active_jobs job.user_id)),
        eq_refl job.job_id,
      ))

  success-waiting :
      get_or_zero R (queue_waiting_model job.model) finished
      ≡ clamp_sub (get_or_zero R (queue_waiting_model job.model) s) (pos 1)
  unfolding finalize_success decr_and_clamp_to_zero get_or_zero
  success-waiting = simp redis_laws

-- What the provider says to the call: all the chunks, or the one text.
abbrev text_of : Result String → Option String
text_of (returns answer) = some answer
text_of (throws f) = none

abbrev pub answer_text : JobData → Call → Option String
answer_text job call = if job.streaming then some (concat call.chunks) else text_of call.answer

module _ (R : Redis) (job : JobData) where
  open R use {State}

  named-text :
      (api : String) (b : Bool) (a : Result String) {p : ProviderResult}
      → name_result api b a ≡ returns p
      → text_of a ≡ some p.text
  named-text api b (returns answer) h = ground arith
  named-text api b (throws f) h = cc

  end-text :
      (call : Call) (o : Option Err) (s : State) {p : ProviderResult} {t : State}
      → end_stream R job call o s ≡ (returns p, t)
      → some (concat call.chunks) ≡ some p.text
  unfolding end_stream
  end-text call none s h = ground arith
  end-text call (some e) s h = cc

  execute-text :
      (call : Call) (s : State) {p : ProviderResult} {t : State}
      → execute_model R job call s ≡ (returns p, t)
      → answer_text job call ≡ some p.text
  unfolding execute_model execute_stream
  execute-text call s {p} {t} h =
      let api = or_else (lookup "api_name" (fields R s (model_limits job.model))) "" in
      ground (
        arith,
        named-text api call.retryable call.answer {p = p},
        end-text call call.broke (write_chunks R job.job_id true call.chunks s) {p = p} {t = t},
      )

  -- Where the attempt completes, the last step was the one that records the success.
  execute-completed :
      (clock : Clock) (r : Result ProviderResult) (s : State) {t : State}
      → after_execute R job clock (r, s) ≡ (completed, t)
      → (p : ProviderResult) × (r ≡ returns p)
        × (t
            ≡ finalize_success R job p clock.now_iso (set_provider_completed R job.job_id "true" s))
  unfolding after_execute
  execute-completed clock (returns p) s h = (p, refl, ground arith)
  execute-completed clock (throws f) s h = cc

  phase :
      (call : Call) (clock : Clock) (s : State) {t : State}
      → let u = set_provider_completed R job.job_id "false" s in
        after_execute R job clock (execute_model R job call u) ≡ (completed, t)
        → (p : ProviderResult) × (u : State) × (answer_text job call ≡ some p.text)
          × (t
              ≡ finalize_success R job p clock.now_iso
                  (set_provider_completed R job.job_id "true" u))
  phase call clock s h =
      let (r, v) = execute_model R job call (set_provider_completed R job.job_id "false" s) in
      let (p, e, q) = execute-completed clock r v h in
      (
        p,
        v,
        execute-text call (set_provider_completed R job.job_id "false" s) (ap (λ x. (x, v)) e),
        q,
      )

  limits-completed :
      (call : Call) (clock : Clock) (r : Result ConsumeResult) (s : State) {t : State}
      → after_limits R job call clock (r, s) ≡ (completed, t)
      → (p : ProviderResult) × (u : State) × (answer_text job call ≡ some p.text)
        × (t
            ≡ finalize_success R job p clock.now_iso (set_provider_completed R job.job_id "true" u))
  unfolding after_limits
  limits-completed call clock (returns (delayed ms)) s h = cc
  limits-completed call clock (throws f) s h = cc
  limits-completed call clock (returns charged) s h = phase call clock s h
  limits-completed call clock (returns skipped) s h = phase call clock s h

  provider-own :
      (v : String) (s : State)
      → lookup "provider_completed"
          (fields R (set_provider_completed R job.job_id v s) (job_meta job.job_id))
        ≡ some v
  unfolding set_provider_completed insert_all
  provider-own v s = simp (redis_laws, lookup-insert)

  abbrev result_field : String → State → Option String
  result_field f t = lookup f (fields R t (job_result job.job_id))

  abbrev meta_field : String → State → Option String
  meta_field f t = lookup f (fields R t (job_meta job.job_id))

  -- A job that an attempt completes: its result and its meta hash say so and name the same model, the
  -- result carries the text that the provider answered, all chunks of it, the meta hash says that the
  -- provider answered, and the job holds no lock of its user.
  pub completed_settles :
      (call : Call) (clock : Clock) (s : State) {t : State}
      → handle_job R job call clock s ≡ (completed, t)
      → (result_field "status" t ≡ some "completed")
        × (result_field "data" t ≡ answer_text job call)
        × (result_field "used_model" t ≡ meta_field "processed_model" t)
        × (meta_field "status" t ≡ some "completed")
        × (meta_field "provider_completed" t ≡ some "true")
        × (lookup job.job_id (scores R t (user_active_jobs job.user_id)) ≡ none)
  unfolding handle_job insert_all
  completed_settles call clock s h =
      let b = tokens_consumed R s job.job_id in
      let m = mark_in_progress R job.job_id clock.now_iso s in
      let (r, v) = consume_limits_if_needed R job b clock.day_ttl m in
      let (p, u, e, q) = limits-completed call clock r v h in
      let w = set_provider_completed R job.job_id "true" u in
      let result = success-result R job p clock.now_iso w in
      let meta = success-meta R job p clock.now_iso w in
      (
        rw (q, result) (simp lookup-insert),
        rw (q, result, e) (simp lookup-insert),
        rw (q, result, meta) (simp lookup-insert),
        rw (q, meta) (simp lookup-insert),
        rw (q, meta) (simp lookup-insert (provider-own "true" u)),
        rw q (success-lock R job p clock.now_iso w),
      )
