-- ===== src/Worker/Job/Attempts.antt =====
-- However often a job is attempted, the model is charged for it once.
use z1mak_cv_queue.Prelude.{
  Assoc, Bool, List, Option, String, [], arith, false, inl, lookup-insert, none, refl, some, sym,
  true, ℕ, ◌∙◌, ◌∷◌, ◌≡◌, ◌⊎◌,
}
use z1mak_cv_queue.Prelude.Int.{negsuc, pos, ℤ, ◌+ℤ◌}
use z1mak_cv_queue.Admission.Selection.{limit_field}
use z1mak_cv_queue.Redis.{
  Key, Redis, StreamEntry, expire, fields, hset, insert_all, job_meta, job_stream, model_limits,
  model_rpd, model_rpm, text, when,
}
use z1mak_cv_queue.Redis.Laws.{redis_laws}
use z1mak_cv_queue.Scripts.Acquire.{get_or_zero}
use z1mak_cv_queue.Scripts.Consume.{ConsumeArgs, consume_execution_limits}
use z1mak_cv_queue.Scripts.Consume.Laws.{fields-charge, rpd-charge, rpm-charge}
use z1mak_cv_queue.Scripts.Release.{decr_and_clamp_to_zero}
use z1mak_cv_queue.Worker.Consume.{
  ConsumeResult, after_consume, charged, consume_limits_if_needed, consume_model_limits, delayed,
  minute_ttl, skipped,
}
use z1mak_cv_queue.Worker.Execute.{
  Call, append_entry, chunk_entry, close_stream, code_or_unknown, done_entry, end_stream,
  error_entry, execute_model, execute_stream, stream_ttl_safety, write_chunks,
}
use z1mak_cv_queue.Worker.Finalize.{finalize_success, mark_in_progress}
use z1mak_cv_queue.Worker.Job.{
  Clock, after_execute, after_limits, handle_job, set_provider_completed, tokens_consumed,
}
use z1mak_cv_queue.Worker.Types.{Err, JobData, ProviderResult, Result, returns, throws}

module _ (R : Redis) (job : JobData) where
  open R use {State, exec}

  abbrev rpm : State → ℤ
  rpm s = get_or_zero R (model_rpm job.model) s

  abbrev rpd : State → ℤ
  rpd s = get_or_zero R (model_rpd job.model) s

  abbrev flag : State → Bool
  flag s = tokens_consumed R s job.job_id

  -- What a state owes to the model: nothing new, or one request that the meta hash records.
  abbrev pub Charged : State → State → Type 0
  Charged s t =
      ((flag t ≡ flag s) × (rpm t ≡ rpm s) × (rpd t ≡ rpd s))
      ⊎ ((flag s ≡ false) × (flag t ≡ true) × (rpm t ≡ rpm s +ℤ pos 1) × (rpd t ≡ rpd s +ℤ pos 1))

  abbrev Same : State → State → Type 0
  Same s t = (flag t ≡ flag s) × (rpm t ≡ rpm s) × (rpd t ≡ rpd s)

  mark-Same : (now : String) (s : State) → Same s (mark_in_progress R job.job_id now s)
  unfolding mark_in_progress get_or_zero insert_all
  mark-Same now s = (simp (redis_laws, lookup-insert), simp redis_laws, simp redis_laws)

  provider-Same : (v : String) (s : State) → Same s (set_provider_completed R job.job_id v s)
  unfolding set_provider_completed get_or_zero insert_all
  provider-Same v s = (simp (redis_laws, lookup-insert), simp redis_laws, simp redis_laws)

  success-Same :
      (r : ProviderResult) (now : String) (s : State) → Same s (finalize_success R job r now s)
  unfolding finalize_success get_or_zero insert_all decr_and_clamp_to_zero
  success-Same r now s = (simp (redis_laws, lookup-insert), simp redis_laws, simp redis_laws)

  write-Same :
      (first : Bool) (chunks : List String) (s : State)
      → Same s (write_chunks R job.job_id first chunks s)
  unfolding write_chunks get_or_zero
  write-Same first [] s = (refl, refl, refl)
  write-Same first (text ∷ chunks) s =
      let t =
        when R first (job_stream job.job_id, expire stream_ttl_safety)
          (append_entry R job.job_id (chunk_entry text) s) in
      let (a, b, c) = write-Same false chunks t in
      (
        a ∙ simp redis_laws (ground arith),
        b ∙ simp redis_laws (ground arith),
        c ∙ simp redis_laws (ground arith),
      )

  close-Same : (e : StreamEntry) (s : State) → Same s (close_stream R job.job_id e s)
  unfolding close_stream get_or_zero
  close-Same e s = (simp redis_laws, simp redis_laws, simp redis_laws)

  end-Same : (call : Call) (o : Option Err) (s : State) → Same s (end_stream R job call o s).1
  unfolding end_stream
  end-Same call none s = close-Same done_entry s
  end-Same call (some e) s =
      close-Same (error_entry (code_or_unknown e.code) e.message call.retryable) s

  execute-Same : (call : Call) (s : State) → Same s (execute_model R job call s).1
  unfolding execute_model execute_stream
  execute-Same call s =
      let s' = write_chunks R job.job_id true call.chunks s in
      ground (arith, write-Same true call.chunks s, end-Same call call.broke s')

  -- The three answers of the script, as the worker sees them.
  pub consume_cases :
      (lm ld : ℤ) (day_ttl : ℕ) (s : State)
      → let r = consume_model_limits R job.model lm ld day_ttl s in
        ((r.0 ≡ pos 1)
          × (rpm r.1 ≡ rpm s +ℤ pos 1)
          × (rpd r.1 ≡ rpd s +ℤ pos 1)
          × (fields R r.1 (job_meta job.job_id) ≡ fields R s (job_meta job.job_id)))
        ⊎ ((r.0 ≡ negsuc 0) × (r.1 ≡ s))
        ⊎ ((r.0 ≡ negsuc 1) × (r.1 ≡ s))
  unfolding consume_model_limits consume_execution_limits get_or_zero
  consume_cases lm ld day_ttl s =
      let a : ConsumeArgs = record {
        minute_limit = lm;
        day_limit = ld;
        minute_ttl = minute_ttl;
        day_ttl = day_ttl;
        amount = pos 1;
      } in
      ground (
        arith,
        rpm-charge R job.model a s,
        rpd-charge R job.model a s,
        fields-charge R job.model a s (job_meta job.job_id),
      )

  hset-counts :
      (k : Key) (l : Assoc String) (s : State)
      → (rpm (exec (k, hset l) s) ≡ rpm s) × (rpd (exec (k, hset l) s) ≡ rpd s)
  unfolding get_or_zero
  hset-counts k l s = (simp redis_laws (ground arith), simp redis_laws (ground arith))

  flag-set :
      (s : State)
      → flag (exec (job_meta job.job_id, hset (("tokens_consumed", "true") ∷ [])) s) ≡ true
  unfolding insert_all
  flag-set s = simp (redis_laws, lookup-insert)

  flag-queued :
      (s : State) → flag (exec (job_meta job.job_id, hset (("status", "queued") ∷ [])) s) ≡ flag s
  unfolding insert_all
  flag-queued s = simp (redis_laws, lookup-insert)

  after_consume-Charged :
      (code : ℤ) (s t : State)
      → flag s ≡ false
      → ((code ≡ pos 1)
          × (rpm t ≡ rpm s +ℤ pos 1)
          × (rpd t ≡ rpd s +ℤ pos 1)
          × (fields R t (job_meta job.job_id) ≡ fields R s (job_meta job.job_id)))
        ⊎ ((code ≡ negsuc 0) × (t ≡ s))
        ⊎ ((code ≡ negsuc 1) × (t ≡ s))
      → Charged s (after_consume R job code t).1
  unfolding after_consume
  after_consume-Charged code s t fresh h = ground (
    arith,
    hset-counts (job_meta job.job_id) (("tokens_consumed", "true") ∷ []) t,
    hset-counts (job_meta job.job_id) (("status", "queued") ∷ []) t,
    flag-set t,
    flag-queued t,
  )

  consume-Charged :
      (b : Bool) (day_ttl : ℕ) (s : State)
      → b ≡ flag s
      → Charged s (consume_limits_if_needed R job b day_ttl s).1
  unfolding consume_limits_if_needed
  consume-Charged true day_ttl s e = inl (refl, refl, refl)
  consume-Charged false day_ttl s e =
      let hash = fields R s (model_limits job.model) in
      let lm = limit_field "rpm" hash in
      let ld = limit_field "rpd" hash in
      let r = consume_model_limits R job.model lm ld day_ttl s in
      after_consume-Charged r.0 s r.1 (sym e) (consume_cases lm ld day_ttl s)

  after_execute-Same :
      (clock : Clock) (r : Result ProviderResult) (s : State)
      → Same s (after_execute R job clock (r, s)).1
  unfolding after_execute
  after_execute-Same clock (returns r) s = ground (
    arith,
    provider-Same "true" s,
    success-Same r clock.now_iso (set_provider_completed R job.job_id "true" s),
  )
  after_execute-Same clock (throws f) s = (refl, refl, refl)

  phase-Same :
      (call : Call) (clock : Clock) (s : State)
      → let t = set_provider_completed R job.job_id "false" s in
        Same s (after_execute R job clock (execute_model R job call t)).1
  phase-Same call clock s =
      let t = set_provider_completed R job.job_id "false" s in
      let (r, u) = execute_model R job call t in
      ground (arith, provider-Same "false" s, execute-Same call t, after_execute-Same clock r u)

  after_limits-Same :
      (call : Call) (clock : Clock) (r : Result ConsumeResult) (s : State)
      → Same s (after_limits R job call clock (r, s)).1
  unfolding after_limits
  after_limits-Same call clock (returns (delayed ms)) s = (refl, refl, refl)
  after_limits-Same call clock (throws f) s = (refl, refl, refl)
  after_limits-Same call clock (returns charged) s = phase-Same call clock s
  after_limits-Same call clock (returns skipped) s = phase-Same call clock s

  -- One attempt charges the model at most once, and only if no earlier attempt has.
  pub handle-Charged :
      (call : Call) (clock : Clock) (s : State) → Charged s (handle_job R job call clock s).1
  unfolding handle_job
  handle-Charged call clock s =
      let t = mark_in_progress R job.job_id clock.now_iso s in
      let (r, u) = consume_limits_if_needed R job (flag s) clock.day_ttl t in
      let same = mark-Same clock.now_iso s in
      ground (
        arith,
        same,
        consume-Charged (flag s) clock.day_ttl t (sym same.0),
        after_limits-Same call clock r u,
      )

  -- The attempts at one job, each with what the provider answers it and its clock.
  unfoldable pub attempts : List (Call × Clock) → State → State
  attempts [] s = s
  attempts ((call, clock) ∷ l) s = attempts l (handle_job R job call clock s).1

  -- However many attempts BullMQ makes at a job, they charge its model nothing, or one request of
  -- the minute and one of the day, and this only if no earlier attempt has charged it.
  pub attempts_charge_once : (l : List (Call × Clock)) (s : State) → Charged s (attempts l s)
  unfolding attempts
  attempts_charge_once [] s = inl (refl, refl, refl)
  attempts_charge_once ((call, clock) ∷ l) s =
      let t = (handle_job R job call clock s).1 in
      ground (arith, handle-Charged call clock s, attempts_charge_once l t)
