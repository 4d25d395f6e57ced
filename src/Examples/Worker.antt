-- ===== src/Examples/Worker.antt =====
-- A submitted job, its attempts and its end.
use z1mak_cv_queue.Prelude.{
  List, [], arith, false, if◌then◌else◌, insert, is_empty, lookup, none, refl, some, true, truthy,
  ◌++◌, ◌∷◌, ◌≡◌,
}
use z1mak_cv_queue.Prelude.Int.{pos, ◌+ℤ◌, ◌-ℤ◌, ◌≤ℤ◌}
use z1mak_cv_queue.Admission.QueueLength.{compute_max_queue_length, day_cap, raw_length}
use z1mak_cv_queue.Admission.Selection.{
  attempt, concurrency_limit_of, limit_field, select_args, select_available_model, user_day_limit,
}
use z1mak_cv_queue.Admission.Submission.{
  enqueue_job, meta_fields, on_chain, on_selection, prepare_job_submission, take_slot,
}
use z1mak_cv_queue.Examples.States.{prepared, submission}
use z1mak_cv_queue.Js.{number_of}
use z1mak_cv_queue.Limits.{get_cached_user_limits, persist_limits}
use z1mak_cv_queue.Memory.{memory, top}
use z1mak_cv_queue.Models.{
  before, drop_model, insert_meta, last, load_metas, load_pool, of_type, priority_of,
  resolve_model_chain, select_requested_and_fallback, sort_by_fallback_priority, type_of,
}
use z1mak_cv_queue.Modes.{get_mode_type, is_by_job, is_common_domain, is_deep, is_hard_mode}
use z1mak_cv_queue.Redis.{
  above, count, effect, fields, insert_all, job_meta, job_result, lite, members, model_rpd,
  model_rpm, pipeline, queue_waiting_model, scores, user_active_jobs, when,
}
use z1mak_cv_queue.Scripts.Acquire.{acquire, combined_check_and_acquire, full, get_or_zero, over}
use z1mak_cv_queue.Scripts.Consume.{charge, consume_execution_limits}
use z1mak_cv_queue.Scripts.Release.{clamp_sub, decr_and_clamp_to_zero}
use z1mak_cv_queue.Worker.Consume.{
  after_consume, consume_limits_if_needed, consume_model_limits, delay_ms,
}
use z1mak_cv_queue.Worker.Execute.{
  Call, append_entry, close_stream, end_stream, execute_model, execute_stream, write_chunks,
}
use z1mak_cv_queue.Worker.Execute.Stream.{chunk_entries, end_entry, sent, stream_written}
use z1mak_cv_queue.Worker.Failed.{error_code_for, in_state, is_final_attempt, on_failed}
use z1mak_cv_queue.Worker.Failed.Refund.{failed_job_pays_nothing, never_completes}
use z1mak_cv_queue.Worker.Failed.Release.{
  failed_model, failed_owner, failure_recorded, failure_releases, gives_back,
}
use z1mak_cv_queue.Worker.Finalize.{finalize_failure, finalize_success, mark_in_progress}
use z1mak_cv_queue.Worker.Job.{
  Clock, Ending, after_execute, after_limits, completed, failed, handle_job, set_provider_completed,
  tokens_consumed,
}
use z1mak_cv_queue.Worker.Job.Attempts.{Charged, attempts, attempts_charge_once}
use z1mak_cv_queue.Worker.Job.Settled.{answer_text, completed_settles}
use z1mak_cv_queue.Worker.Types.{Err, Failure, JobData, returns, thrown}

abbrev pub enqueued : memory.State
enqueued = (enqueue_job memory submission "flash-lite" "flash-lite" true true prepared.1).1

abbrev pub job : JobData
job = record { job_id = "j1"; user_id = "u1"; model = "flash-lite"; streaming = true }

abbrev pub clock : Clock
clock = record { now_iso = "2026-01-01T00:01:00.000Z"; day_ttl = 3600 }

abbrev pub overload : Err
overload = record { code = some "503"; message = "overloaded"; retryable = none }

-- A call that breaks off after one chunk, and one that does not.
abbrev pub broken : Call
broken = record { answer = returns ""; chunks = "a" ∷ []; broke = some overload; retryable = true }

abbrev pub whole : Call
whole = record { answer = returns ""; chunks = "a" ∷ "b" ∷ []; broke = none; retryable = false }

-- Two attempts break off.
abbrev first_attempts : List (Call × Clock)
first_attempts = (broken, clock) ∷ []

abbrev pub before_last : memory.State
before_last = attempts memory job first_attempts enqueued

abbrev last_try : Ending × memory.State
last_try = handle_job memory job broken clock before_last

abbrev overloaded : Failure
overloaded = thrown (record overload { retryable = some true })

last_fails : last_try ≡ (failed overloaded, last_try.1)
unfolding number_of memory pipeline when effect insert_all above insert lookup get_or_zero count
    fields scores members ◌+ℤ◌ handle_job mark_in_progress consume_limits_if_needed
    consume_model_limits consume_execution_limits charge over limit_field after_consume delay_ms
    set_provider_completed execute_model execute_stream write_chunks append_entry close_stream
    end_stream after_execute finalize_success finalize_failure after_limits decr_and_clamp_to_zero
    clamp_sub ◌-ℤ◌ attempts never_completes top prepare_job_submission get_cached_user_limits
    persist_limits resolve_model_chain load_pool load_metas of_type sort_by_fallback_priority
    insert_meta before priority_of type_of select_requested_and_fallback last drop_model on_chain
    select_available_model attempt select_args user_day_limit concurrency_limit_of
    combined_check_and_acquire full acquire on_selection take_slot compute_max_queue_length
    raw_length day_cap get_mode_type is_hard_mode is_by_job is_deep is_common_domain enqueue_job
    meta_fields
last_fails = refl

stays_open : never_completes memory job first_attempts enqueued ≡ true
unfolding number_of memory pipeline when effect insert_all above insert lookup get_or_zero count
    fields scores members ◌+ℤ◌ handle_job mark_in_progress consume_limits_if_needed
    consume_model_limits consume_execution_limits charge over limit_field after_consume delay_ms
    set_provider_completed execute_model execute_stream write_chunks append_entry close_stream
    end_stream after_execute finalize_success finalize_failure after_limits decr_and_clamp_to_zero
    clamp_sub ◌-ℤ◌ attempts never_completes top prepare_job_submission get_cached_user_limits
    persist_limits resolve_model_chain load_pool load_metas of_type sort_by_fallback_priority
    insert_meta before priority_of type_of select_requested_and_fallback last drop_model on_chain
    select_available_model attempt select_args user_day_limit concurrency_limit_of
    combined_check_and_acquire full acquire on_selection take_slot compute_max_queue_length
    raw_length day_cap get_mode_type is_hard_mode is_by_job is_deep is_common_domain enqueue_job
    meta_fields
stays_open = refl

enqueued_facts :
    (tokens_consumed memory enqueued "j1" ≡ false)
    × (failed_model memory "j1" enqueued ≡ "flash-lite")
    × (truthy (failed_owner memory "j1" enqueued) ≡ true)
    × (pos 0 ≤ℤ get_or_zero memory (model_rpm "flash-lite") enqueued)
    × (pos 0 ≤ℤ get_or_zero memory (model_rpd "flash-lite") enqueued)
unfolding number_of memory pipeline when effect insert_all above insert lookup get_or_zero count
    fields scores members ◌+ℤ◌ prepare_job_submission get_cached_user_limits persist_limits
    resolve_model_chain load_pool load_metas of_type sort_by_fallback_priority insert_meta before
    priority_of type_of select_requested_and_fallback last drop_model on_chain
    select_available_model attempt select_args user_day_limit concurrency_limit_of
    combined_check_and_acquire full acquire on_selection take_slot compute_max_queue_length
    raw_length day_cap get_mode_type is_hard_mode is_by_job is_deep is_common_domain enqueue_job
    meta_fields handle_job mark_in_progress consume_limits_if_needed consume_model_limits
    consume_execution_limits charge over limit_field after_consume delay_ms set_provider_completed
    execute_model execute_stream write_chunks append_entry close_stream end_stream after_execute
    finalize_success finalize_failure after_limits decr_and_clamp_to_zero clamp_sub ◌-ℤ◌ attempts
    never_completes top
enqueued_facts = (refl, refl, refl, ground arith, ground arith)

abbrev dropped : memory.State
dropped =
    on_failed memory lite "j1" (in_state "failed") "overloaded" "2026-01-01T00:02:00.000Z" 3600
      last_try.1

failed_job_pays_nothing_example :
    (get_or_zero memory (model_rpm "flash-lite") dropped
      ≡ get_or_zero memory (model_rpm "flash-lite") enqueued)
    × (get_or_zero memory (model_rpd "flash-lite") dropped
        ≡ get_or_zero memory (model_rpd "flash-lite") enqueued)
unfolding is_final_attempt
failed_job_pays_nothing_example =
    failed_job_pays_nothing memory job first_attempts broken clock enqueued {f = overloaded}
      {t = last_try.1} stays_open last_fails lite (in_state "failed") "overloaded"
      "2026-01-01T00:02:00.000Z" 3600 refl enqueued_facts.0 enqueued_facts.1 refl enqueued_facts.2
      enqueued_facts.3 enqueued_facts.4

attempts_charge_once_example :
    Charged memory job enqueued (attempts memory job first_attempts enqueued)
attempts_charge_once_example = attempts_charge_once memory job first_attempts enqueued

abbrev pub good_try : Ending × memory.State
good_try = handle_job memory job whole clock before_last

pub good_completes : good_try ≡ (completed, good_try.1)
unfolding number_of memory pipeline when effect insert_all above insert lookup get_or_zero count
    fields scores members ◌+ℤ◌ handle_job mark_in_progress consume_limits_if_needed
    consume_model_limits consume_execution_limits charge over limit_field after_consume delay_ms
    set_provider_completed execute_model execute_stream write_chunks append_entry close_stream
    end_stream after_execute finalize_success finalize_failure after_limits decr_and_clamp_to_zero
    clamp_sub ◌-ℤ◌ attempts never_completes top prepare_job_submission get_cached_user_limits
    persist_limits resolve_model_chain load_pool load_metas of_type sort_by_fallback_priority
    insert_meta before priority_of type_of select_requested_and_fallback last drop_model on_chain
    select_available_model attempt select_args user_day_limit concurrency_limit_of
    combined_check_and_acquire full acquire on_selection take_slot compute_max_queue_length
    raw_length day_cap get_mode_type is_hard_mode is_by_job is_deep is_common_domain enqueue_job
    meta_fields
good_completes = refl

completed_settles_example :
    (lookup "status" (fields memory good_try.1 (job_result "j1")) ≡ some "completed")
    × (lookup "data" (fields memory good_try.1 (job_result "j1")) ≡ answer_text job whole)
    × (lookup "used_model" (fields memory good_try.1 (job_result "j1"))
        ≡ lookup "processed_model" (fields memory good_try.1 (job_meta "j1")))
    × (lookup "status" (fields memory good_try.1 (job_meta "j1")) ≡ some "completed")
    × (lookup "provider_completed" (fields memory good_try.1 (job_meta "j1")) ≡ some "true")
    × (lookup "j1" (scores memory good_try.1 (user_active_jobs "u1")) ≡ none)
completed_settles_example =
    completed_settles memory job whole clock before_last {t = good_try.1} good_completes

stream_written_example :
    sent memory job (execute_stream memory job broken enqueued).1
    ≡ (sent memory job enqueued ++ chunk_entries ("a" ∷ [])) ++ end_entry true (some overload) ∷ []
stream_written_example = stream_written memory job broken enqueued

last_facts :
    (is_empty (fields memory last_try.1 (job_meta "j1")) ≡ false)
    × (truthy (failed_owner memory "j1" last_try.1) ≡ true)
    × (truthy (failed_model memory "j1" last_try.1) ≡ true)
unfolding number_of memory pipeline when effect insert_all above insert lookup get_or_zero count
    fields scores members ◌+ℤ◌ handle_job mark_in_progress consume_limits_if_needed
    consume_model_limits consume_execution_limits charge over limit_field after_consume delay_ms
    set_provider_completed execute_model execute_stream write_chunks append_entry close_stream
    end_stream after_execute finalize_success finalize_failure after_limits decr_and_clamp_to_zero
    clamp_sub ◌-ℤ◌ attempts never_completes top prepare_job_submission get_cached_user_limits
    persist_limits resolve_model_chain load_pool load_metas of_type sort_by_fallback_priority
    insert_meta before priority_of type_of select_requested_and_fallback last drop_model on_chain
    select_available_model attempt select_args user_day_limit concurrency_limit_of
    combined_check_and_acquire full acquire on_selection take_slot compute_max_queue_length
    raw_length day_cap get_mode_type is_hard_mode is_by_job is_deep is_common_domain enqueue_job
    meta_fields
last_facts = (refl, refl, refl)

failure_recorded_example :
    (lookup "status" (fields memory dropped (job_result "j1")) ≡ some "failed")
    × (lookup "error" (fields memory dropped (job_result "j1")) ≡ some "overloaded")
    × (lookup "error_code" (fields memory dropped (job_result "j1"))
        ≡ some (error_code_for lite "overloaded"))
    × (lookup "status" (fields memory dropped (job_meta "j1")) ≡ some "failed")
    × (lookup "j1" (scores memory dropped (user_active_jobs (failed_owner memory "j1" last_try.1)))
        ≡ none)
unfolding is_final_attempt
failure_recorded_example =
    failure_recorded memory lite "j1" "overloaded" "2026-01-01T00:02:00.000Z" 3600 last_try.1
      (in_state "failed") refl last_facts.0 last_facts.1

failure_releases_example :
    let model = failed_model memory "j1" last_try.1 in
    let paid = gives_back memory "j1" last_try.1 in
    (get_or_zero memory (queue_waiting_model model) dropped
      ≡ clamp_sub (get_or_zero memory (queue_waiting_model model) last_try.1) (pos 1))
    × (get_or_zero memory (model_rpm model) dropped ≡ (
        if paid
        then clamp_sub (get_or_zero memory (model_rpm model) last_try.1) (pos 1)
        else get_or_zero memory (model_rpm model) last_try.1))
    × (get_or_zero memory (model_rpd model) dropped ≡ (
        if paid
        then clamp_sub (get_or_zero memory (model_rpd model) last_try.1) (pos 1)
        else get_or_zero memory (model_rpd model) last_try.1))
unfolding is_final_attempt
failure_releases_example =
    failure_releases memory lite "j1" "overloaded" "2026-01-01T00:02:00.000Z" 3600 last_try.1
      (in_state "failed") refl last_facts.0 last_facts.2
