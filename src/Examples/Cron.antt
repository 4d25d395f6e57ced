-- ===== src/Examples/Cron.antt =====
-- Expired jobs, locks, a reload of the models and an error of the provider.
use z1mak_cv_queue.Prelude.{
  [], arith, if◌then◌else◌, inl, insert, lookup, none, refl, some, true, ◌∷◌, ◌≡◌,
}
use z1mak_cv_queue.Prelude.Int.{pos, ◌+ℤ◌, ◌≤ℤ◌}
use z1mak_cv_queue.Admission.QueueLength.{compute_max_queue_length, day_cap, raw_length}
use z1mak_cv_queue.Admission.Selection.{
  attempt, concurrency_limit_of, limit_field, select_args, select_available_model, user_day_limit,
}
use z1mak_cv_queue.Admission.Submission.{
  enqueue_job, meta_fields, on_chain, on_selection, prepare_job_submission, select_params,
  take_slot,
}
use z1mak_cv_queue.Cron.Expire.{ExpireClock, QueuedJob, expire_job}
use z1mak_cv_queue.Cron.Expire.Restores.{expire_settles, unanswered}
use z1mak_cv_queue.Cron.Expire.Unstarted.{expired_costs_nothing}
use z1mak_cv_queue.Cron.Reload.{ModelRow, reload_model_limits, reload_serves_table, row_of}
use z1mak_cv_queue.Errors.{
  Fault, extract_gemini_code, extract_status, gemini_code, is_network_error, is_retryable_error,
  mapped_status, missing_property, new_error, normalize_gemini_error, number_property,
  text_property,
}
use z1mak_cv_queue.Errors.Normalize.{normalize-retryable}
use z1mak_cv_queue.Examples.Reading.{analyzed, analyzed_accepted}
use z1mak_cv_queue.Examples.States.{configured_models, submission}
use z1mak_cv_queue.Examples.Worker.{enqueued}
use z1mak_cv_queue.Js.{finite, number_of}
use z1mak_cv_queue.Limits.{get_cached_user_limits, persist_limits}
use z1mak_cv_queue.Memory.{memory}
use z1mak_cv_queue.Models.{
  before, drop_model, insert_meta, last, load_metas, load_pool, of_type, priority_of,
  resolve_model_chain, select_requested_and_fallback, sort_by_fallback_priority, type_of,
}
use z1mak_cv_queue.Modes.{get_mode_type, is_by_job, is_common_domain, is_deep, is_hard_mode, user}
use z1mak_cv_queue.Redis.{
  above, count, effect, fields, insert_all, job_result, lite, members, model_ids, model_limits,
  model_rpd, model_rpm, pipeline, queue_waiting_model, scores, user_active_jobs, user_type_rpd,
  when,
}
use z1mak_cv_queue.Scripts.Acquire.{
  acquire, combined_check_and_acquire, full, get_or_zero, is_limit, over,
}
use z1mak_cv_queue.Scripts.Release.{clamp_sub}
use z1mak_cv_queue.Shutdown.{Emitter, no_handlers, on_shutdown}

abbrev expire_clock : ExpireClock
expire_clock = record {
  sla_ms = 600000;
  expire_day_ttl = 1800;
  expire_iso = "2026-01-01T00:30:00.000Z";
  expire_date_pt = "2026-01-01";
}

abbrev stale : QueuedJob
stale = record {
  age_ms = 900000;
  queued_id = "j1";
  queued_user = "u1";
  queued_model = "flash-lite";
}

abbrev gone : memory.State
gone = expire_job memory lite expire_clock stale enqueued

expire_settles_example :
    (get_or_zero memory (queue_waiting_model "flash-lite") gone
      ≡ clamp_sub (get_or_zero memory (queue_waiting_model "flash-lite") enqueued) (pos 1))
    × (get_or_zero memory (user_type_rpd "u1" lite "2026-01-01") gone
        ≡ clamp_sub (get_or_zero memory (user_type_rpd "u1" lite "2026-01-01") enqueued) (pos 1))
    × (get_or_zero memory (model_rpm "flash-lite") gone ≡ (
        if unanswered memory lite expire_clock stale enqueued
        then clamp_sub (get_or_zero memory (model_rpm "flash-lite") enqueued) (pos 1)
        else get_or_zero memory (model_rpm "flash-lite") enqueued))
    × (get_or_zero memory (model_rpd "flash-lite") gone ≡ (
        if unanswered memory lite expire_clock stale enqueued
        then clamp_sub (get_or_zero memory (model_rpd "flash-lite") enqueued) (pos 1)
        else get_or_zero memory (model_rpd "flash-lite") enqueued))
    × (lookup "j1" (scores memory gone (user_active_jobs "u1")) ≡ none)
    × (lookup "status" (fields memory gone (job_result "j1")) ≡ some "failed")
    × (lookup "error" (fields memory gone (job_result "j1")) ≡ some "expired")
expire_settles_example = expire_settles memory lite expire_clock stale enqueued refl refl refl

day_limited :
    is_limit (
      user_day_limit (
        select_params submission
          (get_cached_user_limits memory "u1" user (some []) configured_models).0))
    ≡ true
unfolding number_of memory pipeline when effect insert_all above insert lookup get_or_zero count
    fields scores members ◌+ℤ◌ prepare_job_submission get_cached_user_limits persist_limits
    resolve_model_chain load_pool load_metas of_type sort_by_fallback_priority insert_meta before
    priority_of type_of select_requested_and_fallback last drop_model on_chain
    select_available_model attempt select_args user_day_limit concurrency_limit_of
    combined_check_and_acquire full acquire on_selection take_slot compute_max_queue_length
    raw_length day_cap get_mode_type is_hard_mode is_by_job is_deep is_common_domain enqueue_job
    meta_fields over limit_field
day_limited = refl

not_negative :
    (pos 0 ≤ℤ get_or_zero memory (queue_waiting_model "flash-lite") configured_models)
    × (pos 0 ≤ℤ get_or_zero memory (user_type_rpd "u1" lite "2026-01-01") configured_models)
unfolding number_of memory pipeline when effect insert_all above insert lookup get_or_zero count
    fields scores members ◌+ℤ◌
not_negative = ground arith

abbrev unused : memory.State
unused = expire_job memory lite expire_clock stale analyzed.1

expired_costs_nothing_example :
    (get_or_zero memory (queue_waiting_model "flash-lite") unused
      ≡ get_or_zero memory (queue_waiting_model "flash-lite") configured_models)
    × (get_or_zero memory (user_type_rpd "u1" lite "2026-01-01") unused
        ≡ get_or_zero memory (user_type_rpd "u1" lite "2026-01-01") configured_models)
    × (lookup "j1" (scores memory unused (user_active_jobs "u1")) ≡ none)
unfolding get_mode_type is_hard_mode is_by_job is_deep
expired_costs_nothing_example =
    expired_costs_nothing memory submission expire_clock 900000 configured_models
      {job = submission.job_id} {model = "flash-lite"} {t = analyzed.1} analyzed_accepted refl refl
      refl refl day_limited not_negative.0 not_negative.1

abbrev nothing : memory.State → memory.State
nothing s = s

abbrev pub new_model : ModelRow
new_model = record {
  row_id = "flash";
  row_api_name = "gemini-flash";
  row_rpm = pos 12;
  row_rpd = pos 500;
  row_type = lite;
  row_priority = pos 1;
  row_updated_at = "2026-01-01T00:00:00.000Z";
}

reload_serves_table_example :
    let t = reload_model_limits memory (new_model ∷ []) configured_models in
    (members memory t model_ids ≡ "flash" ∷ [])
    × (limit_field "rpm" (fields memory t (model_limits "flash")) ≡ pos 12)
    × (limit_field "rpd" (fields memory t (model_limits "flash")) ≡ pos 500)
    × (type_of (fields memory t (model_limits "flash")) ≡ lite)
    × (priority_of (fields memory t (model_limits "flash")) ≡ finite (pos 1))
    × (lookup "api_name" (fields memory t (model_limits "flash")) ≡ some "gemini-flash")
unfolding row_of
reload_serves_table_example =
    reload_serves_table memory (new_model ∷ []) configured_models "flash" {r = new_model} (refl, tt)
      refl

abbrev pub overloaded : Fault
overloaded = record (new_error "model overloaded" missing_property) {
  inner_status = text_property "UNAVAILABLE";
  inner_code = number_property 503;
}

normalize-retryable_example :
    is_retryable_error (normalize_gemini_error overloaded) ≡ is_retryable_error overloaded
unfolding is_network_error mapped_status extract_status extract_gemini_code gemini_code
normalize-retryable_example = normalize-retryable overloaded refl (inl refl) refl

-- The second handler to run throws; the third runs all the same.
abbrev emitter : Emitter
emitter =
    on_shutdown "redis.quit" 50
      (on_shutdown "worker.close" 20 (on_shutdown "fastify.close" 10 no_handlers))
