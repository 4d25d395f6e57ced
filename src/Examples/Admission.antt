-- ===== src/Examples/Admission.antt =====
-- Submissions.
use z1mak_cv_queue.Prelude.{
  [], arith, insert, lookup, refl, some, true, ◌*◌, ◌-◌, ◌<◌, ◌∷◌, ◌≡◌, ◌≤◌, ◌⊎◌,
}
use z1mak_cv_queue.Prelude.Int.{pos, ◌+ℤ◌, ◌≤ℤ◌}
use z1mak_cv_queue.Admission.QueueLength.{compute_max_queue_length, day_cap, raw_length}
use z1mak_cv_queue.Admission.QueueLength.Bounds.{compute_max_queue_length-bounds, work_seconds}
use z1mak_cv_queue.Admission.Selection.{
  attempt, concurrency_limit, concurrency_limit_of, limit_field, select_args,
  select_available_model, user_day_limit,
}
use z1mak_cv_queue.Admission.Submission.{
  Prep, limit, on_chain, on_selection, prepare_job_submission, queue_full, ready, rejected,
  select_params, take_slot,
}
use z1mak_cv_queue.Admission.Submission.Outcomes.{
  max_queue, queue_full_keeps_charge, ready_takes_slot, rejected_by_limit,
}
use z1mak_cv_queue.Examples.States.{configured_models, prepared, submission}
use z1mak_cv_queue.Js.{number_of}
use z1mak_cv_queue.Limits.{get_cached_user_limits, persist_limits}
use z1mak_cv_queue.Memory.{memory}
use z1mak_cv_queue.Models.{
  before, drop_model, insert_meta, last, load_metas, load_pool, of_type, priority_of,
  resolve_model_chain, select_requested_and_fallback, sort_by_fallback_priority, type_of,
}
use z1mak_cv_queue.Modes.{get_mode_type, is_by_job, is_common_domain, is_deep, is_hard_mode, user}
use z1mak_cv_queue.Redis.{
  above, count, effect, fields, insert_all, lite, members, pipeline, queue_waiting_model, scores,
  set, user_active_jobs, user_type_rpd, when, zadd,
}
use z1mak_cv_queue.Scripts.Acquire.{
  acquire, combined_check_and_acquire, full, get_or_zero, is_limit, over,
}

prepared_ready : prepared ≡ (ready "flash-lite" "flash-lite", prepared.1)
unfolding number_of memory pipeline when effect insert_all above insert lookup get_or_zero count
    fields scores members ◌+ℤ◌ prepare_job_submission get_cached_user_limits persist_limits
    resolve_model_chain load_pool load_metas of_type sort_by_fallback_priority insert_meta before
    priority_of type_of select_requested_and_fallback last drop_model on_chain
    select_available_model attempt select_args user_day_limit concurrency_limit_of limit_field
    combined_check_and_acquire full over acquire on_selection take_slot compute_max_queue_length
    raw_length day_cap get_mode_type is_hard_mode is_by_job is_deep is_common_domain
prepared_ready = refl

ready_takes_slot_example :
    (get_or_zero memory (queue_waiting_model "flash-lite") prepared.1
      ≡ get_or_zero memory (queue_waiting_model "flash-lite") configured_models +ℤ pos 1)
    × (get_or_zero memory (queue_waiting_model "flash-lite") prepared.1
        ≤ℤ pos (max_queue memory submission configured_models "flash-lite"))
ready_takes_slot_example =
    ready_takes_slot memory submission configured_models {r = "flash-lite"} {m = "flash-lite"}
      {s' = prepared.1} prepared_ready

-- The user's third job while two are under way.
abbrev busy_user : memory.State
unfolding number_of memory pipeline when effect insert_all above insert lookup get_or_zero count
    fields scores members ◌+ℤ◌
busy_user =
    pipeline memory
      ((user_active_jobs "u1", zadd 5000 "j2") ∷ (user_active_jobs "u1", zadd 6000 "j3") ∷ [])
      configured_models

abbrev third : Prep × memory.State
third = prepare_job_submission memory submission busy_user

third_rejected : third ≡ (rejected (limit concurrency_limit), third.1)
unfolding number_of memory pipeline when effect insert_all above insert lookup get_or_zero count
    fields scores members ◌+ℤ◌ prepare_job_submission get_cached_user_limits persist_limits
    resolve_model_chain load_pool load_metas of_type sort_by_fallback_priority insert_meta before
    priority_of type_of select_requested_and_fallback last drop_model on_chain
    select_available_model attempt select_args user_day_limit concurrency_limit_of limit_field
    combined_check_and_acquire full over acquire on_selection take_slot compute_max_queue_length
    raw_length day_cap get_mode_type is_hard_mode is_by_job is_deep is_common_domain
third_rejected = refl

rejected_by_limit_example :
    get_or_zero memory (user_type_rpd "u1" lite "2026-01-01") third.1
    ≡ get_or_zero memory (user_type_rpd "u1" lite "2026-01-01") busy_user
rejected_by_limit_example =
    rejected_by_limit memory submission busy_user (user_type_rpd "u1" lite "2026-01-01")
      {e = concurrency_limit} {s' = third.1} third_rejected

-- A queue that is as long as it may get: the lite model "flash-lite" without a minute limit of its own
-- takes one job.
abbrev full_queue : memory.State
unfolding number_of memory pipeline when effect insert_all above insert lookup get_or_zero count
    fields scores members ◌+ℤ◌
full_queue = memory.exec (queue_waiting_model "flash-lite", set (pos 1)) configured_models

abbrev late : Prep × memory.State
late = prepare_job_submission memory submission full_queue

late_full : late ≡ (rejected queue_full, late.1)
unfolding number_of memory pipeline when effect insert_all above insert lookup get_or_zero count
    fields scores members ◌+ℤ◌ prepare_job_submission get_cached_user_limits persist_limits
    resolve_model_chain load_pool load_metas of_type sort_by_fallback_priority insert_meta before
    priority_of type_of select_requested_and_fallback last drop_model on_chain
    select_available_model attempt select_args user_day_limit concurrency_limit_of limit_field
    combined_check_and_acquire full over acquire on_selection take_slot compute_max_queue_length
    raw_length day_cap get_mode_type is_hard_mode is_by_job is_deep is_common_domain
late_full = refl

late_limited :
    is_limit (
      user_day_limit
        (select_params submission (get_cached_user_limits memory "u1" user (some []) full_queue).0))
    ≡ true
unfolding number_of memory pipeline when effect insert_all above insert lookup get_or_zero count
    fields scores members ◌+ℤ◌ prepare_job_submission get_cached_user_limits persist_limits
    resolve_model_chain load_pool load_metas of_type sort_by_fallback_priority insert_meta before
    priority_of type_of select_requested_and_fallback last drop_model on_chain
    select_available_model attempt select_args user_day_limit concurrency_limit_of limit_field
    combined_check_and_acquire full over acquire on_selection take_slot compute_max_queue_length
    raw_length day_cap get_mode_type is_hard_mode is_by_job is_deep is_common_domain
late_limited = refl

queue_full_keeps_charge_example :
    get_or_zero memory (user_type_rpd "u1" lite "2026-01-01") late.1
    ≡ get_or_zero memory (user_type_rpd "u1" lite "2026-01-01") full_queue +ℤ pos 1
unfolding number_of memory pipeline when effect insert_all above insert lookup get_or_zero count
    fields scores members ◌+ℤ◌ prepare_job_submission get_cached_user_limits persist_limits
    resolve_model_chain load_pool load_metas of_type sort_by_fallback_priority insert_meta before
    priority_of type_of select_requested_and_fallback last drop_model on_chain
    select_available_model attempt select_args user_day_limit concurrency_limit_of limit_field
    combined_check_and_acquire full over acquire on_selection take_slot compute_max_queue_length
    raw_length day_cap get_mode_type is_hard_mode is_by_job is_deep is_common_domain
queue_full_keeps_charge_example =
    queue_full_keeps_charge memory submission full_queue {s' = late.1} late_full late_limited

bounds_example :
    let n = compute_max_queue_length (pos 10) (pos 100) 15 in
    (1 ≤ n)
    × ((pos 100 ≤ℤ pos 0) ⊎ (pos n ≤ℤ pos 100))
    × ((n ≡ 1) ⊎ ((n - 1) * 15 < work_seconds (pos 10) 15))
    × ((work_seconds (pos 10) 15 ≤ n * 15) ⊎ (pos n ≡ pos 100))
bounds_example = compute_max_queue_length-bounds (pos 10) (pos 100) 15 (omega arith)
