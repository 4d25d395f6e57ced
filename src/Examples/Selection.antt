-- ===== src/Examples/Selection.antt =====
-- The loop over a chain: the first model is full today, the second one is free.
use z1mak_cv_queue.Prelude.{List, String, [], insert, lookup, refl, ◌∷◌, ◌≡◌}
use z1mak_cv_queue.Prelude.Int.{negsuc, pos, ◌+ℤ◌}
use z1mak_cv_queue.Admission.QueueLength.{compute_max_queue_length, day_cap, raw_length}
use z1mak_cv_queue.Admission.Selection.{
  SelectParams, Selection, attempt, concurrency_limit_of, limit_field, model_limit, refused,
  select_args, select_available_model, selected, user_day_limit,
}
use z1mak_cv_queue.Admission.Selection.Charges.{selected_charges_once}
use z1mak_cv_queue.Admission.Selection.First.{IsFirst, selected-IsFirst}
use z1mak_cv_queue.Admission.Submission.{
  on_chain, on_selection, prepare_job_submission, select_params, take_slot,
}
use z1mak_cv_queue.Examples.States.{configured_models, submission}
use z1mak_cv_queue.Js.{finite, infinity, number_of, print}
use z1mak_cv_queue.Js.RoundTrip.{number-print}
use z1mak_cv_queue.Limits.{default_user_limits, get_cached_user_limits, persist_limits}
use z1mak_cv_queue.Memory.{memory}
use z1mak_cv_queue.Models.{
  ModelMeta, before, drop_model, insert_meta, last, load_metas, load_pool, of_type, priority_of,
  resolve_model_chain, select_requested_and_fallback, sort_by_fallback_priority, type_of,
}
use z1mak_cv_queue.Modes.{get_mode_type, is_by_job, is_common_domain, is_deep, is_hard_mode}
use z1mak_cv_queue.Redis.{
  Key, above, count, effect, fields, insert_all, lite, members, model_rpd, pipeline, scores, set,
  user_type_rpd, when,
}
use z1mak_cv_queue.Scripts.Acquire.{
  Within, acquire, combined_check_and_acquire, full, get_or_zero, over,
}

abbrev full_model : memory.State
unfolding number_of memory pipeline when effect insert_all above insert lookup get_or_zero count
    fields scores members ◌+ℤ◌
full_model = memory.exec (model_rpd "flash-lite", set (pos 100)) configured_models

abbrev chain : List String
chain = "gone" ∷ "flash-lite" ∷ "flash" ∷ []

abbrev params : SelectParams
unfolding number_of memory pipeline when effect insert_all above insert lookup get_or_zero count
    fields scores members ◌+ℤ◌ prepare_job_submission get_cached_user_limits persist_limits
    resolve_model_chain load_pool load_metas of_type sort_by_fallback_priority insert_meta before
    priority_of type_of select_requested_and_fallback last drop_model on_chain
    select_available_model attempt select_args user_day_limit concurrency_limit_of limit_field
    combined_check_and_acquire full over acquire on_selection take_slot compute_max_queue_length
    raw_length day_cap get_mode_type is_hard_mode is_by_job is_deep is_common_domain
params = select_params submission default_user_limits

abbrev picked : Selection × memory.State
picked = select_available_model memory params chain full_model

picked_flash : picked ≡ (selected "flash" (pos 10) (pos 100), picked.1)
unfolding number_of memory pipeline when effect insert_all above insert lookup get_or_zero count
    fields scores members ◌+ℤ◌ prepare_job_submission get_cached_user_limits persist_limits
    resolve_model_chain load_pool load_metas of_type sort_by_fallback_priority insert_meta before
    priority_of type_of select_requested_and_fallback last drop_model on_chain
    select_available_model attempt select_args user_day_limit concurrency_limit_of limit_field
    combined_check_and_acquire full over acquire on_selection take_slot compute_max_queue_length
    raw_length day_cap get_mode_type is_hard_mode is_by_job is_deep is_common_domain
picked_flash = refl

abbrev user_key : Key
user_key = user_type_rpd "u1" lite "2026-01-01"

selected_charges_once_example :
    (get_or_zero memory user_key picked.1 ≡ get_or_zero memory user_key full_model +ℤ pos 1)
    × Within (user_day_limit params) (get_or_zero memory user_key picked.1)
unfolding number_of memory pipeline when effect insert_all above insert lookup get_or_zero count
    fields scores members ◌+ℤ◌ prepare_job_submission get_cached_user_limits persist_limits
    resolve_model_chain load_pool load_metas of_type sort_by_fallback_priority insert_meta before
    priority_of type_of select_requested_and_fallback last drop_model on_chain
    select_available_model attempt select_args user_day_limit concurrency_limit_of limit_field
    combined_check_and_acquire full over acquire on_selection take_slot compute_max_queue_length
    raw_length day_cap get_mode_type is_hard_mode is_by_job is_deep is_common_domain
selected_charges_once_example =
    selected_charges_once memory params chain full_model {m = "flash"} {rpm = pos 10}
      {rpd = pos 100} {s' = picked.1} picked_flash

selected-IsFirst_example : IsFirst memory params full_model chain "flash"
selected-IsFirst_example =
    selected-IsFirst memory params chain full_model {m = "flash"} {rpm = pos 10} {rpd = pos 100}
      {s' = picked.1} picked_flash

abbrev none_left : Selection × memory.State
none_left = select_available_model memory params ("gone" ∷ "flash-lite" ∷ []) full_model

none_left_refused : none_left ≡ (refused model_limit, none_left.1)
unfolding number_of memory pipeline when effect insert_all above insert lookup get_or_zero count
    fields scores members ◌+ℤ◌ prepare_job_submission get_cached_user_limits persist_limits
    resolve_model_chain load_pool load_metas of_type sort_by_fallback_priority insert_meta before
    priority_of type_of select_requested_and_fallback last drop_model on_chain
    select_available_model attempt select_args user_day_limit concurrency_limit_of limit_field
    combined_check_and_acquire full over acquire on_selection take_slot compute_max_queue_length
    raw_length day_cap get_mode_type is_hard_mode is_by_job is_deep is_common_domain
none_left_refused = refl

abbrev pool : List ModelMeta
pool =
    record { id = "a"; type = lite; fallback_priority = infinity }
    ∷ record { id = "b"; type = lite; fallback_priority = finite (pos 1) }
    ∷ []

number-print_example : number_of (print (negsuc 41)) ≡ finite (negsuc 41)
number-print_example = number-print (negsuc 41)
