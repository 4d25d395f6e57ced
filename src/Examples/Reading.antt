-- ===== src/Examples/Reading.antt =====
-- Clients that read the stream and the result of a job.
use z1mak_cv_queue.Prelude.{
  List, [], append_text, arith, false, inl, inr, insert, lookup, none, refl, some, true, ℕ, ◌∷◌,
  ◌≡◌,
}
use z1mak_cv_queue.Prelude.Int.{◌+ℤ◌}
use z1mak_cv_queue.Admission.QueueLength.{compute_max_queue_length, day_cap, raw_length}
use z1mak_cv_queue.Admission.Selection.{
  attempt, concurrency_limit_of, limit_field, select_args, select_available_model, user_day_limit,
}
use z1mak_cv_queue.Admission.Submission.{
  enqueue_job, meta_fields, on_chain, on_selection, prepare_job_submission, take_slot,
}
use z1mak_cv_queue.Examples.States.{configured_models, submission}
use z1mak_cv_queue.Examples.Worker.{enqueued, job, whole}
use z1mak_cv_queue.Js.{number_of}
use z1mak_cv_queue.Limits.{get_cached_user_limits, persist_limits}
use z1mak_cv_queue.Memory.{memory}
use z1mak_cv_queue.Models.{
  before, drop_model, insert_meta, last, load_metas, load_pool, of_type, priority_of,
  resolve_model_chain, select_requested_and_fallback, sort_by_fallback_priority, type_of,
}
use z1mak_cv_queue.Modes.{get_mode_type, is_by_job, is_common_domain, is_deep, is_hard_mode}
use z1mak_cv_queue.Redis.{
  Entries, above, count, effect, entries, fields, insert_all, job_meta, job_result, job_stream,
  members, model_rpd, model_rpm, pipeline, scores, when,
}
use z1mak_cv_queue.Routes.{Analyzed, accepted, analyze, get_result, get_status, on_prepared}
use z1mak_cv_queue.Routes.Accepted.{accepted_job_is_fresh}
use z1mak_cv_queue.Routes.Status.{HasStatus, status_of, statuses_agree}
use z1mak_cv_queue.Scripts.Acquire.{acquire, combined_check_and_acquire, full, get_or_zero, over}
use z1mak_cv_queue.Streaming.{stream_history}
use z1mak_cv_queue.Streaming.Live.{live}
use z1mak_cv_queue.Streaming.Live.Delivery.{all_entries, live_delivers, rounds_of}
use z1mak_cv_queue.Streaming.Resume.{Increasing, frames_text, resumed_text, text_of, upto}
use z1mak_cv_queue.Streaming.Snapshot.{closing_frames, reader_sees_result}
use z1mak_cv_queue.Worker.Execute.{chunk_entry, execute_stream}
use z1mak_cv_queue.Worker.Failed.Release.{failed_model, failed_owner}
use z1mak_cv_queue.Worker.Job.{tokens_consumed}

-- The stream of a job is empty before its first attempt.
fresh_stream : entries memory configured_models (job_stream "j1") ≡ []
unfolding number_of memory pipeline when effect insert_all above insert lookup get_or_zero count
    fields scores members ◌+ℤ◌ entries
fresh_stream = refl

reader_sees_result_example :
    let t = (execute_stream memory job whole configured_models).1 in
    (id : ℕ) × (stream_history none (entries memory t (job_stream "j1"))
      ≡ (record { frames = closing_frames id ("a" ∷ "b" ∷ []) none; is_ended = true }, (id, true)))
reader_sees_result_example = reader_sees_result memory job whole configured_models fresh_stream

abbrev three : Entries
three = (1, chunk_entry "a") ∷ (4, chunk_entry "b") ∷ (7, chunk_entry "c") ∷ []

three-Increasing : Increasing 0 three
three-Increasing = (omega arith, (omega arith, (omega arith, tt)))

resumed_text_example :
    let (r, (last, over)) = stream_history (some 4) three in
    (append_text (text_of (upto 4 three)) (frames_text r.frames) ≡ text_of three) × (over ≡ false)
resumed_text_example = resumed_text 4 three three-Increasing refl

abbrev batches : List Entries
batches = [] ∷ ((4, chunk_entry "b") ∷ (7, chunk_entry "c") ∷ []) ∷ []

live_delivers_example :
    let r = live 1 (rounds_of ((1, chunk_entry "a") ∷ []) batches) in
    (frames_text r.frames ≡ text_of (all_entries batches)) × (r.is_ended ≡ false)
live_delivers_example = live_delivers 0 ((1, chunk_entry "a") ∷ []) batches three-Increasing refl

-- A job that waits: it has a meta hash and no result.
waiting_hashes :
    HasStatus (fields memory enqueued (job_result "j1"))
    × HasStatus (fields memory enqueued (job_meta "j1"))
unfolding number_of memory pipeline when effect insert_all above insert lookup get_or_zero count
    fields scores members ◌+ℤ◌ prepare_job_submission get_cached_user_limits persist_limits
    resolve_model_chain load_pool load_metas of_type sort_by_fallback_priority insert_meta before
    priority_of type_of select_requested_and_fallback last drop_model on_chain
    select_available_model attempt select_args user_day_limit concurrency_limit_of
    combined_check_and_acquire full acquire on_selection take_slot compute_max_queue_length
    raw_length day_cap get_mode_type is_hard_mode is_by_job is_deep is_common_domain enqueue_job
    meta_fields over limit_field
waiting_hashes = (inl refl, inr refl)

statuses_agree_example :
    get_status memory "j1" none enqueued ≡ status_of (get_result memory "j1" none enqueued)
statuses_agree_example = statuses_agree memory job none enqueued waiting_hashes.0 waiting_hashes.1

abbrev pub analyzed : Analyzed × memory.State
analyzed = analyze memory submission true true configured_models

pub analyzed_accepted : analyzed ≡ (accepted "j1" "flash-lite", analyzed.1)
unfolding number_of memory pipeline when effect insert_all above insert lookup get_or_zero count
    fields scores members ◌+ℤ◌ prepare_job_submission get_cached_user_limits persist_limits
    resolve_model_chain load_pool load_metas of_type sort_by_fallback_priority insert_meta before
    priority_of type_of select_requested_and_fallback last drop_model on_chain
    select_available_model attempt select_args user_day_limit concurrency_limit_of
    combined_check_and_acquire full acquire on_selection take_slot compute_max_queue_length
    raw_length day_cap get_mode_type is_hard_mode is_by_job is_deep is_common_domain enqueue_job
    meta_fields over limit_field analyze on_prepared
analyzed_accepted = refl

new_job : fields memory configured_models (job_meta "j1") ≡ []
unfolding number_of memory pipeline when effect insert_all above insert lookup get_or_zero count
    fields scores members ◌+ℤ◌
new_job = refl

accepted_job_is_fresh_example :
    (submission.job_id ≡ submission.job_id)
    × (tokens_consumed memory analyzed.1 "j1" ≡ false)
    × (failed_owner memory "j1" analyzed.1 ≡ "u1")
    × (failed_model memory "j1" analyzed.1 ≡ "flash-lite")
    × (get_or_zero memory (model_rpm "flash-lite") analyzed.1
        ≡ get_or_zero memory (model_rpm "flash-lite") configured_models)
    × (get_or_zero memory (model_rpd "flash-lite") analyzed.1
        ≡ get_or_zero memory (model_rpd "flash-lite") configured_models)
accepted_job_is_fresh_example =
    accepted_job_is_fresh memory submission configured_models "flash-lite" {job = submission.job_id}
      {model = "flash-lite"} {t = analyzed.1} new_job refl analyzed_accepted
