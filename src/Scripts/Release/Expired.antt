-- ===== src/Scripts/Release/Expired.antt =====
-- What expireStaleJob.lua does when every key is given.
use z1mak_cv_queue.Prelude.{
  String, [], arith, eq_refl, false, lookup, lookup-without, none, some, str_eq, ◌∷◌, ◌≡◌,
}
use z1mak_cv_queue.Prelude.Int.{pos}
use z1mak_cv_queue.Redis.{
  Key, ModeType, Redis, fields, insert_all, job_meta, job_result, model_rpd, model_rpm,
  queue_waiting_model, scores, user_active_jobs, user_type_rpd,
}
use z1mak_cv_queue.Redis.Laws.{redis_laws}
use z1mak_cv_queue.Scripts.Acquire.{get_or_zero}
use z1mak_cv_queue.Scripts.Release.{
  ExpireArgs, clamp_sub, decr_and_clamp_to_zero, drop_lock, drop_waiting, expire_stale_job,
  refund_user,
}

module _ (R : Redis) (user_id model : String) (type : ModeType) (date : String) (a : ExpireArgs)
    (s : R.State) where
  abbrev day_key : Key
  day_key = user_type_rpd user_id type date

  abbrev pub expired_state : R.State
  expired_state =
      expire_stale_job R (some (queue_waiting_model model)) (some (user_active_jobs user_id))
        (some day_key) (job_result a.job_id) (job_meta a.job_id) a s

  pub waiting-expired :
      get_or_zero R (queue_waiting_model model) expired_state
      ≡ clamp_sub (get_or_zero R (queue_waiting_model model) s) (pos 1)
  unfolding expire_stale_job refund_user drop_lock drop_waiting decr_and_clamp_to_zero get_or_zero
  waiting-expired = simp redis_laws (ground arith)

  pub day-expired :
      get_or_zero R day_key expired_state ≡ clamp_sub (get_or_zero R day_key s) (pos 1)
  unfolding expire_stale_job refund_user drop_lock drop_waiting decr_and_clamp_to_zero get_or_zero
  day-expired = simp redis_laws (ground arith)

  pub rpm-expired :
      get_or_zero R (model_rpm model) expired_state ≡ get_or_zero R (model_rpm model) s
  unfolding expire_stale_job refund_user drop_lock drop_waiting decr_and_clamp_to_zero get_or_zero
  rpm-expired = simp redis_laws (ground arith)

  pub rpd-expired :
      get_or_zero R (model_rpd model) expired_state ≡ get_or_zero R (model_rpd model) s
  unfolding expire_stale_job refund_user drop_lock drop_waiting decr_and_clamp_to_zero get_or_zero
  rpd-expired = simp redis_laws (ground arith)

  pub result-expired :
      fields R expired_state (job_result a.job_id)
      ≡ insert_all
          (("status", a.status)
            ∷ ("error", a.error)
            ∷ ("error_code", a.error_code)
            ∷ ("finished_at", a.finished_at)
            ∷ ("expired_at", a.finished_at)
            ∷ [])
          (fields R s (job_result a.job_id))
  unfolding expire_stale_job refund_user drop_lock drop_waiting decr_and_clamp_to_zero
  result-expired = simp redis_laws (ground arith)

  pub lock-expired :
      str_eq a.job_id "" ≡ false
      → lookup a.job_id (scores R expired_state (user_active_jobs user_id)) ≡ none
  unfolding expire_stale_job refund_user drop_lock drop_waiting decr_and_clamp_to_zero
  lock-expired h =
      simp (redis_laws, h)
        (ground (
          arith,
          lookup-without a.job_id a.job_id (scores R s (user_active_jobs user_id)),
          eq_refl a.job_id,
          eq_refl user_id,
        ))
