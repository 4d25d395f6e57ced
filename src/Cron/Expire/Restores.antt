-- ===== src/Cron/Expire/Restores.antt =====
-- What the expiry of a job gives back.
use z1mak_cv_queue.Prelude.{
  Assoc, Bool, Bool-cases, String, arith, eq_iff, false, if◌then◌else◌, inl, inr, lookup,
  lookup-insert, none, not, refl, some, str_eq, true, truthy, ◌&&◌, ◌∙◌, ◌≡◌,
}
use z1mak_cv_queue.Prelude.Int.{pos, ℤ}
use z1mak_cv_queue.Cron.Expire.{ExpireClock, QueuedJob, expire_args, expire_job}
use z1mak_cv_queue.Redis.{
  Key, ModeType, Redis, fields, insert_all, job_meta, job_result, key_eq, model_rpd, model_rpm,
  queue_waiting_model, scores, user_active_jobs, user_type_rpd,
}
use z1mak_cv_queue.Scripts.Acquire.{get_or_zero}
use z1mak_cv_queue.Scripts.Release.{clamp_sub}
use z1mak_cv_queue.Scripts.Release.Expired.{
  day-expired, expired_state, lock-expired, result-expired, rpd-expired, rpm-expired,
  waiting-expired,
}
use z1mak_cv_queue.Scripts.Release.Laws.{count-return_other, rpd-return, rpm-return}
use z1mak_cv_queue.Worker.Consume.{return_args, return_tokens}
use z1mak_cv_queue.Worker.Failed.{text_field}

module _ (R : Redis) (type : ModeType) (c : ExpireClock) (j : QueuedJob) (s : R.State) where
  open R use {State}

  abbrev expired : State
  expired = expire_job R type c j s

  abbrev counter : Key → State → ℤ
  counter k t = get_or_zero R k t

  abbrev day_key : Key
  day_key = user_type_rpd j.queued_user type c.expire_date_pt

  abbrev stale_meta : Assoc String
  stale_meta = fields R s (job_meta j.queued_id)

  -- The job was charged to its model, and the provider did not answer it.
  abbrev pub unanswered : Bool
  unanswered =
      str_eq (text_field "tokens_consumed" stale_meta) "true"
      && not (str_eq (text_field "provider_completed" stale_meta) "true")

  -- After the tokens of the model.
  abbrev repaid : State
  repaid = if unanswered then return_tokens R j.queued_model c.expire_day_ttl s else s

  known : (t : String) → truthy t ≡ true → str_eq t "" ≡ false
  known t h = elim (Bool-cases (str_eq t "")) [
    | inl e ↦ let q = (eq_iff t "").0 e in cc
    | inr e ↦ e
  ]

  module _ (u : truthy j.queued_user ≡ true) (m : truthy j.queued_model ≡ true) where
    expired-script :
        expired
        ≡ expired_state R j.queued_user j.queued_model type c.expire_date_pt
            (expire_args c j.queued_id)
            repaid
    unfolding expire_job
    expired-script = ground (arith, u, m)

    repaid-other :
        (k : Key)
        → key_eq (model_rpm j.queued_model) k ≡ false
        → key_eq (model_rpd j.queued_model) k ≡ false
        → counter k repaid ≡ counter k s
    unfolding return_tokens get_or_zero
    repaid-other k a b =
        ground (arith, count-return_other R s j.queued_model (return_args c.expire_day_ttl) k a b)

    repaid-rpm : counter (model_rpm j.queued_model) repaid ≡ (
        if unanswered
        then clamp_sub (counter (model_rpm j.queued_model) s) (pos 1)
        else counter (model_rpm j.queued_model) s)
    unfolding return_tokens get_or_zero
    repaid-rpm = ground (arith, rpm-return R s j.queued_model (return_args c.expire_day_ttl))

    repaid-rpd : counter (model_rpd j.queued_model) repaid ≡ (
        if unanswered
        then clamp_sub (counter (model_rpd j.queued_model) s) (pos 1)
        else counter (model_rpd j.queued_model) s)
    unfolding return_tokens get_or_zero
    repaid-rpd = ground (arith, rpd-return R s j.queued_model (return_args c.expire_day_ttl))

    -- A job that has an id, a known user and a known model and that expires: the counter of its queue and
    -- the counter of its user for the day of the expiry are one lower, and so are the counters of its
    -- model for the minute and for the day, if the model was charged and has not answered, while they stay
    -- if not. Each is lowered to zero at least. The job holds no lock, and its result says that it expired.
    pub expire_settles :
        truthy j.queued_id ≡ true
        → (counter (queue_waiting_model j.queued_model) expired
            ≡ clamp_sub (counter (queue_waiting_model j.queued_model) s) (pos 1))
          × (counter day_key expired ≡ clamp_sub (counter day_key s) (pos 1))
          × (counter (model_rpm j.queued_model) expired ≡ (
              if unanswered
              then clamp_sub (counter (model_rpm j.queued_model) s) (pos 1)
              else counter (model_rpm j.queued_model) s))
          × (counter (model_rpd j.queued_model) expired ≡ (
              if unanswered
              then clamp_sub (counter (model_rpd j.queued_model) s) (pos 1)
              else counter (model_rpd j.queued_model) s))
          × (lookup j.queued_id (scores R expired (user_active_jobs j.queued_user)) ≡ none)
          × (lookup "status" (fields R expired (job_result j.queued_id)) ≡ some "failed")
          × (lookup "error" (fields R expired (job_result j.queued_id)) ≡ some "expired")
    expire_settles i =
        let a = expire_args c j.queued_id in
        let waiting =
          waiting-expired R j.queued_user j.queued_model type c.expire_date_pt a repaid in
        let day = day-expired R j.queued_user j.queued_model type c.expire_date_pt a repaid in
        let rpm = rpm-expired R j.queued_user j.queued_model type c.expire_date_pt a repaid in
        let rpd = rpd-expired R j.queued_user j.queued_model type c.expire_date_pt a repaid in
        let result = result-expired R j.queued_user j.queued_model type c.expire_date_pt a repaid in
        let lock =
          lock-expired R j.queued_user j.queued_model type c.expire_date_pt a repaid
            (known j.queued_id i) in
        (
          rw expired-script
              (waiting ∙ rw (repaid-other (queue_waiting_model j.queued_model) refl refl)),
          rw expired-script (day ∙ rw (repaid-other day_key refl refl)),
          rw expired-script (rpm ∙ repaid-rpm),
          rw expired-script (rpd ∙ repaid-rpd),
          rw expired-script lock,
          unfold insert_all in rw (expired-script, result) (simp lookup-insert),
          unfold insert_all in rw (expired-script, result) (simp lookup-insert),
        )
