-- ===== src/Worker/Failed/Release.antt =====
-- What the 'failed' event of a job does to the records of the job and to the counters.
use z1mak_cv_queue.Prelude.{
  Assoc, Bool, Option, String, ap, arith, false, if◌then◌else◌, is_empty, lookup, lookup-insert,
  none, not, or_else, refl, some, str_eq, true, truthy, ℕ, ◌&&◌, ◌∙◌, ◌≡◌,
}
use z1mak_cv_queue.Prelude.Int.{pos, ℤ}
use z1mak_cv_queue.Redis.{
  Key, ModeType, Redis, count, fields, insert_all, job_meta, job_result, key_eq, model_rpd,
  model_rpm, queue_waiting_model, scores, user_active_jobs,
}
use z1mak_cv_queue.Scripts.Acquire.{get_or_zero}
use z1mak_cv_queue.Scripts.Release.{clamp_sub}
use z1mak_cv_queue.Scripts.Release.Laws.{count-return_other, rpd-return, rpm-return}
use z1mak_cv_queue.Worker.Consume.{return_args, return_tokens}
use z1mak_cv_queue.Worker.Failed.{
  Seen, error_code_for, is_final_attempt, on_failed, or_text, record_failure, text_field,
}
use z1mak_cv_queue.Worker.Failed.Settling.{
  count-unqueued, fields-unqueued, own-unqueued, record-count, record-lock, record-meta,
  record-result, scores-unqueued, unqueued,
}

module _ (R : Redis) (job : String) (s : R.State) where
  abbrev meta : Assoc String
  meta = fields R s (job_meta job)

  abbrev pub failed_owner : String
  failed_owner = text_field "user_id" meta

  -- `meta.processed_model || meta.requested_model`
  abbrev pub failed_model : String
  failed_model = or_text (text_field "processed_model" meta) (text_field "requested_model" meta)

  -- The job paid for a request of the model, and the provider did not answer it.
  abbrev pub gives_back : Bool
  gives_back =
      truthy failed_owner
      && (truthy failed_model
          && (str_eq (text_field "tokens_consumed" meta) "true"
              && not (str_eq (text_field "provider_completed" meta) "true")))

module _ (R : Redis) (type : ModeType) (job : String) (failed_reason failed_at : String)
    (day_ttl : ℕ) (s : R.State) where
  open R use {State}

  abbrev failed_meta : Assoc String
  failed_meta = meta R job s

  abbrev owner : String
  owner = failed_owner R job s

  abbrev model : String
  model = failed_model R job s

  abbrev after : Seen → State
  after seen = on_failed R type job seen failed_reason failed_at day_ttl s

  abbrev refunded : State
  refunded = if gives_back R job s then return_tokens R model day_ttl s else s

  abbrev reason : String
  reason = or_text failed_reason "PROVIDER_ERROR"

  abbrev code : String
  code = error_code_for type reason

  abbrev closed : State
  closed = record_failure R job owner reason code failed_at refunded

  -- While BullMQ still retries the job, or when its meta hash has expired, the event changes nothing.
  event_ignored :
      (seen : Seen) → (is_final_attempt seen && not (is_empty failed_meta)) ≡ false → after seen ≡ s
  unfolding on_failed
  event_ignored seen h = ground arith

  module _ (seen : Seen) (final : is_final_attempt seen ≡ true)
      (known : is_empty failed_meta ≡ false) where
    abbrev counter : (String → Key) → State → ℤ
    counter k t = get_or_zero R (k model) t

    after-final : after seen ≡ unqueued R model (truthy model) closed
    unfolding on_failed
    after-final = ground arith

    abbrev result_field : String → Option String
    result_field f = lookup f (fields R (after seen) (job_result job))

    -- Where the meta hash of the job is still there and names its user: after the last attempt the
    -- result says that the job failed, why, and under which code; the meta hash says so too, and the job
    -- holds no lock of its user.
    pub failure_recorded :
        truthy owner ≡ true
        → (result_field "status" ≡ some "failed")
          × (result_field "error" ≡ some (or_text failed_reason "PROVIDER_ERROR"))
          × (result_field "error_code"
              ≡ some (error_code_for type (or_text failed_reason "PROVIDER_ERROR")))
          × (lookup "status" (fields R (after seen) (job_meta job)) ≡ some "failed")
          × (lookup job (scores R (after seen) (user_active_jobs owner)) ≡ none)
    failure_recorded locked =
        let b = truthy model in
        let result =
          fields-unqueued R model b closed (job_result job) refl
          ∙ record-result R job owner reason code failed_at refunded in
        let meta' =
          fields-unqueued R model b closed (job_meta job) refl
          ∙ record-meta R job owner reason code failed_at refunded in
        unfold insert_all in
        (
          rw (after-final, result) (simp lookup-insert),
          rw (after-final, result) (simp lookup-insert),
          rw (after-final, result) (simp lookup-insert),
          rw (after-final, meta') (simp lookup-insert),
          rw after-final (
              scores-unqueued R model b closed job owner
                (record-lock R job owner reason code failed_at refunded locked)),
        )

    count-closed : (k : Key) → count R closed k ≡ count R refunded k
    count-closed k = record-count R job owner reason code failed_at refunded k

    refunded-rpm : counter model_rpm refunded ≡ (
        if gives_back R job s then clamp_sub (counter model_rpm s) (pos 1) else counter model_rpm s)
    unfolding return_tokens get_or_zero
    refunded-rpm = ground (arith, rpm-return R s model (return_args day_ttl))

    refunded-rpd : counter model_rpd refunded ≡ (
        if gives_back R job s then clamp_sub (counter model_rpd s) (pos 1) else counter model_rpd s)
    unfolding return_tokens get_or_zero
    refunded-rpd = ground (arith, rpd-return R s model (return_args day_ttl))

    refunded-waiting :
        count R refunded (queue_waiting_model model) ≡ count R s (queue_waiting_model model)
    unfolding return_tokens
    refunded-waiting = ground (
      arith,
      count-return_other R s model (return_args day_ttl) (queue_waiting_model model) refl refl,
    )

    counter-after :
        (k : Key)
        → key_eq (queue_waiting_model model) k ≡ false
        → get_or_zero R k (after seen) ≡ get_or_zero R k refunded
    unfolding get_or_zero
    counter-after k h = rw after-final (
        ap (λ o. or_else o (pos 0))
          (count-unqueued R model (truthy model) closed k h ∙ count-closed k))

    -- Where the meta hash of the job is still there and names its model: after the last attempt the job
    -- has left the queue of its model, whose counter is one lower, but not below zero. Both counters of the
    -- model are one lower, but not below zero, if the meta hash names the user too and says that the job had
    -- paid for a request that the provider did not answer; otherwise they are what they were.
    pub failure_releases :
        truthy model ≡ true
        → (counter queue_waiting_model (after seen)
            ≡ clamp_sub (counter queue_waiting_model s) (pos 1))
          × (counter model_rpm (after seen) ≡ (
              if gives_back R job s
              then clamp_sub (counter model_rpm s) (pos 1)
              else counter model_rpm s))
          × (counter model_rpd (after seen) ≡ (
              if gives_back R job s
              then clamp_sub (counter model_rpd s) (pos 1)
              else counter model_rpd s))
    failure_releases h =
        let k = queue_waiting_model model in
        unfold get_or_zero in
        (
          rw after-final (
              ap (λ o. or_else o (pos 0)) (own-unqueued R model (truthy model) closed h)
              ∙ rw (count-closed k, refunded-waiting)),
          counter-after (model_rpm model) refl ∙ refunded-rpm,
          counter-after (model_rpd model) refl ∙ refunded-rpd,
        )
