-- ===== src/Worker/Failed/Settling.antt =====
-- What the handler of a failed job writes, and how the job leaves its queue.
use z1mak_cv_queue.Prelude.{
  Bool, String, [], arith, eq_refl, false, if◌then◌else◌, lookup, lookup-without, none, or_else,
  refl, some, true, truthy, ◌∙◌, ◌∷◌, ◌≡◌,
}
use z1mak_cv_queue.Prelude.Int.{pos}
use z1mak_cv_queue.Redis.{
  Key, Redis, count, fields, insert_all, job_meta, job_result, key_eq, key_eq_refl,
  queue_waiting_model, scores, user_active_jobs,
}
use z1mak_cv_queue.Redis.Laws.{redis_laws}
use z1mak_cv_queue.Scripts.Acquire.{get_or_zero}
use z1mak_cv_queue.Scripts.Release.{clamp_sub, decr_and_clamp_to_zero}
use z1mak_cv_queue.Scripts.Release.Laws.{count-clamp}
use z1mak_cv_queue.Worker.Failed.{record_failure}

module _ (R : Redis) (job owner reason code failed_at : String) (s : R.State) where
  abbrev recorded : R.State
  recorded = record_failure R job owner reason code failed_at s

  pub record-result :
      fields R recorded (job_result job)
      ≡ insert_all
          (("status", "failed")
            ∷ ("error", reason)
            ∷ ("error_code", code)
            ∷ ("finished_at", failed_at)
            ∷ [])
          (fields R s (job_result job))
  unfolding record_failure
  record-result = simp redis_laws (ground arith)

  pub record-meta :
      fields R recorded (job_meta job)
      ≡ insert_all
          (("status", "failed") ∷ ("updated_at", failed_at) ∷ [])
          (fields R s (job_meta job))
  unfolding record_failure
  record-meta = simp redis_laws (ground arith)

  pub record-lock :
      truthy owner ≡ true → lookup job (scores R recorded (user_active_jobs owner)) ≡ none
  unfolding record_failure
  record-lock h = simp redis_laws (
      ground (
        arith,
        lookup-without job job (scores R s (user_active_jobs owner)),
        eq_refl job,
        eq_refl owner,
      ))

  pub record-count : (k : Key) → count R recorded k ≡ count R s k
  unfolding record_failure
  record-count k = simp redis_laws (ground arith)

module _ (R : Redis) (model : String) where
  abbrev pub waiting_key : Key
  waiting_key = queue_waiting_model model

  -- The waiting counter of the model, where the model is known.
  abbrev pub unqueued : Bool → R.State → R.State
  unqueued b s = if b then (decr_and_clamp_to_zero R waiting_key s).1 else s

  pub fields-unqueued :
      (b : Bool) (s : R.State) (j : Key)
      → key_eq waiting_key j ≡ false
      → fields R (unqueued b s) j ≡ fields R s j
  unfolding decr_and_clamp_to_zero
  fields-unqueued true s j h = simp (redis_laws, h)
  fields-unqueued false s j h = refl

  pub scores-unqueued :
      (b : Bool) (s : R.State) (m : String) (j : String)
      → lookup m (scores R s (user_active_jobs j)) ≡ none
      → lookup m (scores R (unqueued b s) (user_active_jobs j)) ≡ none
  unfolding decr_and_clamp_to_zero
  scores-unqueued true s m j h = simp redis_laws h
  scores-unqueued false s m j h = h

  pub count-unqueued :
      (b : Bool) (s : R.State) (j : Key)
      → key_eq waiting_key j ≡ false
      → count R (unqueued b s) j ≡ count R s j
  count-unqueued true s j h = count-clamp R s waiting_key j ∙ rw h
  count-unqueued false s j h = refl

  pub own-unqueued :
      (b : Bool) (s : R.State)
      → b ≡ true
      → count R (unqueued b s) waiting_key
        ≡ some (clamp_sub (or_else (count R s waiting_key) (pos 0)) (pos 1))
  unfolding get_or_zero
  own-unqueued true s h = count-clamp R s waiting_key waiting_key ∙ rw (key_eq_refl waiting_key)
  own-unqueued false s h = cc
