-- ===== src/Worker/Failed/Refund.antt =====
-- A job that fails for good, from its first attempt to the 'failed' event.
use z1mak_cv_queue.Prelude.{
  Assoc, Bool, Bool-cases, List, String, [], arith, false, inl, inr, is_empty, lookup, not, refl,
  some, true, truthy, ℕ, ◌&&◌, ◌∙◌, ◌∷◌, ◌≡◌,
}
use z1mak_cv_queue.Prelude.Int.{pos, ◌≤ℤ◌}
use z1mak_cv_queue.Redis.{ModeType, Redis, model_rpd, model_rpm}
use z1mak_cv_queue.Scripts.Acquire.{get_or_zero}
use z1mak_cv_queue.Scripts.Release.Laws.{clamp_sub-add}
use z1mak_cv_queue.Worker.Execute.{Call}
use z1mak_cv_queue.Worker.Failed.{Seen, is_final_attempt, on_failed, text_field}
use z1mak_cv_queue.Worker.Failed.Release.{failed_model, failed_owner, failure_releases, gives_back}
use z1mak_cv_queue.Worker.Job.{
  Clock, Ending, completed, failed, handle_job, put_off, tokens_consumed,
}
use z1mak_cv_queue.Worker.Job.Attempts.{Charged, attempts, attempts_charge_once, handle-Charged}
use z1mak_cv_queue.Worker.Job.Meta.{Kept, Left, handle-Left, meta_of}
use z1mak_cv_queue.Worker.Types.{Failure, JobData}

abbrev is_completed : Ending → Bool
is_completed completed = true
is_completed put_off = false
is_completed (failed f) = false

-- No attempt of the list completes the job.
unfoldable pub never_completes : (R : Redis) → JobData → List (Call × Clock) → R.State → Bool
never_completes R job [] s = true
never_completes R job ((call, clock) ∷ l) s =
    let (e, t) = handle_job R job call clock s in not (is_completed e) && never_completes R job l t

text_field-known :
    (f : String) (m : Assoc String) → truthy (text_field f m) ≡ true → is_empty m ≡ false
unfolding lookup
text_field-known f [] h = cc
text_field-known f (p ∷ m) h = refl

module _ (R : Redis) (job : JobData) where
  open R use {State}

  abbrev flag : State → Bool
  flag s = tokens_consumed R s job.job_id

  Left-Kept :
      (e : Ending) (b : Bool) (m n : Assoc String)
      → is_completed e ≡ false
      → Left R job e b m n
      → Kept R job m n
  unfolding Left
  Left-Kept put_off b m n h x = x
  Left-Kept completed b m n h x = cc
  Left-Kept (failed f) b m n h x = x.0

  attempts-Kept :
      (l : List (Call × Clock)) (s : State)
      → never_completes R job l s ≡ true
      → Kept R job (meta_of R job s) (meta_of R job (attempts R job l s))
  unfolding never_completes attempts
  attempts-Kept [] s h = (refl, refl, refl)
  attempts-Kept ((call, clock) ∷ l) s h =
      let (e, t) = handle_job R job call clock s in
      let k : Kept R job (meta_of R job s) (meta_of R job t) =
        Left-Kept e (flag s) (meta_of R job s) (meta_of R job t) (ground arith)
          (handle-Left R job call clock s) in
      let j = attempts-Kept l t (ground arith) in (j.0 ∙ k.0, j.1 ∙ k.1, j.2 ∙ k.2)

  module _ (l : List (Call × Clock)) (call : Call) (clock : Clock) (s : State) {f : Failure}
      {t : State} (open_before : never_completes R job l s ≡ true)
      (fails : handle_job R job call clock (attempts R job l s) ≡ (failed f, t)) where
    abbrev before : State
    before = attempts R job l s

    last-Left : Left R job (failed f) (flag before) (meta_of R job before) (meta_of R job t)
    last-Left = rw fails at (handle-Left R job call clock before)

    failed-Kept : Kept R job (meta_of R job s) (meta_of R job t)
    failed-Kept =
        let k =
          Left-Kept (failed f) (flag before) (meta_of R job before) (meta_of R job t) refl
            last-Left in
        let j = attempts-Kept l s open_before in (k.0 ∙ j.0, k.1 ∙ j.1, k.2 ∙ j.2)

    unanswered : flag t ≡ true → lookup "provider_completed" (meta_of R job t) ≡ some "false"
    unanswered h = unfold Left in ground (arith, last-Left)

    gives :
        truthy (failed_owner R job.job_id t) ≡ true
        → truthy (failed_model R job.job_id t) ≡ true
        → gives_back R job.job_id t ≡ flag t
    gives o m =
        rw (o, m) (elim (Bool-cases (flag t)) [ inl e ↦ rw (e, unanswered e) | inr e ↦ rw e ])

    failed-Charged : Charged R job s t
    failed-Charged =
        let c = rw fails at (handle-Charged R job call clock before) in
        let d = attempts_charge_once R job l s in ground (arith, c, d)

    -- A job that has not been charged and whose meta hash names its user and its model: when an
    -- attempt at it fails, be it the first or one after any number that did not complete it, and
    -- BullMQ counts the failure as final, the counters of the minute and of the day of its model,
    -- where they were not negative, are after the event what they were before the first attempt.
    pub failed_job_pays_nothing :
        (type : ModeType) (seen : Seen) (reason failed_at : String) (day_ttl : ℕ)
        → is_final_attempt seen ≡ true
        → flag s ≡ false
        → failed_model R job.job_id s ≡ job.model
        → truthy job.model ≡ true
        → truthy (failed_owner R job.job_id s) ≡ true
        → pos 0 ≤ℤ get_or_zero R (model_rpm job.model) s
        → pos 0 ≤ℤ get_or_zero R (model_rpd job.model) s
        → let u = on_failed R type job.job_id seen reason failed_at day_ttl t in
          (get_or_zero R (model_rpm job.model) u ≡ get_or_zero R (model_rpm job.model) s)
          × (get_or_zero R (model_rpd job.model) u ≡ get_or_zero R (model_rpd job.model) s)
    failed_job_pays_nothing type seen reason failed_at day_ttl final fresh model named owner m d =
        let same = failed-Kept in
        let model_t : failed_model R job.job_id t ≡ job.model = rw (same.1, same.2) model in
        let owner_t : truthy (failed_owner R job.job_id t) ≡ true = rw same.0 owner in
        let known = text_field-known "user_id" (meta_of R job t) owner_t in
        let named_t : truthy (failed_model R job.job_id t) ≡ true = rw model_t named in
        let free =
          failure_releases R type job.job_id reason failed_at day_ttl t seen final known named_t in
        let rpm = rw model_t at free.1 in
        let rpd = rw model_t at free.2 in
        ground (
          arith,
          failed-Charged,
          gives owner_t named_t,
          rpm,
          rpd,
          clamp_sub-add (get_or_zero R (model_rpm job.model) s) (pos 1) m,
          clamp_sub-add (get_or_zero R (model_rpd job.model) s) (pos 1) d,
        )
