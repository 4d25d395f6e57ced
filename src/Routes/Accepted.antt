-- ===== src/Routes/Accepted.antt =====
-- What `POST /analyze` leaves of a job that it accepts, and of one that BullMQ or Redis does not take.
use z1mak_cv_queue.Prelude.{
  Assoc, Bool-cases, List, Option, String, [], ap, arith, false, inl, inr, insert, is_empty, lookup,
  none, refl, some, true, truthy, ◌∙◌, ◌∷◌, ◌≡◌,
}
use z1mak_cv_queue.Prelude.Int.{negsuc, pos, ℤ}
use z1mak_cv_queue.Admission.Selection.{
  SelectParams, Selection, attempt, refused, select_available_model, selected,
}
use z1mak_cv_queue.Admission.Selection.Charges.{attempt-fields, select-other_counters}
use z1mak_cv_queue.Admission.Submission.{
  Prep, Submission, enqueue_job, meta_fields, on_chain, on_selection, prepare_job_submission, ready,
  rejected, select_params, take_slot, threw,
}
use z1mak_cv_queue.Admission.Submission.Outcomes.{count-cached}
use z1mak_cv_queue.Limits.{UserLimits, get_cached_user_limits}
use z1mak_cv_queue.Models.{ModelChain, resolve_model_chain}
use z1mak_cv_queue.Modes.{get_mode_type}
use z1mak_cv_queue.Redis.{
  Key, ModeType, Redis, fields, incrby, insert_all, job_meta, key_eq, model_rpd, model_rpm,
  queue_waiting_model, user_limits, user_type_rpd,
}
use z1mak_cv_queue.Redis.Laws.{count-exec, fields-exec, redis_laws}
use z1mak_cv_queue.Routes.{accepted, analyze, on_prepared}
use z1mak_cv_queue.Scripts.Acquire.{get_or_zero}
use z1mak_cv_queue.Worker.Failed.Release.{failed_model, failed_owner}
use z1mak_cv_queue.Worker.Job.{tokens_consumed}

module _ (R : Redis) (q : Submission) where
  open R use {State}

  abbrev meta : State → Assoc String
  meta s = fields R s (job_meta q.job_id)

  meta-select :
      (p : SelectParams) (chain : List String) (s : State)
      → meta (select_available_model R p chain s).1 ≡ meta s
  unfolding select_available_model
  meta-select p [] s = refl
  meta-select p (c ∷ chain) s = ground (
    arith,
    meta-select p chain s,
    meta-select p chain (attempt R p c s).1,
    attempt-fields R p c s (job_meta q.job_id),
  )

  meta-slot :
      (type : ModeType) (requested model : String) (rpm rpd : ℤ) (s : State)
      → meta (take_slot R type requested model rpm rpd s).1 ≡ meta s
  unfolding take_slot
  meta-slot type requested model rpm rpd s = ground (
    arith,
    fields-exec R (queue_waiting_model model) (incrby (pos 1)) s (job_meta q.job_id),
    fields-exec R (queue_waiting_model model) (incrby (negsuc 0))
        (R.exec (queue_waiting_model model, incrby (pos 1)) s) (job_meta q.job_id),
  )

  meta-selection :
      (type : ModeType) (c : String) (sel : Selection) (s : State)
      → meta (on_selection R type c (sel, s)).1 ≡ meta s
  unfolding on_selection
  meta-selection type c (refused e) s = refl
  meta-selection type c (selected m rpm rpd) s = meta-slot type c m rpm rpd s

  meta-chain :
      (o : Option ModelChain) (l : UserLimits) (s : State) → meta (on_chain R q l o s).1 ≡ meta s
  unfolding on_chain
  meta-chain none l s = refl
  meta-chain (some c) l s =
      let chain = c.requested_model ∷ c.fallback_models in
      let (sel, t) = select_available_model R (select_params q l) chain s in
      meta-selection (get_mode_type q.mode) c.requested_model sel t
      ∙ meta-select (select_params q l) chain s

  meta-cached :
      (s : State) → meta (get_cached_user_limits R q.user_id q.user_role q.db_limits s).1 ≡ meta s
  unfolding get_cached_user_limits
  meta-cached s = elim (Bool-cases (is_empty (fields R s (user_limits q.user_id)))) [
    | inl e ↦ rw e (simp redis_laws)
    | inr e ↦ rw e
  ]

  meta-prepare : (s : State) → meta (prepare_job_submission R q s).1 ≡ meta s
  unfolding prepare_job_submission
  meta-prepare s =
      let (l, t) = get_cached_user_limits R q.user_id q.user_role q.db_limits s in
      meta-chain (resolve_model_chain R q.mode t) l t ∙ meta-cached s

  meta-enqueue :
      (requested model : String) (s : State)
      → meta (enqueue_job R q requested model true true s).1
        ≡ insert_all (meta_fields q requested model) (meta s)
  unfolding enqueue_job
  meta-enqueue requested model s = simp redis_laws

  pub count-enqueue :
      (requested model : String) (s : State) (k : Key)
      → get_or_zero R k (enqueue_job R q requested model true true s).1 ≡ get_or_zero R k s
  unfolding enqueue_job get_or_zero
  count-enqueue requested model s k = simp redis_laws (ground arith)

  -- A counter that is neither of a queue nor of the user's day.
  module _ (k : Key) (not_waiting : (m : String) → key_eq (queue_waiting_model m) k ≡ false)
      (not_day : key_eq (user_type_rpd q.user_id (get_mode_type q.mode) q.today_pt) k ≡ false) where
    count-slot :
        (type : ModeType) (requested model : String) (rpm rpd : ℤ) (s : State)
        → get_or_zero R k (take_slot R type requested model rpm rpd s).1 ≡ get_or_zero R k s
    unfolding take_slot get_or_zero
    count-slot type requested model rpm rpd s = ground (
      arith,
      not_waiting model,
      count-exec R (queue_waiting_model model) (incrby (pos 1)) s k,
      count-exec R (queue_waiting_model model) (incrby (negsuc 0))
          (R.exec (queue_waiting_model model, incrby (pos 1)) s) k,
    )

    count-selection :
        (type : ModeType) (c : String) (sel : Selection) (s : State)
        → get_or_zero R k (on_selection R type c (sel, s)).1 ≡ get_or_zero R k s
    unfolding on_selection
    count-selection type c (refused e) s = refl
    count-selection type c (selected m rpm rpd) s = count-slot type c m rpm rpd s

    count-chain :
        (o : Option ModelChain) (l : UserLimits) (s : State)
        → get_or_zero R k (on_chain R q l o s).1 ≡ get_or_zero R k s
    unfolding on_chain
    count-chain none l s = refl
    count-chain (some c) l s =
        let chain = c.requested_model ∷ c.fallback_models in
        let (sel, t) = select_available_model R (select_params q l) chain s in
        count-selection (get_mode_type q.mode) c.requested_model sel t
        ∙ select-other_counters R (select_params q l) chain s k not_day

    count-prepare :
        (s : State) → get_or_zero R k (prepare_job_submission R q s).1 ≡ get_or_zero R k s
    unfolding prepare_job_submission
    count-prepare s =
        let (l, t) = get_cached_user_limits R q.user_id q.user_role q.db_limits s in
        count-chain (resolve_model_chain R q.mode t) l t ∙ count-cached R q s k

  pub on_prepared-accepted :
      (o : Prep) (u : State) {job model : String} {t : State}
      → on_prepared R q true true (o, u) ≡ (accepted job model, t)
      → (requested : String) × (job ≡ q.job_id)
        × (o ≡ ready requested model)
        × (t ≡ (enqueue_job R q requested model true true u).1)
  unfolding on_prepared enqueue_job
  on_prepared-accepted (rejected e) u h = cc
  on_prepared-accepted threw u h = cc
  on_prepared-accepted (ready requested m) u h =
      (requested, ground arith, ground arith, ground arith)

  -- An accepted submission with a new job id, for a model that has a name: the job has the id of the
  -- submission, its meta hash names the model and the user, and it has not been charged to the model:
  -- its meta hash does not say so, and the counters of the requests of a minute and of a day are what
  -- they were, for this model and every other.
  pub accepted_job_is_fresh :
      (s : State) (other : String) {job model : String} {t : State}
      → meta s ≡ []
      → truthy model ≡ true
      → analyze R q true true s ≡ (accepted job model, t)
      → (job ≡ q.job_id)
        × (tokens_consumed R t q.job_id ≡ false)
        × (failed_owner R q.job_id t ≡ q.user_id)
        × (failed_model R q.job_id t ≡ model)
        × (get_or_zero R (model_rpm other) t ≡ get_or_zero R (model_rpm other) s)
        × (get_or_zero R (model_rpd other) t ≡ get_or_zero R (model_rpd other) s)
  unfolding analyze
  accepted_job_is_fresh s other {job} {model} {t} fresh named h =
      let (o, u) = prepare_job_submission R q s in
      let (requested, id, is_ready, e) = on_prepared-accepted o u h in
      let all : meta t ≡ insert_all (meta_fields q requested model) [] =
        rw e (meta-enqueue requested model u ∙ rw (meta-prepare s, fresh)) in
      unfold insert_all meta_fields insert lookup in
      (
        id,
        rw all,
        rw all,
        rw (all, named),
        ap (get_or_zero R (model_rpm other)) e
            ∙ count-enqueue requested model u (model_rpm other)
            ∙ count-prepare (model_rpm other) (λ m. refl) refl s,
        ap (get_or_zero R (model_rpd other)) e
            ∙ count-enqueue requested model u (model_rpd other)
            ∙ count-prepare (model_rpd other) (λ m. refl) refl s,
      )
