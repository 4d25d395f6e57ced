-- ===== src/Admission/Submission/Outcomes.antt =====
-- What a submission does to the counters on each of its outcomes.
use z1mak_cv_queue.Prelude.{
  Bool-cases, Option, String, ap, arith, if◌then◌else◌, inl, inr, is_empty, none, refl, some, true,
  ℕ, ◌∙◌, ◌∷◌, ◌≡◌,
}
use z1mak_cv_queue.Prelude.Int.{pos, ℤ, ◌+ℤ◌, ◌≤ℤ◌}
use z1mak_cv_queue.Admission.QueueLength.{compute_max_queue_length}
use z1mak_cv_queue.Admission.Selection.{
  SelectParams, SelectionError, limit_field, select_available_model, user_day_limit,
}
use z1mak_cv_queue.Admission.Selection.Charges.{
  refused_charges_nothing, select-other_counters, selected-limits, selected_charges_once,
}
use z1mak_cv_queue.Admission.Submission.{
  Submission, avg_seconds, limit, on_chain, prepare_job_submission, queue_full, ready, rejected,
  select_params,
}
use z1mak_cv_queue.Admission.Submission.Slots.{
  on_selection-full, on_selection-limit, on_selection-ready,
}
use z1mak_cv_queue.Limits.{UserLimits, get_cached_user_limits}
use z1mak_cv_queue.Models.{ModelChain, resolve_model_chain}
use z1mak_cv_queue.Modes.{get_mode_type}
use z1mak_cv_queue.Redis.{
  Key, ModeType, Redis, fields, model_limits, queue_waiting_model, user_limits, user_type_rpd,
}
use z1mak_cv_queue.Redis.Laws.{redis_laws}
use z1mak_cv_queue.Scripts.Acquire.{get_or_zero, is_limit}

module _ (R : Redis) (q : Submission) where
  open R use {State}

  abbrev type : ModeType
  type = get_mode_type q.mode

  abbrev limits : State → UserLimits
  limits s = (get_cached_user_limits R q.user_id q.user_role q.db_limits s).0

  abbrev user_key : Key
  user_key = user_type_rpd q.user_id type q.today_pt

  pub count-cached :
      (s : State) (k : Key)
      → get_or_zero R k (get_cached_user_limits R q.user_id q.user_role q.db_limits s).1
        ≡ get_or_zero R k s
  unfolding get_cached_user_limits get_or_zero
  count-cached s k = elim (Bool-cases (is_empty (fields R s (user_limits q.user_id)))) [
    | inl e ↦ rw e (simp redis_laws (ground arith))
    | inr e ↦ rw e
  ]

  abbrev cached : State → State
  cached s = (get_cached_user_limits R q.user_id q.user_role q.db_limits s).1

  abbrev params : State → SelectParams
  params s = select_params q (limits s)

  on_chain-limit :
      (o : Option ModelChain) (l : UserLimits) (s : State) (k : Key) {e : SelectionError}
      {s' : State}
      → on_chain R q l o s ≡ (rejected (limit e), s')
      → get_or_zero R k s' ≡ get_or_zero R k s
  unfolding on_chain
  on_chain-limit none l s k h = cc
  on_chain-limit (some c) l s k h =
      let chain = c.requested_model ∷ c.fallback_models in
      let (sel, t) = select_available_model R (select_params q l) chain s in
      let (e, same) = on_selection-limit R type c.requested_model sel t h in
      rw same (refused_charges_nothing R (select_params q l) chain s k (ap (λ x. (x, t)) e))

  charged : UserLimits → ℤ → ℤ
  charged l n = if is_limit (user_day_limit (select_params q l)) then n +ℤ pos 1 else n

  on_chain-full :
      (o : Option ModelChain) (l : UserLimits) (s : State) {s' : State}
      → on_chain R q l o s ≡ (rejected queue_full, s')
      → get_or_zero R user_key s' ≡ charged l (get_or_zero R user_key s)
  unfolding on_chain charged
  on_chain-full none l s h = cc
  on_chain-full (some c) l s h =
      let chain = c.requested_model ∷ c.fallback_models in
      let (sel, t) = select_available_model R (select_params q l) chain s in
      let (m, rpm, rpd, e, same) = on_selection-full R type c.requested_model sel t h in
      same user_key ∙ (selected_charges_once R (select_params q l) chain s (ap (λ x. (x, t)) e)).0

  fields-cached :
      (s : State) (m : String) → fields R (cached s) (model_limits m) ≡ fields R s (model_limits m)
  unfolding get_cached_user_limits
  fields-cached s m = elim (Bool-cases (is_empty (fields R s (user_limits q.user_id)))) [
    | inl e ↦ rw (e, cached) (simp redis_laws)
    | inr e ↦ rw (e, cached)
  ]

  -- The bound on the queue of a model, from its hash.
  abbrev pub max_queue : State → String → ℕ
  max_queue s m =
      let hash = fields R s (model_limits m) in
      compute_max_queue_length (limit_field "rpm" hash) (limit_field "rpd" hash) (avg_seconds type)

  on_chain-ready :
      (o : Option ModelChain) (l : UserLimits) (s : State) {r m : String} {s' : State}
      → on_chain R q l o s ≡ (ready r m, s')
      → (get_or_zero R (queue_waiting_model m) s'
          ≡ get_or_zero R (queue_waiting_model m) s +ℤ pos 1)
        × (get_or_zero R (queue_waiting_model m) s' ≤ℤ pos (max_queue s m))
  unfolding on_chain
  on_chain-ready none l s h = cc
  on_chain-ready (some c) l s {r} {m} {s'} h =
      let chain = c.requested_model ∷ c.fallback_models in
      let p = select_params q l in
      let (sel, t) = select_available_model R p chain s in
      let (rpm, rpd, e, up, bound) = on_selection-ready R type c.requested_model sel t h in
      let (er, ed) =
        selected-limits R p chain s {m = m} {rpm = rpm} {rpd = rpd} {s' = t} (ap (λ x. (x, t)) e) in
      (
        up ∙ ap (λ n. n +ℤ pos 1) (select-other_counters R p chain s (queue_waiting_model m) refl),
        rw (← er, ← ed) bound,
      )

  -- A submission that a limit refuses, or that finds no model, has changed no counter.
  pub rejected_by_limit :
      (s : State) (k : Key) {e : SelectionError} {s' : State}
      → prepare_job_submission R q s ≡ (rejected (limit e), s')
      → get_or_zero R k s' ≡ get_or_zero R k s
  rejected_by_limit s k h =
      unfold prepare_job_submission in
      on_chain-limit (resolve_model_chain R q.mode (cached s)) (limits s) (cached s) k h
      ∙ count-cached s k

  -- A submission that the full queue refuses stays charged to its user, where the user has a limit
  -- of the day: the charge of the selected model is not given back.
  pub queue_full_keeps_charge :
      (s : State) {s' : State}
      → prepare_job_submission R q s ≡ (rejected queue_full, s')
      → is_limit (user_day_limit (select_params q (limits s))) ≡ true
      → get_or_zero R user_key s' ≡ get_or_zero R user_key s +ℤ pos 1
  queue_full_keeps_charge s {s'} h l =
      unfold prepare_job_submission charged in
      ground (
        arith,
        on_chain-full (resolve_model_chain R q.mode (cached s)) (limits s) (cached s) {s' = s'} h,
        count-cached s user_key,
      )

  -- A submission that is ready has taken one place in the queue of its model, and the queue is not
  -- longer than the bound for that model.
  pub ready_takes_slot :
      (s : State) {r m : String} {s' : State}
      → prepare_job_submission R q s ≡ (ready r m, s')
      → (get_or_zero R (queue_waiting_model m) s'
          ≡ get_or_zero R (queue_waiting_model m) s +ℤ pos 1)
        × (get_or_zero R (queue_waiting_model m) s' ≤ℤ pos (max_queue s m))
  ready_takes_slot s {r} {m} {s'} h =
      unfold prepare_job_submission in
      (let (up, bound) =
          on_chain-ready (resolve_model_chain R q.mode (cached s)) (limits s) (cached s) h in
        (
          up ∙ ap (λ n. n +ℤ pos 1) (count-cached s (queue_waiting_model m)),
          rw (fields-cached s m) at bound,
        ))
