-- ===== src/Admission/Submission/Charged.antt =====
-- What a submission that is ready has charged to its user.
use z1mak_cv_queue.Prelude.{
  List, Option, String, ap, arith, false, if◌then◌else◌, none, refl, some, sym, ◌∙◌, ◌∷◌, ◌≡◌,
}
use z1mak_cv_queue.Prelude.Int.{negsuc, pos, ℤ, ◌+ℤ◌}
use z1mak_cv_queue.Admission.Selection.{
  Selection, refused, select_available_model, selected, user_day_limit,
}
use z1mak_cv_queue.Admission.Selection.Charges.{selected_charges_once}
use z1mak_cv_queue.Admission.Submission.{
  Submission, on_chain, on_selection, prepare_job_submission, ready, select_params, take_slot,
}
use z1mak_cv_queue.Admission.Submission.Outcomes.{count-cached}
use z1mak_cv_queue.Limits.{UserLimits, get_cached_user_limits}
use z1mak_cv_queue.Models.{ModelChain, resolve_model_chain}
use z1mak_cv_queue.Modes.{get_mode_type}
use z1mak_cv_queue.Redis.{Key, ModeType, Redis, incrby, key_eq, queue_waiting_model, user_type_rpd}
use z1mak_cv_queue.Redis.Laws.{count-exec}
use z1mak_cv_queue.Scripts.Acquire.{get_or_zero, is_limit}

module _ (R : Redis) (type : ModeType) (c : String) (k : Key) where
  open R use {State}

  slot-other :
      (model : String) (rpm rpd : ℤ) (s : State)
      → key_eq (queue_waiting_model model) k ≡ false
      → get_or_zero R k (take_slot R type c model rpm rpd s).1 ≡ get_or_zero R k s
  unfolding take_slot get_or_zero
  slot-other model rpm rpd s h = ground (
    arith,
    count-exec R (queue_waiting_model model) (incrby (pos 1)) s k,
    count-exec R (queue_waiting_model model) (incrby (negsuc 0))
        (R.exec (queue_waiting_model model, incrby (pos 1)) s) k,
  )

  slot-model :
      (model : String) (rpm rpd : ℤ) (s : State) {r m : String} {s' : State}
      → take_slot R type c model rpm rpd s ≡ (ready r m, s')
      → s' ≡ (take_slot R type c model rpm rpd s).1
  slot-model model rpm rpd s h = sym (ap (λ x. x.1) h)

module _ (R : Redis) (q : Submission) where
  open R use {State}

  abbrev type : ModeType
  type = get_mode_type q.mode

  abbrev limits : State → UserLimits
  limits s = (get_cached_user_limits R q.user_id q.user_role q.db_limits s).0

  abbrev user_key : Key
  user_key = user_type_rpd q.user_id type q.today_pt

  charged_once : UserLimits → ℤ → ℤ
  charged_once l n = if is_limit (user_day_limit (select_params q l)) then n +ℤ pos 1 else n

  selection-charges :
      (l : UserLimits) (chain : List String) (s : State) (c : String) (sel : Selection) (t : State)
      {r m : String} {s' : State}
      → select_available_model R (select_params q l) chain s ≡ (sel, t)
      → on_selection R type c (sel, t) ≡ (ready r m, s')
      → get_or_zero R user_key s' ≡ charged_once l (get_or_zero R user_key s)
  unfolding on_selection charged_once
  selection-charges l chain s c (refused e) t d h = cc
  selection-charges l chain s c (selected model rpm rpd) t {r} {m} {s'} d h =
      ap (get_or_zero R user_key) (slot-model R type c user_key model rpm rpd t h)
      ∙ slot-other R type c user_key model rpm rpd t refl
      ∙ (selected_charges_once R (select_params q l) chain s d).0

  chain-charges :
      (o : Option ModelChain) (l : UserLimits) (s : State) {r m : String} {s' : State}
      → on_chain R q l o s ≡ (ready r m, s')
      → get_or_zero R user_key s' ≡ charged_once l (get_or_zero R user_key s)
  unfolding on_chain
  chain-charges none l s h = cc
  chain-charges (some c) l s h =
      let chain = c.requested_model ∷ c.fallback_models in
      let (sel, t) = select_available_model R (select_params q l) chain s in
      selection-charges l chain s c.requested_model sel t refl h

  -- A submission that is ready has charged its user one request of the day, if the user has a limit of
  -- the day, and else nothing.
  pub ready_charges :
      (s : State) {r m : String} {s' : State}
      → prepare_job_submission R q s ≡ (ready r m, s')
      → get_or_zero R user_key s' ≡ (
          if is_limit (user_day_limit (select_params q (limits s)))
          then get_or_zero R user_key s +ℤ pos 1
          else get_or_zero R user_key s)
  unfolding prepare_job_submission charged_once
  ready_charges s h =
      let (l, t) = get_cached_user_limits R q.user_id q.user_role q.db_limits s in
      chain-charges (resolve_model_chain R q.mode t) l t h
      ∙ ap (charged_once l) (count-cached R q s user_key)
