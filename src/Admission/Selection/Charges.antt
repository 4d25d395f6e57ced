-- ===== src/Admission/Selection/Charges.antt =====
-- What the loop over the chain charges to the user, and which model it selects.
use z1mak_cv_queue.Prelude.{List, String, [], ap, arith, false, if◌then◌else◌, refl, ◌∷◌, ◌≡◌, ◌≢◌}
use z1mak_cv_queue.Prelude.Int.{pos, ℤ, ◌+ℤ◌}
use z1mak_cv_queue.Admission.Selection.{
  SelectParams, SelectionError, attempt, limit_field, refused, select_args, select_available_model,
  selected, user_day_limit,
}
use z1mak_cv_queue.Redis.{
  Key, Redis, fields, key_eq, model_limits, user_active_jobs, user_type_rpd, zremrangebyscore,
}
use z1mak_cv_queue.Redis.Laws.{redis_laws}
use z1mak_cv_queue.Scripts.Acquire.{Within, get_or_zero, is_limit}
use z1mak_cv_queue.Scripts.Acquire.Laws.{
  acquire-charges_user, acquire-fields, acquire-other_counters, acquire-refused,
}

module _ (R : Redis) (p : SelectParams) where
  open R use {State, exec}

  abbrev user_key : Key
  user_key = user_type_rpd p.user_id p.mode_type p.today_pt

  -- The user's expired locks are dropped.
  abbrev clean : State → State
  clean s = exec (user_active_jobs p.user_id, zremrangebyscore p.now) s

  attempt-refused :
      (c : String) (s : State) → (attempt R p c s).0 ≢ pos 1 → (attempt R p c s).1 ≡ clean s
  unfolding attempt select_args
  attempt-refused c s n =
      acquire-refused R p.user_id p.mode_type p.today_pt c
        (select_args p (limit_field "rpd" (fields R s (model_limits c)))) s refl n

  attempt-charges :
      (c : String) (s : State)
      → (attempt R p c s).0 ≡ pos 1
      → (get_or_zero R user_key (attempt R p c s).1 ≡ (
          if is_limit (user_day_limit p)
          then get_or_zero R user_key s +ℤ pos 1
          else get_or_zero R user_key s))
        × Within (user_day_limit p) (get_or_zero R user_key (attempt R p c s).1)
  unfolding attempt select_args
  attempt-charges c s e =
      acquire-charges_user R p.user_id p.mode_type p.today_pt c
        (select_args p (limit_field "rpd" (fields R s (model_limits c)))) s
        (ap (λ x. (x, (attempt R p c s).1)) e)

  count-clean : (s : State) (k : Key) → get_or_zero R k (clean s) ≡ get_or_zero R k s
  unfolding get_or_zero
  count-clean s k = simp redis_laws (ground arith)

  -- A submission that is refused has charged nothing: no counter of any user or model has changed.
  pub refused_charges_nothing :
      (chain : List String) (s : State) (k : Key) {e : SelectionError} {s' : State}
      → select_available_model R p chain s ≡ (refused e, s')
      → get_or_zero R k s' ≡ get_or_zero R k s
  unfolding select_available_model
  refused_charges_nothing [] s k h = ground arith
  refused_charges_nothing (c ∷ chain) s k {e} {s'} h = ground (
    arith,
    refused_charges_nothing chain s k {e = e} {s' = s'},
    refused_charges_nothing chain (attempt R p c s).1 k {e = e} {s' = s'},
    attempt-refused c s,
    count-clean s k,
  )

  -- A submission that is admitted has charged its user exactly once, whichever model of the chain
  -- was selected and however many were tried, and within the user's limit of the day; a user
  -- without a limit is not charged.
  pub selected_charges_once :
      (chain : List String) (s : State) {m : String} {rpm rpd : ℤ} {s' : State}
      → select_available_model R p chain s ≡ (selected m rpm rpd, s')
      → (get_or_zero R user_key s' ≡ (
          if is_limit (user_day_limit p)
          then get_or_zero R user_key s +ℤ pos 1
          else get_or_zero R user_key s))
        × Within (user_day_limit p) (get_or_zero R user_key s')
  unfolding select_available_model
  selected_charges_once [] s h = ground arith
  selected_charges_once (c ∷ chain) s {m} {rpm} {rpd} {s'} h = ground (
    arith,
    selected_charges_once chain s {m = m} {rpm = rpm} {rpd = rpd} {s' = s'},
    selected_charges_once chain (attempt R p c s).1 {m = m} {rpm = rpm} {rpd = rpd} {s' = s'},
    attempt-refused c s,
    attempt-charges c s,
    count-clean s user_key,
  )

  pub attempt-other_counters :
      (c : String) (s : State) (k : Key)
      → key_eq user_key k ≡ false
      → get_or_zero R k (attempt R p c s).1 ≡ get_or_zero R k s
  unfolding attempt select_args
  attempt-other_counters c s k h =
      acquire-other_counters R p.user_id p.mode_type p.today_pt c
        (select_args p (limit_field "rpd" (fields R s (model_limits c)))) s k h

  pub select-other_counters :
      (chain : List String) (s : State) (k : Key)
      → key_eq user_key k ≡ false
      → get_or_zero R k (select_available_model R p chain s).1 ≡ get_or_zero R k s
  unfolding select_available_model
  select-other_counters [] s k h = refl
  select-other_counters (c ∷ chain) s k h = ground (
    arith,
    select-other_counters chain s k h,
    select-other_counters chain (attempt R p c s).1 k h,
    attempt-other_counters c s k h,
  )

  pub attempt-fields :
      (c : String) (s : State) (k : Key) → fields R (attempt R p c s).1 k ≡ fields R s k
  unfolding attempt select_args
  attempt-fields c s k =
      acquire-fields R p.user_id p.mode_type p.today_pt c
        (select_args p (limit_field "rpd" (fields R s (model_limits c)))) s k

  -- The limits that come with the selected model are those of its hash.
  pub selected-limits :
      (chain : List String) (s : State) {m : String} {rpm rpd : ℤ} {s' : State}
      → select_available_model R p chain s ≡ (selected m rpm rpd, s')
      → (rpm ≡ limit_field "rpm" (fields R s (model_limits m)))
        × (rpd ≡ limit_field "rpd" (fields R s (model_limits m)))
  unfolding select_available_model
  selected-limits [] s h = cc
  selected-limits (c ∷ chain) s {m} {rpm} {rpd} {s'} h = ground (
    arith,
    selected-limits chain s {m = m} {rpm = rpm} {rpd = rpd} {s' = s'},
    selected-limits chain (attempt R p c s).1 {m = m} {rpm = rpm} {rpd = rpd} {s' = s'},
    attempt-fields c s (model_limits m),
  )
