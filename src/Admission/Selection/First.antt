-- ===== src/Admission/Selection/First.antt =====
-- Which model the loop over the chain selects.
use z1mak_cv_queue.Prelude.{
  All, List, String, [], arith, false, is_empty, refl, true, ◌∷◌, ◌≡◌, ◌⊎◌,
}
use z1mak_cv_queue.Prelude.Int.{negsuc, pos, ℤ}
use z1mak_cv_queue.Admission.Selection.{
  SelectParams, attempt, limit_field, model_limit, refused, select_args, select_available_model,
  selected,
}
use z1mak_cv_queue.Admission.Selection.Charges.{attempt-fields, attempt-other_counters}
use z1mak_cv_queue.Redis.{Redis, fields, model_limits, model_rpd}
use z1mak_cv_queue.Scripts.Acquire.{get_or_zero, over}
use z1mak_cv_queue.Scripts.Acquire.Laws.{acquire-codes}

module _ (R : Redis) (p : SelectParams) where
  open R use {State}

  -- A model that the loop passes over: deleted, or without room for one more job today.
  abbrev pub Unavailable : State → String → Type 0
  Unavailable s c =
      let hash = fields R s (model_limits c) in
      (hash ≡ []) ⊎ (over (limit_field "rpd" hash) (get_or_zero R (model_rpd c) s) (pos 1) ≡ true)

  Unavailable-attempt :
      (c : String) (s : State) (l : List String)
      → All (Unavailable (attempt R p c s).1) l
      → All (Unavailable s) l
  Unavailable-attempt c s [] h = tt
  Unavailable-attempt c s (d ∷ l) h = (
    rw
        (
          ← attempt-fields R p c s (model_limits d),
          ← attempt-other_counters R p c s (model_rpd d) refl,
        )
        h.0,
    Unavailable-attempt c s l h.1,
  )

  -- `m` is the first model of the chain that is not passed over.
  abbrev pub IsFirst : State → List String → String → Type 0
  IsFirst s [] m = ⊥
  IsFirst s (c ∷ l) m =
      let hash = fields R s (model_limits c) in
      ((c ≡ m)
        × (is_empty hash ≡ false)
        × (over (limit_field "rpd" hash) (get_or_zero R (model_rpd c) s) (pos 1) ≡ false))
      ⊎ (Unavailable s c × IsFirst s l m)

  IsFirst-attempt :
      (c : String) (s : State) (l : List String) (m : String)
      → IsFirst (attempt R p c s).1 l m
      → IsFirst s l m
  IsFirst-attempt c s [] m h = h
  IsFirst-attempt c s (d ∷ l) m h = ground (
    arith,
    attempt-fields R p c s (model_limits d),
    attempt-other_counters R p c s (model_rpd d) refl,
    IsFirst-attempt c s l m,
  )

  attempt-codes :
      (c : String) (s : State)
      → let code = (attempt R p c s).0 in
        let hash = fields R s (model_limits c) in
        let day_full = over (limit_field "rpd" hash) (get_or_zero R (model_rpd c) s) (pos 1) in
        ((code ≡ pos 1) × (day_full ≡ false))
        ⊎ (code ≡ pos 0)
        ⊎ (code ≡ negsuc 3)
        ⊎ ((code ≡ negsuc 1) × (day_full ≡ true))
  unfolding attempt select_args
  attempt-codes c s =
      acquire-codes R p.user_id p.mode_type p.today_pt c
        (select_args p (limit_field "rpd" (fields R s (model_limits c)))) s

  -- The selected model is the first of the chain that still has limits in Redis and room for one
  -- more job today; the models before it were deleted or full.
  pub selected-IsFirst :
      (chain : List String) (s : State) {m : String} {rpm rpd : ℤ} {s' : State}
      → select_available_model R p chain s ≡ (selected m rpm rpd, s')
      → IsFirst s chain m
  unfolding select_available_model
  selected-IsFirst [] s h = cc
  selected-IsFirst (c ∷ chain) s {m} {rpm} {rpd} {s'} h = ground (
    arith,
    selected-IsFirst chain s {m = m} {rpm = rpm} {rpd = rpd} {s' = s'},
    IsFirst-attempt c s chain m,
    selected-IsFirst chain (attempt R p c s).1 {m = m} {rpm = rpm} {rpd = rpd} {s' = s'},
    attempt-codes c s,
  )

  -- MODEL_LIMIT is answered only if every model of the chain was deleted or full.
  model_limit-Unavailable :
      (chain : List String) (s : State) {s' : State}
      → select_available_model R p chain s ≡ (refused model_limit, s')
      → All (Unavailable s) chain
  unfolding select_available_model
  model_limit-Unavailable [] s h = tt
  model_limit-Unavailable (c ∷ chain) s {s'} h = ground (
    arith,
    model_limit-Unavailable chain s {s' = s'},
    model_limit-Unavailable chain (attempt R p c s).1 {s' = s'},
    Unavailable-attempt c s chain,
    attempt-codes c s,
  )
