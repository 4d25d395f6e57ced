-- ===== src/Admission/Selection.antt =====
-- routes/resume/modelSelection.ts: the first model of the chain that the limits admit.
pub mod Charges
pub mod First
use z1mak_cv_queue.Prelude.{
  Assoc, Bool, List, Option, String, [], if◌then◌else◌, is_empty, lookup, none, or_else, some, ℕ,
  ◌∷◌,
}
use z1mak_cv_queue.Prelude.Int.{eqb_ℤ, pos, ℤ}
use z1mak_cv_queue.Js.{number_of, to_int}
use z1mak_cv_queue.Limits.{UserLimits}
use z1mak_cv_queue.Redis.{ModeType, Redis, fields, hard, lite, model_limits}
use z1mak_cv_queue.Scripts.Acquire.{
  AcquireArgs, AcquireCode, AcquireKeys, acquire_keys, code_of, combined_check_and_acquire,
}

pub data SelectionError : Type 0 where
  concurrency_limit : SelectionError
  user_rpd_limit : ModeType → SelectionError
  model_limit : SelectionError

pub data Selection : Type 0 where
  selected : String → ℤ → ℤ → Selection
  refused : SelectionError → Selection

-- The arguments of `selectAvailableModel` that stay the same along the chain.
pub record SelectParams : Type 0 where
  pub user_id : String
  pub is_admin : Bool
  pub user_limits : UserLimits
  pub mode_type : ModeType
  pub today_pt : String
  pub day_ttl : ℕ
  pub now : ℕ
  pub job_id : String
  pub concurrency_ttl : ℕ

-- `Number(hash.f ?? 0)`
unfoldable pub limit_field : String → Assoc String → ℤ
limit_field k h = elim (lookup k h) [ none ↦ pos 0 | some t ↦ to_int (number_of t) ]

abbrev rpd_of : ModeType → UserLimits → Option ℤ
rpd_of hard l = l.hard_rpd
rpd_of lite l = l.lite_rpd

unfoldable pub user_day_limit : SelectParams → ℤ
user_day_limit p = if p.is_admin then pos 0 else or_else (rpd_of p.mode_type p.user_limits) (pos 0)

unfoldable pub concurrency_limit_of : SelectParams → ℤ
concurrency_limit_of p = if p.is_admin then pos 0 else or_else p.user_limits.max_concurrency (pos 0)

abbrev pub select_keys : SelectParams → String → AcquireKeys
select_keys p model = acquire_keys p.user_id p.mode_type p.today_pt model

unfoldable pub select_args : SelectParams → ℤ → AcquireArgs
unfolding user_day_limit concurrency_limit_of
select_args p day_limit = record {
  user_day_limit = user_day_limit p;
  concurrency_limit = concurrency_limit_of p;
  day_ttl = p.day_ttl;
  lock_ttl = p.concurrency_ttl;
  consume = pos 1;
  now_ms = p.now;
  job_id = p.job_id;
  model_day_limit = day_limit;
  model_day_ttl = p.day_ttl;
}

-- The four tests on the code in the loop's body; `rest` is the next round.
abbrev pub on_code {ℓ} : {A : Type ℓ} → ℤ → A → A → (SelectionError → A) → ModeType → A
on_code code found rest failed mode =
    if eqb_ℤ code (code_of AcquireCode.ok)
    then found
    else if eqb_ℤ code (code_of AcquireCode.model_rpd_exceeded)
    then rest
    else if eqb_ℤ code (code_of AcquireCode.concurrency_exceeded)
    then failed concurrency_limit
    else if eqb_ℤ code (code_of AcquireCode.user_rpd_exceeded)
    then failed (user_rpd_limit mode)
    else rest

module _ (R : Redis) where
  open R use {State}

  -- One round of the loop: the script is called for the candidate.
  unfoldable pub attempt : SelectParams → String → State → ℤ × State
  attempt p candidate s =
      let hash = fields R s (model_limits candidate) in
      combined_check_and_acquire R (select_keys p candidate)
        (select_args p (limit_field "rpd" hash)) s

  unfoldable pub select_available_model : SelectParams → List String → State → Selection × State
  select_available_model p [] s = (refused model_limit, s)
  select_available_model p (candidate ∷ chain) s =
      let hash = fields R s (model_limits candidate) in
      let skip = select_available_model p chain s in
      let (code, s') = attempt p candidate s in
      let next = select_available_model p chain s' in
      if is_empty hash
      then skip
      else on_code code (selected candidate (limit_field "rpm" hash) (limit_field "rpd" hash), s')
          next (λ e. (refused e, s')) p.mode_type
