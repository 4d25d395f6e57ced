-- ===== src/Worker/Preflight.antt =====
-- worker/preflight.ts: the wait for the limits of the models, before the workers start. The server at
-- each time is a parameter, and so is when the round after one starts: a round reads the server once.
pub mod Ready
use z1mak_cv_queue.Prelude.{
  Bool, List, Option, String, [], if◌then◌else◌, is_empty, ltb, none, not, some, suc, truthy, zero,
  ℕ, ◌&&◌, ◌-◌, ◌∷◌,
}
use z1mak_cv_queue.Prelude.Int.{pos, pos_part, ℤ}
use z1mak_cv_queue.Js.{Number, finite, infinity, nan, number_of}
use z1mak_cv_queue.Redis.{Redis, fields, members, model_ids, model_limits}
use z1mak_cv_queue.Worker.Failed.{text_field}

abbrev pub default_timeout_ms : ℤ
default_timeout_ms = pos 60000

-- `numberFromEnv`, here and in config/env.ts
abbrev pub finite_or : Number → ℤ → ℤ
finite_or (finite n) fallback = n
finite_or infinity fallback = fallback
finite_or nan fallback = fallback

unfoldable pub number_from_env : Option String → ℤ → ℤ
number_from_env none fallback = fallback
number_from_env (some raw) fallback =
    if truthy raw then finite_or (number_of raw) fallback else fallback

pub data Waited : Type 0 where
  ready : ℕ → Waited  -- at that time
  timed_out : Waited
  out_of_fuel : Waited

module _ (R : Redis) where
  open R use {State}

  unfoldable pub missing_api_names_for_ids : State → List String → List String
  missing_api_names_for_ids s [] = []
  missing_api_names_for_ids s (id ∷ ids) =
      let rest = missing_api_names_for_ids s ids in
      if truthy (text_field "api_name" (fields R s (model_limits id))) then rest else id ∷ rest

  -- The tests of a round.
  unfoldable pub limits_are_ready : State → Bool
  unfolding missing_api_names_for_ids
  limits_are_ready s =
      let ids = members R s model_ids in
      not (is_empty ids) && is_empty (missing_api_names_for_ids s ids)

  module _ (server : ℕ → State) (next_round : ℕ → ℕ) (timeout_ms : ℤ) (started : ℕ) where
    unfoldable pub wait_rounds : ℕ → ℕ → Waited
    unfolding limits_are_ready
    wait_rounds zero now = out_of_fuel
    wait_rounds (suc fuel) now =
        let later = wait_rounds fuel (next_round now) in
        if ltb (now - started) (pos_part timeout_ms)
        then (if limits_are_ready (server now) then ready now else later)
        else timed_out

    -- `waitForModelLimits`; a round for each millisecond is enough.
    unfoldable pub wait_for_model_limits : Waited
    unfolding wait_rounds
    wait_for_model_limits = wait_rounds (suc (pos_part timeout_ms)) started
