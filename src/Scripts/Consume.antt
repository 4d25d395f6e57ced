-- ===== src/Scripts/Consume.antt =====
-- redis/luaScripts/consumeExecutionLimits.lua, which the worker runs before it calls the provider,
-- and ConsumeCode of types/queueCodes.ts.
pub mod Laws
use z1mak_cv_queue.Prelude.{[], if◌then◌else◌, ℕ, ◌∷◌}
use z1mak_cv_queue.Prelude.Int.{negsuc, pos, ℤ}
use z1mak_cv_queue.Redis.{Key, Redis, expire, incrby, pipeline}
use z1mak_cv_queue.Scripts.Acquire.{get_or_zero, over}

pub data ConsumeCode : Type 0 where
  consumed model_rpm_exceeded model_rpd_exceeded user_rpd_exceeded : ConsumeCode

-- The numbers of the enum.
abbrev pub consume_code : ConsumeCode → ℤ
consume_code consumed = pos 1
consume_code model_rpm_exceeded = negsuc 0
consume_code model_rpd_exceeded = negsuc 1
consume_code user_rpd_exceeded = negsuc 2

-- ARGV[1] to ARGV[5]
pub record ConsumeArgs : Type 0 where
  pub minute_limit : ℤ
  pub day_limit : ℤ
  pub minute_ttl : ℕ
  pub day_ttl : ℕ
  pub amount : ℤ

module _ (R : Redis) where
  open R use {State, exec}

  -- The lines under `Consume`: both counters, with their times to live.
  unfoldable pub charge : Key → Key → ConsumeArgs → State → State
  unfolding pipeline
  charge rpm rpd a = pipeline R (
      (rpm, incrby a.amount)
      ∷ (rpm, expire a.minute_ttl)
      ∷ (rpd, incrby a.amount)
      ∷ (rpd, expire a.day_ttl)
      ∷ [])

  unfoldable pub consume_execution_limits : Key → Key → ConsumeArgs → State → ℤ × State
  consume_execution_limits rpm rpd a s =
      if over a.minute_limit (get_or_zero R rpm s) a.amount
      then (negsuc 0, s)
      else if over a.day_limit (get_or_zero R rpd s) a.amount
      then (negsuc 1, s)
      else (pos 1, charge rpm rpd a s)
