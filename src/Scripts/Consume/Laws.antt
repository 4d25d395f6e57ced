-- ===== src/Scripts/Consume/Laws.antt =====
-- What consumeExecutionLimits.lua does to the counters of a model.
use z1mak_cv_queue.Prelude.{String, arith, some, true, ◌≡◌, ◌≢◌, ◌⊎◌}
use z1mak_cv_queue.Prelude.Int.{pos, ℤ, ◌+ℤ◌}
use z1mak_cv_queue.Redis.{Key, Redis, count, fields, model_rpd, model_rpm}
use z1mak_cv_queue.Redis.Laws.{redis_laws}
use z1mak_cv_queue.Scripts.Acquire.{Within, get_or_zero, over}
use z1mak_cv_queue.Scripts.Consume.{ConsumeArgs, charge, consume_execution_limits}

module _ (R : Redis) (model : String) (a : ConsumeArgs) (s : R.State) where
  pub rpm-charge :
      count R (charge R (model_rpm model) (model_rpd model) a s) (model_rpm model)
      ≡ some (get_or_zero R (model_rpm model) s +ℤ a.amount)
  unfolding charge get_or_zero
  rpm-charge = simp redis_laws

  pub rpd-charge :
      count R (charge R (model_rpm model) (model_rpd model) a s) (model_rpd model)
      ≡ some (get_or_zero R (model_rpd model) s +ℤ a.amount)
  unfolding charge get_or_zero
  rpd-charge = simp redis_laws

  pub fields-charge :
      (k : Key) → fields R (charge R (model_rpm model) (model_rpd model) a s) k ≡ fields R s k
  unfolding charge
  fields-charge k = simp redis_laws (ground arith)

  -- A run that returns 1 has added the amount to both counters of the model, and both stay within
  -- their limits wherever a limit is set.
  consume_bounds :
      {s' : R.State}
      → consume_execution_limits R (model_rpm model) (model_rpd model) a s ≡ (pos 1, s')
      → (get_or_zero R (model_rpm model) s' ≡ get_or_zero R (model_rpm model) s +ℤ a.amount)
        × (get_or_zero R (model_rpd model) s' ≡ get_or_zero R (model_rpd model) s +ℤ a.amount)
        × Within a.minute_limit (get_or_zero R (model_rpm model) s')
        × Within a.day_limit (get_or_zero R (model_rpd model) s')
  unfolding consume_execution_limits get_or_zero over
  consume_bounds {s'} h = ground (arith, rpm-charge, rpd-charge)

  -- A run that returns another code has changed nothing, and some limit that is set leaves no room
  -- for the amount.
  consume_refused :
      {s' : R.State} {code : ℤ}
      → consume_execution_limits R (model_rpm model) (model_rpd model) a s ≡ (code, s')
      → code ≢ pos 1
      → (s' ≡ s)
        × ((over a.minute_limit (get_or_zero R (model_rpm model) s) a.amount ≡ true)
            ⊎ (over a.day_limit (get_or_zero R (model_rpd model) s) a.amount ≡ true))
  unfolding consume_execution_limits
  consume_refused h n = ground arith
