-- ===== src/Scripts/Release/Laws.antt =====
-- What the releasing scripts do to the counters, the locks and the records of a job.

-- A counter that is decremented by these scripts never goes below zero.
use z1mak_cv_queue.Prelude.{String, arith, false, if◌then◌else◌, none, some, ℕ, ◌≡◌}
use z1mak_cv_queue.Prelude.Int.{+ℤ_parts, -ℤ_parts, eq_of_parts, pos, ℤ, ◌+ℤ◌, ◌-ℤ◌, ◌≤ℤ◌}
use z1mak_cv_queue.Redis.{Key, Redis, count, key_eq, model_rpd, model_rpm}
use z1mak_cv_queue.Redis.Laws.{redis_laws}
use z1mak_cv_queue.Scripts.Acquire.{get_or_zero}
use z1mak_cv_queue.Scripts.Consume.{ConsumeArgs, consume_execution_limits}
use z1mak_cv_queue.Scripts.Consume.Laws.{rpd-charge, rpm-charge}
use z1mak_cv_queue.Scripts.Release.{
  ReturnArgs, clamp_sub, decr_and_clamp, decr_and_clamp_to_zero, return_tokens_atomic,
}

pub clamp_sub-nonneg : (n m : ℤ) → pos 0 ≤ℤ clamp_sub n m
unfolding clamp_sub
clamp_sub-nonneg n m = ground arith

pub clamp_sub-le : (n m : ℤ) → pos 0 ≤ℤ n → pos 0 ≤ℤ m → clamp_sub n m ≤ℤ n
unfolding clamp_sub
clamp_sub-le n m h k = ground (arith, -ℤ_parts n m)

pub clamp_sub-add : (n m : ℤ) → pos 0 ≤ℤ n → clamp_sub (n +ℤ m) m ≡ n
unfolding clamp_sub
clamp_sub-add n m h = ground (arith, +ℤ_parts n m, -ℤ_parts (n +ℤ m) m, eq_of_parts n (n +ℤ m -ℤ m))

module _ (R : Redis) (s : R.State) where
  count-decr :
      (amount : ℤ) (key : Key) (ttl : ℕ) (j : Key)
      → count R (decr_and_clamp R amount (some key) ttl s).1 j
        ≡ (if key_eq key j then some (clamp_sub (get_or_zero R key s) amount) else count R s j)
  unfolding decr_and_clamp
  count-decr amount key ttl j = simp redis_laws (ground arith)

  pub count-clamp :
      (key j : Key)
      → count R (decr_and_clamp_to_zero R key s).1 j
        ≡ (if key_eq key j then some (clamp_sub (get_or_zero R key s) (pos 1)) else count R s j)
  unfolding decr_and_clamp_to_zero
  count-clamp key j = simp redis_laws

  -- `returnTokens` names both counters of a model and no key of a user.
  abbrev returned : String → ReturnArgs → R.State
  returned model a =
      (return_tokens_atomic R (some (model_rpm model)) (some (model_rpd model)) none a s).1

  pub rpm-return :
      (model : String) (a : ReturnArgs)
      → count R (returned model a) (model_rpm model)
        ≡ some (clamp_sub (get_or_zero R (model_rpm model) s) a.amount)
  unfolding return_tokens_atomic get_or_zero
  rpm-return model a = simp redis_laws (ground arith)

  pub rpd-return :
      (model : String) (a : ReturnArgs)
      → count R (returned model a) (model_rpd model)
        ≡ some (clamp_sub (get_or_zero R (model_rpd model) s) a.amount)
  unfolding return_tokens_atomic get_or_zero
  rpd-return model a = simp redis_laws (ground arith)

  pub count-return_other :
      (model : String) (a : ReturnArgs) (j : Key)
      → key_eq (model_rpm model) j ≡ false
      → key_eq (model_rpd model) j ≡ false
      → count R (returned model a) j ≡ count R s j
  unfolding return_tokens_atomic
  count-return_other model a j h k = simp redis_laws (ground arith)

module _ (R : Redis) (model : String) (c : ConsumeArgs) (r : ReturnArgs) (s : R.State)
    {s' : R.State} where
  -- Returning what a successful run of consumeExecutionLimits took gives both counters of the
  -- model the values that they had, provided those were not negative.
  return-consume :
      consume_execution_limits R (model_rpm model) (model_rpd model) c s ≡ (pos 1, s')
      → r.amount ≡ c.amount
      → pos 0 ≤ℤ get_or_zero R (model_rpm model) s
      → pos 0 ≤ℤ get_or_zero R (model_rpd model) s
      → let t =
          (return_tokens_atomic R (some (model_rpm model)) (some (model_rpd model)) none r s').1 in
        (get_or_zero R (model_rpm model) t ≡ get_or_zero R (model_rpm model) s)
        × (get_or_zero R (model_rpd model) t ≡ get_or_zero R (model_rpd model) s)
  return-consume h e m d =
      unfold consume_execution_limits get_or_zero in
      ground (
        arith,
        rpm-charge R model c s,
        rpd-charge R model c s,
        rpm-return R s' model r,
        rpd-return R s' model r,
        clamp_sub-add (get_or_zero R (model_rpm model) s) c.amount,
        clamp_sub-add (get_or_zero R (model_rpd model) s) c.amount,
      )
