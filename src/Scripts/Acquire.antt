-- ===== src/Scripts/Acquire.antt =====
-- redis/luaScripts/combinedCheckAndAcquire.lua, which the API runs to admit a job, and AcquireCode
-- of types/queueCodes.ts.
pub mod Laws
use z1mak_cv_queue.Prelude.{
  Bool, String, if◌then◌else◌, length, not, or_else, ℕ, ◌&&◌, ◌*◌, ◌+◌, ◌⊎◌,
}
use z1mak_cv_queue.Prelude.Int.{ltb_ℤ, negsuc, pos, ℤ, ◌+ℤ◌, ◌≤ℤ◌}
use z1mak_cv_queue.Redis.{
  Key, ModeType, Redis, count, expire, incrby, model_rpd, scores, user_active_jobs, user_type_rpd,
  when, zadd, zremrangebyscore,
}

pub data AcquireCode : Type 0 where
  ok concurrency_exceeded model_rpd_exceeded user_rpd_exceeded : AcquireCode

-- The numbers of the enum.
abbrev pub code_of : AcquireCode → ℤ
code_of ok = pos 1
code_of concurrency_exceeded = pos 0
code_of model_rpd_exceeded = negsuc 1
code_of user_rpd_exceeded = negsuc 3

-- KEYS[1] to KEYS[3]
pub record AcquireKeys : Type 0 where
  pub user_rpd : Key
  pub active_jobs : Key
  pub model_day : Key

-- ARGV[1] to ARGV[9]
pub record AcquireArgs : Type 0 where
  pub user_day_limit : ℤ
  pub concurrency_limit : ℤ
  pub day_ttl : ℕ
  pub lock_ttl : ℕ
  pub consume : ℤ
  pub now_ms : ℕ
  pub job_id : String
  pub model_day_limit : ℤ
  pub model_day_ttl : ℕ

abbrev pub is_limit : ℤ → Bool
is_limit l = ltb_ℤ (pos 0) l

-- `limit > 0 and (used + consume) > limit`
unfoldable pub over : ℤ → ℤ → ℤ → Bool
over limit used consume = is_limit limit && ltb_ℤ limit (used +ℤ consume)

-- `limit > 0` and `count >= limit`
unfoldable pub full : ℤ → ℕ → Bool
full limit count = is_limit limit && not (ltb_ℤ (pos count) limit)

-- A counter within a limit; a limit that is not positive binds nothing.
abbrev pub Within : ℤ → ℤ → Type 0
Within limit n = (limit ≤ℤ pos 0) ⊎ (n ≤ℤ limit)

module _ (R : Redis) where
  open R use {State, exec}

  unfoldable pub get_or_zero : Key → State → ℤ
  get_or_zero k s = or_else (count R s k) (pos 0)

  -- Step 5 of the script.
  unfoldable pub acquire : AcquireKeys → AcquireArgs → State → State
  acquire ks a s =
      when R (is_limit a.model_day_limit) (ks.model_day, expire a.model_day_ttl)
        (when R (is_limit a.user_day_limit) (ks.user_rpd, expire a.day_ttl)
          (when R (is_limit a.user_day_limit) (ks.user_rpd, incrby a.consume)
            (when R (is_limit a.concurrency_limit)
              (ks.active_jobs, zadd (a.now_ms + a.lock_ttl * 1000) a.job_id) s)))

  -- The whole script: the number that it returns, and the state after it.
  unfoldable pub combined_check_and_acquire : AcquireKeys → AcquireArgs → State → ℤ × State
  combined_check_and_acquire ks a s0 =
      let s = exec (ks.active_jobs, zremrangebyscore a.now_ms) s0 in
      if full a.concurrency_limit (length (scores R s ks.active_jobs))
      then (pos 0, s)
      else if over a.user_day_limit (get_or_zero ks.user_rpd s) a.consume
      then (negsuc 3, s)
      else if over a.model_day_limit (get_or_zero ks.model_day s) a.consume
      then (negsuc 1, s)
      else (pos 1, acquire ks a s)

-- The keys that the API passes.
abbrev pub acquire_keys : String → ModeType → String → String → AcquireKeys
acquire_keys user type date model = record {
  user_rpd = user_type_rpd user type date;
  active_jobs = user_active_jobs user;
  model_day = model_rpd model;
}
