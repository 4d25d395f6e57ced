-- ===== src/Scripts/Release.antt =====
-- The scripts that give back what a job took: returnTokensAtomic.lua, decrAndClampToZero.lua and
-- expireStaleJob.lua of redis/luaScripts. A key is `none` where the caller passes '__nil__'.
pub mod Laws
pub mod Expired
use z1mak_cv_queue.Prelude.{
  List, Option, String, [], if◌then◌else◌, ltb, none, not, some, str_eq, ℕ, ◌∷◌,
}
use z1mak_cv_queue.Prelude.Int.{ltb_ℤ, pos, ℤ, ◌-ℤ◌}
use z1mak_cv_queue.Redis.{Key, Redis, expire, hset, pipeline, set, when, zrem}
use z1mak_cv_queue.Scripts.Acquire.{get_or_zero}

-- `next_val = current - amount; if next_val < 0 then next_val = 0 end`
unfoldable pub clamp_sub : ℤ → ℤ → ℤ
clamp_sub current amount =
    let next = current -ℤ amount in if ltb_ℤ next (pos 0) then pos 0 else next

-- ARGV[1] to ARGV[4] of returnTokensAtomic.lua
pub record ReturnArgs : Type 0 where
  pub amount : ℤ
  pub minute_ttl : ℕ
  pub day_ttl : ℕ
  pub user_day_ttl : ℕ

-- ARGV[1] to ARGV[7] of expireStaleJob.lua
pub record ExpireArgs : Type 0 where
  pub day_ttl : ℕ
  pub finished_at : String
  pub updated_at : String
  pub status : String
  pub error : String
  pub error_code : String
  pub job_id : String

module _ (R : Redis) where
  open R use {State, exec}

  -- The local `decrAndClamp(key, ttl)` of returnTokensAtomic.lua.
  unfoldable pub decr_and_clamp : ℤ → Option Key → ℕ → State → Option ℤ × State
  decr_and_clamp amount none ttl s = (none, s)
  decr_and_clamp amount (some key) ttl s =
      let next = clamp_sub (get_or_zero R key s) amount in
      (some next, when R (ltb 0 ttl) (key, expire ttl) (exec (key, set next) s))

  unfoldable pub return_tokens_atomic :
      Option Key → Option Key → Option Key → ReturnArgs → State → List (Option ℤ) × State
  unfolding decr_and_clamp
  return_tokens_atomic rpm rpd user a s =
      let (m, s1) = decr_and_clamp a.amount rpm a.minute_ttl s in
      let (d, s2) = decr_and_clamp a.amount rpd a.day_ttl s1 in
      let (u, s3) = decr_and_clamp a.amount user a.user_day_ttl s2 in (m ∷ d ∷ u ∷ [], s3)

  unfoldable pub decr_and_clamp_to_zero : Key → State → ℤ × State
  decr_and_clamp_to_zero key s =
      let next = clamp_sub (get_or_zero R key s) (pos 1) in (next, exec (key, set next) s)

  -- The first block of expireStaleJob.lua.
  unfoldable pub drop_waiting : Option Key → State → State
  unfolding decr_and_clamp_to_zero
  drop_waiting none s = s
  drop_waiting (some key) s = (decr_and_clamp_to_zero key s).1

  -- `not isNilKey(KEYS[2]) and jobId ~= ''`
  unfoldable pub drop_lock : Option Key → String → State → State
  drop_lock none job_id s = s
  drop_lock (some key) job_id s = when R (not (str_eq job_id "")) (key, zrem job_id) s

  unfoldable pub refund_user : Option Key → ℕ → State → State
  unfolding decr_and_clamp_to_zero
  refund_user none ttl s = s
  refund_user (some key) ttl s =
      when R (ltb 0 ttl) (key, expire ttl) (decr_and_clamp_to_zero key s).1

  unfoldable pub expire_stale_job :
      Option Key → Option Key → Option Key → Key → Key → ExpireArgs → State → State
  unfolding pipeline
  expire_stale_job waiting active rpd result meta a s =
      pipeline R
        ((
          result,
          hset (
              ("status", a.status)
              ∷ ("error", a.error)
              ∷ ("error_code", a.error_code)
              ∷ ("finished_at", a.finished_at)
              ∷ ("expired_at", a.finished_at)
              ∷ []),
        )
          ∷ (meta, hset (("status", a.status) ∷ ("updated_at", a.updated_at) ∷ []))
          ∷ [])
        (refund_user rpd a.day_ttl (drop_lock active a.job_id (drop_waiting waiting s)))
