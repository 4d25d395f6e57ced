-- ===== src/Worker/Consume.antt =====
-- worker/consumeLimitsIfNeeded.ts, consumeModelLimits.ts and returnTokens.ts.
use z1mak_cv_queue.Prelude.{Bool, String, [], if◌then◌else◌, max, none, or_else, some, ℕ, ◌*◌, ◌∷◌}
use z1mak_cv_queue.Prelude.Int.{eqb_ℤ, pos, ℤ}
use z1mak_cv_queue.Admission.Selection.{limit_field}
use z1mak_cv_queue.Redis.{Redis, fields, hset, job_meta, model_limits, model_rpd, model_rpm}
use z1mak_cv_queue.Scripts.Consume.{ConsumeCode, consume_code, consume_execution_limits}
use z1mak_cv_queue.Scripts.Release.{ReturnArgs, return_tokens_atomic}
use z1mak_cv_queue.Worker.Types.{JobData, Result, returns, throws, unrecoverable}

pub data ConsumeResult : Type 0 where
  delayed : ℕ → ConsumeResult  -- `moveToDelayed` by so many milliseconds
  charged : ConsumeResult
  skipped : ConsumeResult

-- MINUTE_TTL of worker/index.ts
abbrev pub minute_ttl : ℕ
minute_ttl = 70

-- What returnTokens passes to its script.
abbrev pub return_args : ℕ → ReturnArgs
return_args day_ttl = record {
  amount = pos 1;
  minute_ttl = minute_ttl;
  day_ttl = day_ttl;
  user_day_ttl = 0;
}

module _ (R : Redis) where
  open R use {State, exec, cell}

  unfoldable pub consume_model_limits : String → ℤ → ℤ → ℕ → State → ℤ × State
  consume_model_limits model rpm rpd day_ttl s =
      consume_execution_limits R (model_rpm model) (model_rpd model)
        (record {
          minute_limit = rpm;
          day_limit = rpd;
          minute_ttl = minute_ttl;
          day_ttl = day_ttl;
          amount = pos 1;
        })
        s

  -- `Math.max(ttl, 1) * 1000`; TTL answers a negative number where there is none.
  unfoldable pub delay_ms : String → State → ℕ
  delay_ms model s = max (or_else (cell s (model_rpm model)).ttl 0) 1 * 1000

  -- What follows the script, by its code.
  unfoldable pub after_consume : JobData → ℤ → State → Result ConsumeResult × State
  unfolding delay_ms
  after_consume job code s =
      if eqb_ℤ code (consume_code ConsumeCode.model_rpm_exceeded)
      then (
        returns (delayed (delay_ms job.model s)),
        exec (job_meta job.job_id, hset (("status", "queued") ∷ [])) s,
      )
      else if eqb_ℤ code (consume_code ConsumeCode.model_rpd_exceeded)
      then (throws (unrecoverable "MODEL_RPD_EXCEEDED"), s)
      else if eqb_ℤ code (consume_code ConsumeCode.user_rpd_exceeded)
      then (throws (unrecoverable "USER_RPD_EXCEEDED"), s)
      else (returns charged, exec (job_meta job.job_id, hset (("tokens_consumed", "true") ∷ [])) s)

  unfoldable pub consume_limits_if_needed :
      JobData → Bool → ℕ → State → Result ConsumeResult × State
  consume_limits_if_needed job already day_ttl s =
      if already
      then (returns skipped, s)
      else let hash = fields R s (model_limits job.model) in
        let (code, s') =
          consume_model_limits job.model (limit_field "rpm" hash) (limit_field "rpd" hash) day_ttl
            s in
        after_consume job code s'

  unfoldable pub return_tokens : String → ℕ → State → State
  return_tokens model day_ttl s =
      (return_tokens_atomic R (some (model_rpm model)) (some (model_rpd model)) none
        (return_args day_ttl) s).1
