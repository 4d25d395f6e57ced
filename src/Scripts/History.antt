-- ===== src/Scripts/History.antt =====
-- The five scripts of redis/luaScripts and the commands beside them that touch a counter or a lock,
-- in any order, from any number of clients: Redis runs one after the other. The limits that the
-- callers pass are a parameter.
pub mod Commands
pub mod Releases
pub mod Bounded
use z1mak_cv_queue.Prelude.{List, Option, String, [], none, some, ℕ, ◌∷◌}
use z1mak_cv_queue.Prelude.Int.{negsuc, pos, ℤ}
use z1mak_cv_queue.Admission.Selection.{concurrency_limit, user_day_limit}
use z1mak_cv_queue.Redis.{
  Key, ModeType, Redis, del, incrby, job_meta, job_result, model_rpd, model_rpm,
  queue_waiting_model, user_active_jobs, user_type_rpd, zrem, zremrangebyscore,
}
use z1mak_cv_queue.Scripts.Acquire.{AcquireArgs, acquire_keys, combined_check_and_acquire}
use z1mak_cv_queue.Scripts.Consume.{ConsumeArgs, consume_execution_limits}
use z1mak_cv_queue.Scripts.Release.{
  ExpireArgs, ReturnArgs, decr_and_clamp_to_zero, expire_stale_job, return_tokens_atomic,
}

-- The limits that hold while a history runs. One that is not positive binds nothing.
pub record Policy : Type 0 where
  pub user_day : String → ModeType → ℤ
  pub user_jobs : String → ℤ
  pub model_minute : String → ℤ
  pub model_day : String → ℤ

-- A call, with what its caller chooses. `gives_up` is the raw DECR of a job that a full queue or a
-- failed write turns away, where the other ways out of a queue run the script. `lapses` is the server's: the time to live of a key ends.
pub data ScriptCall : Type 0 where
  admits :
      (user : String) (type : ModeType) (date model job : String)
      (now day_ttl lock_ttl model_ttl : ℕ)
      → ScriptCall
  charges : (model : String) (minute_ttl day_ttl : ℕ) → ScriptCall
  refunds : (model : String) (minute_ttl day_ttl : ℕ) → ScriptCall
  enters : (model : String) → ScriptCall
  gives_up : (model : String) → ScriptCall
  leaves : (model : String) → ScriptCall
  expires :
      (waiting active : Option String) (day : Option (String × ModeType × String))
      (args : ExpireArgs)
      → ScriptCall
  unlocks : (user job : String) → ScriptCall
  clean_ups : (user : String) (now : ℕ) → ScriptCall
  lapses : Key → ScriptCall

abbrev pub admit_args : Policy → String → ModeType → String → String → ℕ → ℕ → ℕ → ℕ → AcquireArgs
admit_args p user type model job now day_ttl lock_ttl model_ttl = record {
  user_day_limit = p.user_day user type;
  concurrency_limit = p.user_jobs user;
  day_ttl = day_ttl;
  lock_ttl = lock_ttl;
  consume = pos 1;
  now_ms = now;
  job_id = job;
  model_day_limit = p.model_day model;
  model_day_ttl = model_ttl;
}

abbrev pub charge_args : Policy → String → ℕ → ℕ → ConsumeArgs
charge_args p model minute_ttl day_ttl = record {
  minute_limit = p.model_minute model;
  day_limit = p.model_day model;
  minute_ttl = minute_ttl;
  day_ttl = day_ttl;
  amount = pos 1;
}

abbrev pub return_one : ℕ → ℕ → ReturnArgs
return_one minute_ttl day_ttl = record {
  amount = pos 1;
  minute_ttl = minute_ttl;
  day_ttl = day_ttl;
  user_day_ttl = 0;
}

abbrev key_of : {A : Type 0} → (A → Key) → Option A → Option Key
key_of f none = none
key_of f (some x) = some (f x)

abbrev day_key_of : String × ModeType × String → Key
day_key_of (user, type, date) = user_type_rpd user type date

module _ (R : Redis) (p : Policy) where
  open R use {State, exec}

  unfoldable pub run_call : ScriptCall → State → State
  run_call (admits user type date model job now day_ttl lock_ttl model_ttl) s =
      (combined_check_and_acquire R (acquire_keys user type date model)
        (admit_args p user type model job now day_ttl lock_ttl model_ttl) s).1
  run_call (charges model minute_ttl day_ttl) s =
      (consume_execution_limits R (model_rpm model) (model_rpd model)
        (charge_args p model minute_ttl day_ttl) s).1
  run_call (refunds model minute_ttl day_ttl) s =
      (return_tokens_atomic R (some (model_rpm model)) (some (model_rpd model)) none
        (return_one minute_ttl day_ttl) s).1
  run_call (enters model) s = exec (queue_waiting_model model, incrby (pos 1)) s
  run_call (gives_up model) s = exec (queue_waiting_model model, incrby (negsuc 0)) s
  run_call (leaves model) s = (decr_and_clamp_to_zero R (queue_waiting_model model) s).1
  run_call (expires waiting active day args) s =
      expire_stale_job R (key_of queue_waiting_model waiting) (key_of user_active_jobs active)
        (key_of day_key_of day) (job_result args.job_id) (job_meta args.job_id) args s
  run_call (unlocks user job) s = exec (user_active_jobs user, zrem job) s
  run_call (clean_ups user now) s = exec (user_active_jobs user, zremrangebyscore now) s
  run_call (lapses key) s = exec (key, del) s

  unfoldable pub run_history : List ScriptCall → State → State
  run_history [] s = s
  run_history (call ∷ calls) s = run_history calls (run_call call s)
