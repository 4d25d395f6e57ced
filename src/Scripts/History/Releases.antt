-- ===== src/Scripts/History/Releases.antt =====
-- The scripts that charge a model, give back and expire, and the waiting counters, against the limits of
-- the counters and of the locks.
use z1mak_cv_queue.Prelude.{
  Bool, Option, String, false, if◌then◌else◌, ltb, none, not, refl, some, str_eq, true, ℕ, ◌∙◌, ◌≡◌,
}
use z1mak_cv_queue.Prelude.Int.{negsuc, pos, ℤ}
use z1mak_cv_queue.Redis.{
  Command, Key, Redis, expire, hset, incrby, model_rpd, model_rpm, pipeline, queue_waiting_model,
  set, when, zrem,
}
use z1mak_cv_queue.Scripts.Acquire.{over}
use z1mak_cv_queue.Scripts.Consume.{charge, consume_execution_limits}
use z1mak_cv_queue.Scripts.History.{Policy, charges, refunds, run_call}
use z1mak_cv_queue.Scripts.History.Commands.{
  Good-add, Good-sub, IsBounded, Lowers-IsBounded, counter_limit, exec-IsBounded, incr-IsBounded,
  set-IsBounded, value, value-exec,
}
use z1mak_cv_queue.Scripts.Release.{
  ExpireArgs, clamp_sub, decr_and_clamp, decr_and_clamp_to_zero, drop_lock, drop_waiting,
  expire_stale_job, refund_user, return_tokens_atomic,
}

module _ (R : Redis) (p : Policy) where
  open R use {State, exec}

  abbrev Kept : State → Type 0
  Kept = IsBounded R p

  pub when-IsBounded :
      (b : Bool) (c : Command) (s : State)
      → Kept s
      → (b ≡ true → Kept (exec c s))
      → Kept (when R b c s)
  unfolding when
  when-IsBounded true c s k h = h refl
  when-IsBounded false c s k h = k

  pub branch-IsBounded :
      (b : Bool) (code : ℤ) (s : State) (r : ℤ × State)
      → Kept s
      → (b ≡ false → Kept (r.1))
      → Kept ((if b then (code, s) else r).1)
  branch-IsBounded true code s r k h = k
  branch-IsBounded false code s r k h = h refl

  -- EXPIRE under a test.
  pub expire-IsBounded :
      (b : Bool) (k : Key) (ttl : ℕ) (s : State) → Kept s → Kept (when R b (k, expire ttl) s)
  expire-IsBounded b k ttl s h =
      when-IsBounded b (k, expire ttl) s h (λ _. Lowers-IsBounded R p k (expire ttl) s tt h)

  pub charge-IsBounded :
      (model : String) (minute_ttl day_ttl : ℕ) (s : State)
      → Kept s
      → Kept (run_call R p (charges model minute_ttl day_ttl) s)
  unfolding run_call consume_execution_limits charge pipeline
  charge-IsBounded model minute_ttl day_ttl s b =
      let rpm = model_rpm model in
      let rpd = model_rpd model in
      let s1 = exec (rpm, incrby (pos 1)) s in
      let s2 = exec (rpm, expire minute_ttl) s1 in
      let s3 = exec (rpd, incrby (pos 1)) s2 in
      branch-IsBounded (over (p.model_minute model) (value R rpm s) (pos 1)) (negsuc 0) s _ b λ m.
        branch-IsBounded (over (p.model_day model) (value R rpd s) (pos 1)) (negsuc 1) s _ b λ d.
          let b1 =
            incr-IsBounded R p rpm s (λ owner e. cc)
              (Good-add (p.model_minute model) (value R rpm s) (b.counters rpm refl) m) b in
          let b2 = Lowers-IsBounded R p rpm (expire minute_ttl) s1 tt b1 in
          let same : value R rpd s2 ≡ value R rpd s =
            value-exec R rpm (expire minute_ttl) s1 rpd ∙ value-exec R rpm (incrby (pos 1)) s rpd in
          let b3 =
            incr-IsBounded R p rpd s2 (λ owner e. cc)
              (rw same (Good-add (p.model_day model) (value R rpd s) (b.counters rpd refl) d)) b2 in
          Lowers-IsBounded R p rpd (expire day_ttl) s3 tt b3

  decr-IsBounded :
      (k : Key) (ttl : ℕ) (s : State) → Kept s → Kept ((decr_and_clamp R (pos 1) (some k) ttl s).1)
  unfolding decr_and_clamp
  decr-IsBounded k ttl s b =
      let next = clamp_sub (value R k s) (pos 1) in
      expire-IsBounded (ltb 0 ttl) k ttl (exec (k, set next) s) (
        set-IsBounded R p k next s
          (λ h. Good-sub (counter_limit p k) (value R k s) (b.counters k h)) b)

  pub return-IsBounded :
      (model : String) (minute_ttl day_ttl : ℕ) (s : State)
      → Kept s
      → Kept (run_call R p (refunds model minute_ttl day_ttl) s)
  unfolding run_call return_tokens_atomic
  return-IsBounded model minute_ttl day_ttl s b =
      decr-IsBounded (model_rpd model) day_ttl _ (decr-IsBounded (model_rpm model) minute_ttl s b)

  pub clamp-IsBounded : (k : Key) (s : State) → Kept s → Kept ((decr_and_clamp_to_zero R k s).1)
  unfolding decr_and_clamp_to_zero
  clamp-IsBounded k s b =
      set-IsBounded R p k (clamp_sub (value R k s) (pos 1)) s
        (λ h. Good-sub (counter_limit p k) (value R k s) (b.counters k h)) b

  -- INCR and DECR of the waiting counter of a queue.
  pub queue-IsBounded :
      (model : String) (n : ℤ) (s : State)
      → Kept s
      → Kept (exec (queue_waiting_model model, incrby n) s)
  queue-IsBounded model n s b =
      exec-IsBounded R p (queue_waiting_model model) (incrby n) s b (λ h. cc) (λ owner same. cc)

  waiting-IsBounded : (k : Option Key) (s : State) → Kept s → Kept (drop_waiting R k s)
  unfolding drop_waiting
  waiting-IsBounded none s b = b
  waiting-IsBounded (some k) s b = clamp-IsBounded k s b

  lock-IsBounded : (k : Option Key) (job : String) (s : State) → Kept s → Kept (drop_lock R k job s)
  unfolding drop_lock
  lock-IsBounded none job s b = b
  lock-IsBounded (some k) job s b =
      when-IsBounded (not (str_eq job "")) (k, zrem job) s b
        (λ _. Lowers-IsBounded R p k (zrem job) s tt b)

  refund-IsBounded : (k : Option Key) (ttl : ℕ) (s : State) → Kept s → Kept (refund_user R k ttl s)
  unfolding refund_user
  refund-IsBounded none ttl s b = b
  refund-IsBounded (some k) ttl s b =
      expire-IsBounded (ltb 0 ttl) k ttl ((decr_and_clamp_to_zero R k s).1) (clamp-IsBounded k s b)

  pub expire_job-IsBounded :
      (waiting active day : Option Key) (result meta : Key) (args : ExpireArgs) (s : State)
      → Kept s
      → Kept (expire_stale_job R waiting active day result meta args s)
  unfolding expire_stale_job pipeline
  expire_job-IsBounded waiting active day result meta args s b =
      Lowers-IsBounded R p meta (hset _) _ tt (
        Lowers-IsBounded R p result (hset _) _ tt (
          refund-IsBounded day args.day_ttl _
            (lock-IsBounded active args.job_id _ (waiting-IsBounded waiting s b))))
