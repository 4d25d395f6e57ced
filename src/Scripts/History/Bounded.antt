-- ===== src/Scripts/History/Bounded.antt =====
-- The limits of the counters and of the locks, over a history of calls.
use z1mak_cv_queue.Prelude.{
  Assoc, Bool, List, String, [], arith, false, insert, length, refl, true, ℕ, ◌*◌, ◌+◌, ◌∷◌, ◌≡◌,
  ◌≤◌,
}
use z1mak_cv_queue.Prelude.Int.{negsuc, pos, ◌+ℤ◌}
use z1mak_cv_queue.Redis.{
  Command, ModeType, Redis, del, incrby, job_meta, job_result, model_rpd, queue_waiting_model,
  scores, user_active_jobs, user_type_rpd, when, zadd, zrem, zremrangebyscore,
}
use z1mak_cv_queue.Scripts.Acquire.{
  acquire, acquire_keys, combined_check_and_acquire, full, get_or_zero, is_limit, over,
}
use z1mak_cv_queue.Scripts.History.{
  Policy, ScriptCall, admit_args, admits, charges, clean_ups, enters, expires, gives_up, lapses,
  leaves, refunds, run_call, run_history, unlocks,
}
use z1mak_cv_queue.Scripts.History.Commands.{
  FitsLocks, Good, Good-add, IsBounded, Lowers-IsBounded, exec-IsBounded, incr-IsBounded, value,
  value-exec,
}
use z1mak_cv_queue.Scripts.History.Releases.{
  branch-IsBounded, charge-IsBounded, clamp-IsBounded, expire-IsBounded, expire_job-IsBounded,
  queue-IsBounded, return-IsBounded, when-IsBounded,
}
use z1mak_cv_queue.Worker.Consume.{minute_ttl}

insert-length : (m : String) (t : ℕ) (z : Assoc ℕ) → length (insert m t z) ≤ length z + 1
unfolding insert
insert-length m t [] = omega arith
insert-length m t ((n, u) ∷ z) = ground (arith, insert-length m t z)

insert-FitsLocks :
    (p : Policy) (owner job : String) (t : ℕ) (z : Assoc ℕ)
    → full (p.user_jobs owner) (length z) ≡ false
    → FitsLocks p owner (insert job t z)
unfolding full
insert-FitsLocks p owner job t z h = ground (arith, insert-length job t z)

module _ (R : Redis) (p : Policy) where
  open R use {State, exec}

  abbrev Kept : State → Type 0
  Kept = IsBounded R p

  value-lock :
      (b : Bool) (owner job : String) (t : ℕ) (s : State) (type : ModeType) (date : String)
      → value R (user_type_rpd owner type date) (when R b (user_active_jobs owner, zadd t job) s)
        ≡ value R (user_type_rpd owner type date) s
  unfolding when
  value-lock true owner job t s type date =
      value-exec R (user_active_jobs owner) (zadd t job) s (user_type_rpd owner type date)
  value-lock false owner job t s type date = refl

  lock_added-IsBounded :
      (owner job : String) (t : ℕ) (s : State)
      → Kept s
      → full (p.user_jobs owner) (length (scores R s (user_active_jobs owner))) ≡ false
      → Kept (exec (user_active_jobs owner, zadd t job) s)
  lock_added-IsBounded owner job t s b f =
      exec-IsBounded R p (user_active_jobs owner) (zadd t job) s b
        (λ h. unfold get_or_zero in b.counters (user_active_jobs owner) h)
        λ other e.
          let same : owner ≡ other = cc in
          rw (← same) (insert-FitsLocks p owner job t (scores R s (user_active_jobs owner)) f)

  -- The part of the admission script after its tests.
  acquire-IsBounded :
      (owner : String) (type : ModeType) (date model job : String)
      (now day_ttl lock_ttl model_ttl : ℕ) (s : State)
      → Kept s
      → full (p.user_jobs owner) (length (scores R s (user_active_jobs owner))) ≡ false
      → over (p.user_day owner type) (value R (user_type_rpd owner type date) s) (pos 1) ≡ false
      → Kept (
          acquire R
            (acquire_keys owner type date model)
            (admit_args p owner type model job now day_ttl lock_ttl model_ttl)
            s)
  unfolding acquire
  acquire-IsBounded owner type date model job now day_ttl lock_ttl model_ttl s b f o =
      let day = user_type_rpd owner type date in
      let t = now + lock_ttl * 1000 in
      let limited = is_limit (p.user_day owner type) in
      let lock : Command = (user_active_jobs owner, zadd t job) in
      let s1 = when R (is_limit (p.user_jobs owner)) lock s in
      let b1 =
        when-IsBounded R p (is_limit (p.user_jobs owner)) lock s b
          (λ _. lock_added-IsBounded owner job t s b f) in
      let day_fits : Good (p.user_day owner type) (value R day s1 +ℤ pos 1) =
        rw (value-lock (is_limit (p.user_jobs owner)) owner job t s type date)
          (Good-add (p.user_day owner type) (value R day s) (b.counters day refl) o) in
      let b2 =
        when-IsBounded R p limited (day, incrby (pos 1)) s1 b1
          (λ _. incr-IsBounded R p day s1 (λ other e. cc) day_fits b1) in
      expire-IsBounded R p (is_limit (p.model_day model)) (model_rpd model) model_ttl _
        (expire-IsBounded R p limited day day_ttl _ b2)

  admit-IsBounded :
      (owner : String) (type : ModeType) (date model job : String)
      (now day_ttl lock_ttl model_ttl : ℕ) (s : State)
      → Kept s
      → Kept (run_call R p (admits owner type date model job now day_ttl lock_ttl model_ttl) s)
  unfolding run_call combined_check_and_acquire
  admit-IsBounded owner type date model job now day_ttl lock_ttl model_ttl s0 b0 =
      let active = user_active_jobs owner in
      let s = exec (active, zremrangebyscore now) s0 in
      let b = Lowers-IsBounded R p active (zremrangebyscore now) s0 tt b0 in
      branch-IsBounded R p (full (p.user_jobs owner) (length (scores R s active))) (pos 0) s _ b
        λ f.
          branch-IsBounded R p
            (over (p.user_day owner type) (value R (user_type_rpd owner type date) s) (pos 1))
            (negsuc 3) s _ b
            λ o.
              branch-IsBounded R p (over (p.model_day model) (value R (model_rpd model) s) (pos 1))
                (negsuc 1) s _ b
                λ _.
                  acquire-IsBounded owner type date model job now day_ttl lock_ttl model_ttl s b f o

  call-IsBounded : (call : ScriptCall) (s : State) → Kept s → Kept (run_call R p call s)
  unfolding run_call
  call-IsBounded (admits owner type date model job now day_ttl lock_ttl model_ttl) s b =
      admit-IsBounded owner type date model job now day_ttl lock_ttl model_ttl s b
  call-IsBounded (charges model minute_ttl day_ttl) s b =
      charge-IsBounded R p model minute_ttl day_ttl s b
  call-IsBounded (refunds model minute_ttl day_ttl) s b =
      return-IsBounded R p model minute_ttl day_ttl s b
  call-IsBounded (enters model) s b = queue-IsBounded R p model (pos 1) s b
  call-IsBounded (gives_up model) s b = queue-IsBounded R p model (negsuc 0) s b
  call-IsBounded (leaves model) s b = clamp-IsBounded R p (queue_waiting_model model) s b
  call-IsBounded (expires waiting active day args) s b =
      expire_job-IsBounded R p _ _ _ (job_result args.job_id) (job_meta args.job_id) args s b
  call-IsBounded (unlocks owner job) s b =
      Lowers-IsBounded R p (user_active_jobs owner) (zrem job) s tt b
  call-IsBounded (clean_ups owner now) s b =
      Lowers-IsBounded R p (user_active_jobs owner) (zremrangebyscore now) s tt b
  call-IsBounded (lapses key) s b = Lowers-IsBounded R p key del s tt b

  -- While the limits stand, no history of calls takes a counter of a model or of a user below zero or
  -- past its limit, nor the locks of any user past the limit on jobs under way, from a state in which
  -- this holds: in whatever order the API, the worker and the cron jobs run their scripts, and whenever
  -- a key lapses. The waiting counters of the queues have no limit here and are left out.
  pub history-IsBounded :
      (calls : List ScriptCall) (s : State)
      → IsBounded R p s
      → IsBounded R p (run_history R p calls s)
  unfolding run_history
  history-IsBounded [] s b = b
  history-IsBounded (call ∷ calls) s b =
      history-IsBounded calls (run_call R p call s) (call-IsBounded call s b)
