-- ===== src/Scripts/Acquire/Laws.antt =====
-- What combinedCheckAndAcquire.lua does to the locks and the counters of a user.
use z1mak_cv_queue.Prelude.{
  Assoc, String, [], arith, eq_refl, false, if◌then◌else◌, insert, length, lookup, lookup-insert,
  some, true, ℕ, ◌*◌, ◌+◌, ◌↔◌, ◌∷◌, ◌≡◌, ◌≢◌, ◌≤◌, ◌⊎◌,
}
use z1mak_cv_queue.Prelude.Int.{negsuc, pos, ℤ, ◌+ℤ◌, ◌≤ℤ◌}
use z1mak_cv_queue.Redis.{
  Key, ModeType, Redis, above, fields, key_eq, model_rpd, scores, user_active_jobs, user_type_rpd,
  zremrangebyscore,
}
use z1mak_cv_queue.Redis.Laws.{redis_laws}
use z1mak_cv_queue.Scripts.Acquire.{
  AcquireArgs, AcquireKeys, Within, acquire, acquire_keys, combined_check_and_acquire, full,
  get_or_zero, is_limit, over,
}

insert-length : (m : String) (t : ℕ) (z : Assoc ℕ) → length (insert m t z) ≤ length z + 1
unfolding insert
insert-length m t [] = omega arith
insert-length m t ((n, u) ∷ z) = ground (arith, insert-length m t z)

module _ (R : Redis) (user : String) (type : ModeType) (date model : String) (a : AcquireArgs)
    (s : R.State) where
  abbrev ks : AcquireKeys
  ks = acquire_keys user type date model

  abbrev clean : R.State
  clean = R.exec (user_active_jobs user, zremrangebyscore a.now_ms) s

  scores-acquire : scores R (acquire R ks a s) (user_active_jobs user) ≡ (
      if is_limit a.concurrency_limit
      then insert a.job_id (a.now_ms + a.lock_ttl * 1000) (scores R s (user_active_jobs user))
      else scores R s (user_active_jobs user))
  unfolding acquire
  scores-acquire = simp redis_laws (ground arith)

  count-acquire : get_or_zero R (user_type_rpd user type date) (acquire R ks a s) ≡ (
      if is_limit a.user_day_limit
      then get_or_zero R (user_type_rpd user type date) s +ℤ a.consume
      else get_or_zero R (user_type_rpd user type date) s)
  unfolding acquire get_or_zero
  count-acquire = simp redis_laws (ground arith)

  count-acquire_other :
      (k : Key)
      → key_eq (user_type_rpd user type date) k ≡ false
      → get_or_zero R k (acquire R ks a s) ≡ get_or_zero R k s
  unfolding acquire get_or_zero
  count-acquire_other k h = simp redis_laws (ground arith)

  fields-acquire : (k : Key) → fields R (acquire R ks a s) k ≡ fields R s k
  unfolding acquire
  fields-acquire k = simp redis_laws (ground arith)

  fields-cleanup : (k : Key) → fields R clean k ≡ fields R s k
  fields-cleanup k = simp redis_laws (ground arith)

  count-cleanup : (k : Key) → get_or_zero R k clean ≡ get_or_zero R k s
  unfolding get_or_zero
  count-cleanup k = simp redis_laws (ground arith)

  scores-cleanup :
      scores R clean (user_active_jobs user) ≡ above a.now_ms (scores R s (user_active_jobs user))
  scores-cleanup = simp redis_laws

module _ (R : Redis) (user : String) (type : ModeType) (date model : String) (a : AcquireArgs)
    (s : R.State) where
  -- Whatever it answers, the script changes no counter but the user's.
  pub acquire-other_counters :
      (k : Key)
      → key_eq (user_type_rpd user type date) k ≡ false
      → get_or_zero R k (combined_check_and_acquire R (acquire_keys user type date model) a s).1
        ≡ get_or_zero R k s
  unfolding combined_check_and_acquire
  acquire-other_counters k h = ground (
    arith,
    count-acquire_other R user type date model a (clean R user type date model a s) k,
    count-cleanup R user type date model a s k,
  )

  pub acquire-fields :
      (k : Key)
      → fields R (combined_check_and_acquire R (acquire_keys user type date model) a s).1 k
        ≡ fields R s k
  unfolding combined_check_and_acquire
  acquire-fields k = ground (
    arith,
    fields-acquire R user type date model a (clean R user type date model a s) k,
    fields-cleanup R user type date model a s k,
  )

  -- The script answers 1 exactly where each of three limits, if it is above 0, holds after the job is
  -- let in: one lock more than the user's locks whose time is after now is at most the limit on jobs under
  -- way; and what the job takes, added to the user's counter of the day and to the model's counter of the
  -- day, is at most the limit of each.
  pub acquire-admits_iff :
      let live = length (above a.now_ms (scores R s (user_active_jobs user))) in
      ((combined_check_and_acquire R (acquire_keys user type date model) a s).0 ≡ pos 1) ↔ (
        Within a.concurrency_limit (pos (live + 1))
        × Within a.user_day_limit (get_or_zero R (user_type_rpd user type date) s +ℤ a.consume)
        × Within a.model_day_limit (get_or_zero R (model_rpd model) s +ℤ a.consume))
  unfolding combined_check_and_acquire full over
  acquire-admits_iff = ground (
    arith,
    scores-cleanup R user type date model a s,
    count-cleanup R user type date model a s (user_type_rpd user type date),
    count-cleanup R user type date model a s (model_rpd model),
  )

  pub acquire-codes :
      let code = (combined_check_and_acquire R (acquire_keys user type date model) a s).0 in
      let day_full = over a.model_day_limit (get_or_zero R (model_rpd model) s) a.consume in
      ((code ≡ pos 1) × (day_full ≡ false))
      ⊎ (code ≡ pos 0)
      ⊎ (code ≡ negsuc 3)
      ⊎ ((code ≡ negsuc 1) × (day_full ≡ true))
  unfolding combined_check_and_acquire
  acquire-codes = ground (arith, count-cleanup R user type date model a s (model_rpd model))

-- A run of the script, with its keys and its arguments.
module _ (R : Redis) (user : String) (type : ModeType) (date model : String) (a : AcquireArgs)
    (s : R.State) {s' : R.State} where
  -- An admitted job with a concurrency limit holds a lock until `now + lock_ttl`, and the user's
  -- live locks, that one included, are at most the limit.
  acquire-bounds_locks :
      combined_check_and_acquire R (acquire_keys user type date model) a s ≡ (pos 1, s')
      → is_limit a.concurrency_limit ≡ true
      → (lookup a.job_id (scores R s' (user_active_jobs user))
          ≡ some (a.now_ms + a.lock_ttl * 1000))
        × (pos (length (scores R s' (user_active_jobs user))) ≤ℤ a.concurrency_limit)
  unfolding combined_check_and_acquire full
  acquire-bounds_locks h l = ground (
    arith,
    scores-acquire R user type date model a (clean R user type date model a s),
    insert-length a.job_id (a.now_ms + a.lock_ttl * 1000)
        (scores R (clean R user type date model a s) (user_active_jobs user)),
    lookup-insert a.job_id a.job_id (a.now_ms + a.lock_ttl * 1000)
        (scores R (clean R user type date model a s) (user_active_jobs user)),
    eq_refl a.job_id,
  )

  -- An admitted job with a day limit is charged to its user once, within the limit; without a
  -- limit the counter is left as it was.
  pub acquire-charges_user :
      combined_check_and_acquire R (acquire_keys user type date model) a s ≡ (pos 1, s')
      → (get_or_zero R (user_type_rpd user type date) s' ≡ (
          if is_limit a.user_day_limit
          then get_or_zero R (user_type_rpd user type date) s +ℤ a.consume
          else get_or_zero R (user_type_rpd user type date) s))
        × Within a.user_day_limit (get_or_zero R (user_type_rpd user type date) s')
  unfolding combined_check_and_acquire over
  acquire-charges_user h = ground (
    arith,
    count-acquire R user type date model a (clean R user type date model a s),
    count-cleanup R user type date model a s (user_type_rpd user type date),
  )

  -- A run that does not answer 1 has only dropped the user's expired locks.
  pub acquire-refused :
      {code : ℤ}
      → combined_check_and_acquire R (acquire_keys user type date model) a s ≡ (code, s')
      → code ≢ pos 1
      → s' ≡ R.exec (user_active_jobs user, zremrangebyscore a.now_ms) s
  unfolding combined_check_and_acquire
  acquire-refused h n = ground arith
