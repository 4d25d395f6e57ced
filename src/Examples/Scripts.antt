-- ===== src/Examples/Scripts.antt =====
-- Runs of the scripts.
use z1mak_cv_queue.Prelude.{
  [], arith, insert, length, lookup, none, refl, some, ◌+◌, ◌↔◌, ◌∷◌, ◌≡◌, ◌≢◌,
}
use z1mak_cv_queue.Prelude.Int.{negsuc, pos, ℤ, ◌+ℤ◌, ◌-ℤ◌, ◌≤ℤ◌}
use z1mak_cv_queue.Examples.States.{configured_models}
use z1mak_cv_queue.Js.{number_of}
use z1mak_cv_queue.Memory.{memory}
use z1mak_cv_queue.Redis.{
  above, count, effect, fields, insert_all, lite, members, model_rpd, model_rpm, pipeline, scores,
  user_active_jobs, user_type_rpd, when, zadd,
}
use z1mak_cv_queue.Scripts.Acquire.{
  AcquireArgs, Within, acquire, acquire_keys, combined_check_and_acquire, full, get_or_zero, over,
}
use z1mak_cv_queue.Scripts.Acquire.Laws.{acquire-admits_iff, acquire-charges_user}
use z1mak_cv_queue.Scripts.Consume.{ConsumeArgs, charge, consume_execution_limits}
use z1mak_cv_queue.Scripts.Release.{
  clamp_sub, decr_and_clamp, decr_and_clamp_to_zero, return_tokens_atomic,
}
use z1mak_cv_queue.Worker.Consume.{return_args}

abbrev acquire_args : AcquireArgs
acquire_args = record {
  user_day_limit = pos 4;
  concurrency_limit = pos 2;
  day_ttl = 3600;
  lock_ttl = 1860;
  consume = pos 1;
  now_ms = 1000;
  job_id = "j1";
  model_day_limit = pos 100;
  model_day_ttl = 3600;
}

-- One live lock and one that has expired.
abbrev one_lock : memory.State
unfolding number_of memory pipeline when effect insert_all above insert lookup get_or_zero count
    fields scores members ◌+ℤ◌
one_lock =
    pipeline memory
      ((user_active_jobs "u1", zadd 900 "old") ∷ (user_active_jobs "u1", zadd 9000 "j0") ∷ [])
      configured_models

abbrev acquired : ℤ × memory.State
acquired =
    combined_check_and_acquire memory (acquire_keys "u1" lite "2026-01-01" "flash") acquire_args
      one_lock

acquired_ok : acquired ≡ (pos 1, acquired.1)
unfolding number_of memory pipeline when effect insert_all above insert lookup get_or_zero count
    fields scores members ◌+ℤ◌ combined_check_and_acquire full over acquire consume_execution_limits
    charge clamp_sub ◌-ℤ◌ return_tokens_atomic decr_and_clamp decr_and_clamp_to_zero
acquired_ok = refl

acquire-charges_user_example :
    (get_or_zero memory (user_type_rpd "u1" lite "2026-01-01") acquired.1
      ≡ get_or_zero memory (user_type_rpd "u1" lite "2026-01-01") one_lock +ℤ pos 1)
    × Within (pos 4) (get_or_zero memory (user_type_rpd "u1" lite "2026-01-01") acquired.1)
acquire-charges_user_example =
    acquire-charges_user memory "u1" lite "2026-01-01" "flash" acquire_args one_lock
      {s' = acquired.1} acquired_ok

acquire-admits_iff_example :
    let live = length (above 1000 (scores memory one_lock (user_active_jobs "u1"))) in
    (acquired.0 ≡ pos 1) ↔ (
      Within (pos 2) (pos (live + 1))
      × Within (pos 4) (get_or_zero memory (user_type_rpd "u1" lite "2026-01-01") one_lock +ℤ pos 1)
      × Within (pos 100) (get_or_zero memory (model_rpd "flash") one_lock +ℤ pos 1))
acquire-admits_iff_example =
    acquire-admits_iff memory "u1" lite "2026-01-01" "flash" acquire_args one_lock

abbrev consume_args : ℤ → ConsumeArgs
consume_args most = record {
  minute_limit = pos 10;
  day_limit = most;
  minute_ttl = 70;
  day_ttl = 3600;
  amount = pos 1;
}

abbrev consumed_state : ℤ × memory.State
consumed_state =
    consume_execution_limits memory (model_rpm "flash") (model_rpd "flash") (consume_args (pos 100))
      configured_models

consumed_ok : consumed_state ≡ (pos 1, consumed_state.1)
unfolding number_of memory pipeline when effect insert_all above insert lookup get_or_zero count
    fields scores members ◌+ℤ◌ combined_check_and_acquire full over acquire consume_execution_limits
    charge clamp_sub ◌-ℤ◌ return_tokens_atomic decr_and_clamp decr_and_clamp_to_zero
consumed_ok = refl

-- The second request on a day that allows one.
abbrev spent : ℤ × memory.State
spent =
    consume_execution_limits memory (model_rpm "flash") (model_rpd "flash") (consume_args (pos 1))
      consumed_state.1

spent_refused : spent ≡ (negsuc 1, spent.1)
unfolding number_of memory pipeline when effect insert_all above insert lookup get_or_zero count
    fields scores members ◌+ℤ◌ combined_check_and_acquire full over acquire consume_execution_limits
    charge clamp_sub ◌-ℤ◌ return_tokens_atomic decr_and_clamp decr_and_clamp_to_zero
spent_refused = refl

refusal : negsuc 1 ≢ pos 1
refusal e = cc

abbrev give_back : memory.State
give_back =
    (return_tokens_atomic memory (some (model_rpm "flash")) (some (model_rpd "flash")) none
      (return_args 3600) consumed_state.1).1

free_model :
    (pos 0 ≤ℤ get_or_zero memory (model_rpm "flash") configured_models)
    × (pos 0 ≤ℤ get_or_zero memory (model_rpd "flash") configured_models)
unfolding number_of memory pipeline when effect insert_all above insert lookup get_or_zero count
    fields scores members ◌+ℤ◌
free_model = ground arith
