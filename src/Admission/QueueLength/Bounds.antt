-- ===== src/Admission/QueueLength/Bounds.antt =====
-- How long a queue may get.
use native.Mathlib.Nat.{div-lt_iff_lt-mul}
use z1mak_cv_queue.Prelude.{
  arith, inl, inr, ltb, max, min, true, ℕ, ◌*◌, ◌+◌, ◌-◌, ◌/◌, ◌<◌, ◌≡◌, ◌≤◌, ◌⊎◌,
}
use z1mak_cv_queue.Prelude.Int.{pos, pos_part, ℤ, ◌≤ℤ◌}
use z1mak_cv_queue.Admission.QueueLength.{
  avg_seconds_hard, avg_seconds_lite, compute_max_queue_length, day_cap, raw_length,
}

ceil-step : (m avg : ℕ) → 0 < avg → m * avg + (avg - 1) < (m + 1) * avg
ceil-step m avg h = grind arith

ceil-le : (x m avg : ℕ) → 0 < avg → x ≤ m * avg → (x + (avg - 1)) / avg ≤ m
ceil-le x m avg h k =
    let top : (x + (avg - 1)) / avg < m + 1 =
      (div-lt_iff_lt-mul h).1 (omega (arith, ceil-step m avg h, k)) in
    omega arith

-- The seconds of work that the minute limit lets through in 27 minutes, which a worker can do.
abbrev pub work_seconds : ℤ → ℕ → ℕ
work_seconds rpm avg = min (pos_part rpm * avg) 60 * 27

ceil-ge : (x avg m : ℕ) → 0 < avg → (x + (avg - 1)) / avg ≤ m → x ≤ m * avg
ceil-ge x avg m h le =
    let top : x + (avg - 1) < (m + 1) * avg = (div-lt_iff_lt-mul h).0 (omega (arith, le)) in
    grind arith

ceil-lt : (x avg m : ℕ) → 0 < avg → 1 ≤ m → m ≤ (x + (avg - 1)) / avg → (m - 1) * avg < x
ceil-lt x avg m h one le = ground (arith, λ (k : x ≤ (m - 1) * avg). ceil-le x (m - 1) avg h k)

-- The bound against the number of jobs that fill the minutes.
capped :
    (c : ℕ) (rpd : ℤ)
    → let n = max 1 (min c (day_cap rpd c)) in
      ((rpd ≤ℤ pos 0) ⊎ (pos n ≤ℤ rpd)) × ((n ≡ 1) ⊎ (n ≤ c)) × ((c ≤ n) ⊎ (pos n ≡ rpd))
unfolding day_cap
capped c rpd = ground arith

-- The bound is at least one job and at most the day limit of a model that has one. It is the number of
-- jobs that fill 27 minutes, of the minute limit or of a worker, whichever is less work: where the
-- bound is above one job, one job less takes less than these minutes, and so many jobs take all of
-- them, unless the bound is the day limit. A bound of one job is also that of a model without a
-- minute limit, whose minutes hold no work.
pub compute_max_queue_length-bounds :
    (rpm rpd : ℤ) (avg : ℕ)
    → 0 < avg
    → let n = compute_max_queue_length rpm rpd avg in
      (1 ≤ n)
      × ((rpd ≤ℤ pos 0) ⊎ (pos n ≤ℤ rpd))
      × ((n ≡ 1) ⊎ ((n - 1) * avg < work_seconds rpm avg))
      × ((work_seconds rpm avg ≤ n * avg) ⊎ (pos n ≡ rpd))
unfolding compute_max_queue_length raw_length
compute_max_queue_length-bounds rpm rpd avg h =
    let x = work_seconds rpm avg in
    let n = compute_max_queue_length rpm rpd avg in
    let positive : ltb 0 avg ≡ true = ground arith in
    let c = (x + (avg - 1)) / avg in
    let (day, fewer, all) : ((rpd ≤ℤ pos 0) ⊎ (pos n ≤ℤ rpd))
        × ((n ≡ 1) ⊎ (n ≤ c))
        × ((c ≤ n) ⊎ (pos n ≡ rpd)) =
      rw positive (capped c rpd) in
    let one : 1 ≤ n = ground arith in
    (
      one,
      day,
      elim fewer [ inl e ↦ inl e | inr le ↦ inr (ceil-lt x avg n h one le) ],
      elim all [ inl le ↦ inl (ceil-ge x avg n h le) | inr e ↦ inr e ],
    )

-- At the averages of the two modes, a job that is admitted at the end of the queue waits for at
-- most 27 minutes of work: the jobs before it take less than 1620 seconds.
hard-wait : (rpm rpd : ℤ) → (compute_max_queue_length rpm rpd avg_seconds_hard - 1) * 25 < 1620
unfolding compute_max_queue_length
hard-wait rpm rpd = ground arith

lite-wait : (rpm rpd : ℤ) → (compute_max_queue_length rpm rpd avg_seconds_lite - 1) * 15 < 1620
unfolding compute_max_queue_length
lite-wait rpm rpd = ground arith
