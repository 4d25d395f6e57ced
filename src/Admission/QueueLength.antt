-- ===== src/Admission/QueueLength.antt =====
-- routes/resume/queueUtils.ts. The limits are integers, so the source's `60 / avgSeconds` and its
-- factor 0.9 * 30 = 27 are kept as one exact fraction over `avg_seconds`, and `Math.ceil` is the
-- division rounded up; at the two averages that are used the source's floats round to it.
pub mod Bounds
use z1mak_cv_queue.Prelude.{if◌then◌else◌, ltb, max, min, ℕ, ◌*◌, ◌+◌, ◌-◌, ◌/◌}
use z1mak_cv_queue.Prelude.Int.{pos_part, ℤ}
use z1mak_cv_queue.Scripts.Acquire.{is_limit}

abbrev pub avg_seconds_hard : ℕ
avg_seconds_hard = 25

abbrev pub avg_seconds_lite : ℕ
avg_seconds_lite = 15

-- MAX_WAIT_MINUTES * QUEUE_BUFFER
abbrev pub wait_minutes : ℕ
wait_minutes = 27

unfoldable pub raw_length : ℕ → ℕ → ℕ
raw_length rpm_safe avg =
    if ltb 0 avg
    then (min (rpm_safe * avg) 60 * wait_minutes + (avg - 1)) / avg
    else rpm_safe * wait_minutes

-- `rpd > 0 ? rpd : raw`
unfoldable pub day_cap : ℤ → ℕ → ℕ
day_cap rpd raw = if is_limit rpd then pos_part rpd else raw

unfoldable pub compute_max_queue_length : ℤ → ℤ → ℕ → ℕ
unfolding raw_length day_cap
compute_max_queue_length rpm rpd avg =
    let raw = raw_length (pos_part rpm) avg in max 1 (min raw (day_cap rpd raw))
