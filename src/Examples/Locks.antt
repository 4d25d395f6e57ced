-- ===== src/Examples/Locks.antt =====
-- Two processes that run one cron job.
use z1mak_cv_queue.Prelude.{arith, none, refl}
use z1mak_cv_queue.Cron.Locks.{free_lock, lock_is_free, take_lock}
use z1mak_cv_queue.Cron.Locks.Processes.{
  AllTimely, IsExclusive, Reach, World, finishes, freed, here, next, one_process_works, starts,
  took, waits,
}
use z1mak_cv_queue.Memory.{empty, memory}
use z1mak_cv_queue.Redis.{effect, text}

abbrev at_start : World memory
unfolding memory
at_start = record { server = empty; since = λ p. none; now = 500; taken = 0 }

abbrev one_works : World memory
unfolding memory
one_works = took memory "expire" 60000 at_start 1

abbrev one_is_done : World memory
unfolding memory
one_is_done = freed memory "expire" 60000 (record one_works { now = 1700 }) 1

abbrev two_works : World memory
unfolding memory
two_works = took memory "expire" 60000 one_is_done 2

-- The first has run and the second is at work.
abbrev two_runs : Reach memory "expire" 60000 at_start two_works
unfolding memory take_lock free_lock lock_is_free effect text
two_runs =
    next
      (next (next (next here (starts at_start 1 refl refl)) (waits one_works 1200))
        (finishes (record one_works { now = 1700 }) 1 500 refl))
      (starts one_is_done 2 refl refl)

at_start-IsExclusive : IsExclusive memory "expire" 60000 at_start
unfolding memory
at_start-IsExclusive = record { holds = λ p t e. ground arith; alone = λ p q t u e g. ground arith }

two_runs-AllTimely : AllTimely memory "expire" 60000 two_runs
unfolding memory take_lock free_lock lock_is_free effect text
two_runs-AllTimely = (
  (((tt, λ p t e. ground arith), λ p t e. ground arith), λ p t e. ground arith),
  λ p t e. ground arith,
)

one_process_works_example : IsExclusive memory "expire" 60000 two_works
one_process_works_example =
    one_process_works memory "expire" 60000 two_runs two_runs-AllTimely at_start-IsExclusive
