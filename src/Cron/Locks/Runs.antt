-- ===== src/Cron/Locks/Runs.antt =====
-- A whole run of a cron job as steps of its process, and the way back from a lock whose holder died.
use z1mak_cv_queue.Prelude.{
  All, List, Option, String, [], arith, false, fun_ext, none, some, true, ℕ, ◌+◌, ◌∷◌, ◌≡◌,
}
use z1mak_cv_queue.Cron.Locks.{free_lock, lock_is_free, run_with_lock}
use z1mak_cv_queue.Cron.Locks.Processes.{
  Process, Reach, World, commands, finishes, free_lock-free, freed, here, lapses, lock_ms, next,
  put, starts, took, waits,
}
use z1mak_cv_queue.Redis.{Command, Redis, cron_lock, key_eq, pipeline}

module _ (R : Redis) (name : String) (ttl_ms : ℕ) where
  open R use {State}

  abbrev pub AllOthers : List Command → Type 0
  AllOthers cs = All (λ c. key_eq c.0 (cron_lock name) ≡ false) cs

  Reach-join :
      {u v w : World R}
      → Reach R name ttl_ms u v
      → Reach R name ttl_ms v w
      → Reach R name ttl_ms u w
  Reach-join r here = r
  Reach-join r (next q step) = next (Reach-join r q) step

  pipeline-Reach :
      (cs : List Command) (w : World R)
      → AllOthers cs
      → Reach R name ttl_ms w (record w { server = pipeline R cs w.server })
  unfolding pipeline
  pipeline-Reach [] w h = here
  pipeline-Reach ((k, a) ∷ cs) w h =
      Reach-join (next here (commands w k a h.0)) (pipeline-Reach cs _ h.1)

  -- The world after a run: its process is idle again, and took the lock at the time of the run.
  abbrev pub after_run : List Command → World R → World R
  after_run cs w = record w {
    server = run_with_lock R name ttl_ms (pipeline R cs) w.server;
    taken = w.now;
  }

  put-back :
      (f : Process → Option ℕ) (p : Process) (n : ℕ)
      → f p ≡ none
      → put p none (put p (some n) f) ≡ f
  put-back f p n idle = fun_ext λ q. ground (arith, idle)

  Reach-since :
      (u v : World R) (f g : Process → Option ℕ)
      → f ≡ g
      → Reach R name ttl_ms u (record v { since = f })
      → Reach R name ttl_ms u (record v { since = g })
  Reach-since u v f g e r = rw (← e) r

  run-Reach :
      (w : World R) (p : Process) (cs : List Command)
      → w.since p ≡ none
      → lock_is_free R name w.server ≡ true
      → AllOthers cs
      → Reach R name ttl_ms w (after_run cs w)
  unfolding run_with_lock
  run-Reach w p cs idle free h =
      let w1 = took R name ttl_ms w p in
      let w2 = record w1 { server = pipeline R cs w1.server } in
      let start : Reach R name ttl_ms w w1 = next here (starts w p idle free) in
      let work : Reach R name ttl_ms w w2 = Reach-join start (pipeline-Reach cs w1 h) in
      let end : Reach R name ttl_ms w (freed R name ttl_ms w2 p) =
        next work (finishes w2 p w.now (ground arith)) in
      rw free (
        Reach-since w (record w { server = free_lock R name w2.server; taken = w.now }) _ w.since
          (put-back w.since p w.now idle) end)

  -- A lock that nobody frees, since its holder died, is given back by its time to live: any idle process
  -- can then run the job as `runWithLock` does on a server whose lock is free.
  dead_lock_returns :
      (w : World R) (p : Process) (cs : List Command)
      → w.since p ≡ none
      → AllOthers cs
      → Reach R name ttl_ms w (
          after_run cs (record w {
            server = free_lock R name w.server;
            now = w.now + (w.taken + lock_ms ttl_ms);
          }))
  dead_lock_returns w p cs idle h =
      let late = record w { now = w.now + (w.taken + lock_ms ttl_ms) } in
      let w1 = record late { server = free_lock R name w.server } in
      let lapsed : Reach R name ttl_ms w w1 =
        next (next here (waits w (w.taken + lock_ms ttl_ms))) (lapses late (omega arith)) in
      Reach-join lapsed (run-Reach w1 p cs idle (free_lock-free R name ttl_ms w.server) h)
