-- ===== src/Cron/Locks.antt =====
-- cron/cleanupOrphanLocks.ts and cron/utils/runWithLock.ts.
pub mod Processes
pub mod Runs
use z1mak_cv_queue.Prelude.{
  Assoc, Bool, List, String, [], arith, eq_iff, eq_refl, false, if◌then◌else◌, is_some, none, not,
  refl, str_eq, true, ℕ, ◌+◌, ◌/◌, ◌||◌, ◌∷◌, ◌≡◌, ◌⊎◌,
}
use z1mak_cv_queue.Redis.{
  Redis, above, cron_lock, del, expire, scores, set_text, text, user_active_jobs, zremrangebyscore,
}
use z1mak_cv_queue.Redis.Laws.{scores-exec, text-exec}

module _ (R : Redis) where
  open R use {State, exec}

  -- The pipeline over the users whose key the scan finds.
  unfoldable pub cleanup_orphan_locks : ℕ → List String → State → State
  cleanup_orphan_locks now [] s = s
  cleanup_orphan_locks now (user_id ∷ users) s =
      cleanup_orphan_locks now users (exec (user_active_jobs user_id, zremrangebyscore now) s)

  -- SET with PX, whose milliseconds are kept as whole seconds.
  unfoldable pub take_lock : String → ℕ → State → State
  take_lock name ttl_ms s =
      exec (cron_lock name, expire ((ttl_ms + 10000) / 1000))
        (exec (cron_lock name, set_text "1") s)

  -- DEL, in `finally`
  unfoldable pub free_lock : String → State → State
  free_lock name s = exec (cron_lock name, del) s

  -- What NX asks for.
  unfoldable pub lock_is_free : String → State → Bool
  lock_is_free name s = not (is_some (text R s (cron_lock name)))

  -- SET NX, the work, and DEL; the work may fail, which only writes a log line.
  unfoldable pub run_with_lock : String → ℕ → (State → State) → State → State
  run_with_lock name ttl_ms work s =
      if lock_is_free name s then free_lock name (work (take_lock name ttl_ms s)) else s

  abbrev locks : State → String → Assoc ℕ
  locks s u = scores R s (user_active_jobs u)

  above-twice : (now : ℕ) (z : Assoc ℕ) → above now (above now z) ≡ above now z
  unfolding above
  above-twice now [] = refl
  above-twice now ((m, t) ∷ z) = ground (arith, above-twice now z)

  abbrev pub member : String → List String → Bool
  member x [] = false
  member x (y ∷ l) = str_eq x y || member x l

  -- The clean-up drops the expired locks of the users that the scan found, however often it found
  -- them, and no lock that is still live; the locks of all other users stay.
  cleanup-locks :
      (now : ℕ) (users : List String) (s : State) (u : String)
      → locks (cleanup_orphan_locks now users s) u
        ≡ (if member u users then above now (locks s u) else locks s u)
  unfolding cleanup_orphan_locks
  cleanup-locks now [] s u = refl
  cleanup-locks now (v ∷ users) s u =
      let t = exec (user_active_jobs v, zremrangebyscore now) s in
      ground (
        arith,
        cleanup-locks now users t u,
        scores-exec R (user_active_jobs v) (zremrangebyscore now) s (user_active_jobs u),
        above-twice now (locks s u),
        eq_iff u v,
        eq_iff v u,
      )

  -- The work of a cron job runs only if no other process holds its lock, and then on a state in which
  -- the lock is taken, so that another run started on that state does nothing; after the work the lock
  -- is free. If the lock is held, nothing changes.
  lock_excludes :
      (name : String) (ttl_ms : ℕ) (work other : State → State) (s : State)
      → ((is_some (text R s (cron_lock name)) ≡ true) × (run_with_lock name ttl_ms work s ≡ s))
        ⊎ ((run_with_lock name ttl_ms other (take_lock name ttl_ms s) ≡ take_lock name ttl_ms s)
            × (text R (run_with_lock name ttl_ms work s) (cron_lock name) ≡ none))
  unfolding run_with_lock take_lock free_lock lock_is_free
  lock_excludes name ttl_ms work other s =
      let t = exec (cron_lock name, set_text "1") s in
      ground (
        arith,
        text-exec R (cron_lock name) (set_text "1") s (cron_lock name),
        text-exec R (cron_lock name) (expire ((ttl_ms + 10000) / 1000)) t (cron_lock name),
        text-exec R (cron_lock name) del (work (take_lock name ttl_ms s)) (cron_lock name),
        eq_refl name,
      )
