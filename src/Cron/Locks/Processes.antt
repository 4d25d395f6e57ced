-- ===== src/Cron/Locks/Processes.antt =====
-- Several processes that run one cron job: their runs of `runWithLock` as steps that interleave with
-- each other, with the commands of everybody else, with the clock, and with the time to live of the
-- lock.
use z1mak_cv_queue.Prelude.{
  Option, String, arith, eq_refl, false, if◌then◌else◌, none, some, sym, true, ℕ, ◌+◌, ◌/◌, ◌<◌,
  ◌==◌, ◌∙◌, ◌≡◌, ◌≢◌, ◌≤◌,
}
use z1mak_cv_queue.Cron.Locks.{free_lock, lock_is_free, take_lock}
use z1mak_cv_queue.Redis.{Action, Key, Redis, cron_lock, del, expire, key_eq, set_text}
use z1mak_cv_queue.Redis.Laws.{text-exec}

-- A process is known by its number.
abbrev pub Process : Type 0
Process = ℕ

pub record World (R : Redis) : Type 0 where
  pub server : R.State
  pub since : Process → Option ℕ  -- when a process took the lock, while it is at work
  pub now : ℕ  -- in ms
  pub taken : ℕ  -- when the lock was last taken

abbrev pub put : Process → Option ℕ → (Process → Option ℕ) → Process → Option ℕ
put p v f q = if p == q then v else f q

-- `ttlMs + LOCK_SAFETY_MS`
abbrev pub lock_ms : ℕ → ℕ
lock_ms ttl_ms = ttl_ms + 10000

module _ (R : Redis) (name : String) (ttl_ms : ℕ) where
  abbrev pub took : World R → Process → World R
  took w p = record w {
    server = take_lock R name ttl_ms w.server;
    since = put p (some w.now) w.since;
    taken = w.now;
  }

  abbrev pub freed : World R → Process → World R
  freed w p = record w { server = free_lock R name w.server; since = put p none w.since }

  -- A run of `runWithLock` starts and ends; a process that finds the lock taken does nothing. A
  -- process at work sends commands, as everybody does who does not run this cron job, and only
  -- `runWithLock` touches the key of the lock. A process can also die at work, which frees nothing.
  pub data Step : World R → World R → Type 0 where
    starts :
        (w : World R) (p : Process)
        → w.since p ≡ none
        → lock_is_free R name w.server ≡ true
        → Step w (took w p)
    commands :
        (w : World R) (k : Key) (a : Action)
        → key_eq k (cron_lock name) ≡ false
        → Step w (record w { server = R.exec (k, a) w.server })
    finishes : (w : World R) (p : Process) (t : ℕ) → w.since p ≡ some t → Step w (freed w p)
    dies : (w : World R) (p : Process) → Step w (record w { since = put p none w.since })
    waits : (w : World R) (n : ℕ) → Step w (record w { now = w.now + n })
    lapses :
        (w : World R)
        → w.taken + lock_ms ttl_ms ≤ w.now
        → Step w (record w { server = free_lock R name w.server })

  pub data Reach (w : World R) : World R → Type 0 where
    here : Reach w w
    next : {u v : World R} → Reach w u → Step u v → Reach w v

  -- No process is still at work when the time to live of its lock has passed.
  abbrev pub IsTimely : World R → Type 0
  IsTimely w = (p : Process) (t : ℕ) → w.since p ≡ some t → w.now < t + lock_ms ttl_ms

  abbrev pub AllTimely : {w v : World R} → Reach w v → Type 0
  AllTimely here = Unit
  AllTimely (next {u} r step) = AllTimely r × IsTimely u

  -- A process at work holds the lock, and there is at most one.
  pub record IsExclusive (w : World R) : Type 0 where
    pub holds :
        (p : Process) (t : ℕ)
        → w.since p ≡ some t
        → (t ≡ w.taken) × (lock_is_free R name w.server ≡ false)
    pub alone : (p q : Process) (t u : ℕ) → w.since p ≡ some t → w.since q ≡ some u → p ≡ q

  take_lock-held : (s : R.State) → lock_is_free R name (take_lock R name ttl_ms s) ≡ false
  unfolding take_lock lock_is_free
  take_lock-held s =
      let t = R.exec (cron_lock name, set_text "1") s in
      ground (
        arith,
        text-exec R (cron_lock name) (set_text "1") s (cron_lock name),
        text-exec R (cron_lock name) (expire ((ttl_ms + 10000) / 1000)) t (cron_lock name),
        eq_refl name,
      )

  lock_is_free-other :
      (k : Key) (a : Action) (s : R.State)
      → key_eq k (cron_lock name) ≡ false
      → lock_is_free R name (R.exec (k, a) s) ≡ lock_is_free R name s
  unfolding lock_is_free
  lock_is_free-other k a s other = ground (arith, text-exec R k a s (cron_lock name))

  pub free_lock-free : (s : R.State) → lock_is_free R name (free_lock R name s) ≡ true
  unfolding free_lock lock_is_free
  free_lock-free s =
      ground (arith, text-exec R (cron_lock name) del s (cron_lock name), eq_refl name)

  -- Who is at work after a step by `p` that leaves `p` idle was at work before it, and is not `p`.
  put-none :
      (f : Process → Option ℕ) (p q : Process) (t : ℕ)
      → put p none f q ≡ some t
      → (f q ≡ some t) × (p ≢ q)
  put-none f p q t e = (ground arith, λ same. ground arith)

  -- Who is at work after `p` took the lock is `p`, since now, if nobody was before.
  put-some :
      (f : Process → Option ℕ) (p q : Process) (n t : ℕ)
      → ((r : Process) (u : ℕ) → f r ≢ some u)
      → put p (some n) f q ≡ some t
      → (p ≡ q) × (t ≡ n)
  put-some f p q n t idle e = ground (arith, idle q t)

  starts-IsExclusive :
      (w : World R) (p : Process)
      → lock_is_free R name w.server ≡ true
      → IsExclusive w
      → IsExclusive (took w p)
  starts-IsExclusive w p free x =
      let idle : (r : Process) (u : ℕ) → w.since r ≢ some u =
        λ r u e. ground (arith, (x.holds r u e).1) in
      record {
        holds = λ q t e. ((put-some w.since p q w.now t idle e).1, take_lock-held w.server);
        alone = λ q r t u e g.
            sym ((put-some w.since p q w.now t idle e).0) ∙ (put-some w.since p r w.now u idle g).0;
      }

  -- A step after which nobody is at work who was not before.
  idle-IsExclusive :
      (w : World R) (p : Process) (s : R.State)
      → ((q : Process) (t : ℕ) → put p none w.since q ≡ some t → lock_is_free R name s ≡ false)
      → IsExclusive w
      → IsExclusive (record w { server = s; since = put p none w.since })
  idle-IsExclusive w p s held x = record {
    holds = λ q t e. ((x.holds q t ((put-none w.since p q t e).0)).0, held q t e);
    alone = λ q r t u e g.
        x.alone q r t u ((put-none w.since p q t e).0) ((put-none w.since p r u g).0);
  }

  Step-IsExclusive : {w v : World R} → Step w v → IsTimely w → IsExclusive w → IsExclusive v
  Step-IsExclusive (starts w p idle free) t x = starts-IsExclusive w p free x
  Step-IsExclusive (commands w k a other) t x = record {
    holds = λ q u e. ((x.holds q u e).0, lock_is_free-other k a w.server other ∙ (x.holds q u e).1);
    alone = x.alone;
  }
  Step-IsExclusive (finishes w p n at) t x =
      idle-IsExclusive w p (free_lock R name w.server)
        (λ q u e.
          let (was, apart) = put-none w.since p q u e in absurd (apart (x.alone p q n u at was)))
        x
  Step-IsExclusive (dies w p) t x =
      idle-IsExclusive w p w.server (λ q u e. (x.holds q u ((put-none w.since p q u e).0)).1) x
  Step-IsExclusive (waits w n) t x = record { holds = x.holds; alone = x.alone }
  Step-IsExclusive (lapses w late) t x =
      let idle : (r : Process) (u : ℕ) → w.since r ≢ some u =
        λ r u e. ground (arith, t r u e, (x.holds r u e).0) in
      record { holds = λ q u e. absurd (idle q u e); alone = λ q r u n e g. absurd (idle q u e) }

  -- However the processes that run one cron job interleave with each other, with everybody else's
  -- commands and with the clock, and whichever of them die: at most one is at work at a time, and it
  -- holds the lock, so that no other can start. This is from a world in which it holds, such as one
  -- in which nobody is at work, and as long as no work outlasts the time to live of the lock.
  pub one_process_works :
      {w v : World R} (r : Reach w v) → AllTimely r → IsExclusive w → IsExclusive v
  one_process_works here t x = x
  one_process_works (next r step) t x = Step-IsExclusive step t.1 (one_process_works r t.0 x)
