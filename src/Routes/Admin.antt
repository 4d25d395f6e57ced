-- ===== src/Routes/Admin.antt =====
-- routes/admin/admin.ts, and what it changes for the worker processes.
-- The schema of the body lets integers from 1 on through.
use z1mak_cv_queue.Prelude.{Bool, List, arith, leb, refl, some, true, ℕ, ◌∷◌, ◌≡◌}
use z1mak_cv_queue.Prelude.Int.{pos, ℤ}
use z1mak_cv_queue.Cron.Reload.{ModelRow, reload_model_limits}
use z1mak_cv_queue.Js.{print}
use z1mak_cv_queue.Js.RoundTrip.{number-print, truthy-print}
use z1mak_cv_queue.Redis.{ModeType, Redis, hard, lite, set_text, worker_concurrency}
use z1mak_cv_queue.Redis.Laws.{text-exec}
use z1mak_cv_queue.Worker.Concurrency.{Slots, fetch_concurrency_config, parse_concurrency, slots_of}
use z1mak_cv_queue.Worker.Lifecycle.{
  WorkerProcess, at_load, receive_all, start, started_keeps_concurrency,
}
use z1mak_cv_queue.Worker.Preflight.{ready}

-- WorkerConcurrencyBody, once it has passed its schema.
pub record ConcurrencyBody : Type 0 where
  pub queue : ModeType
  pub concurrency : ℕ

-- `concurrency: Type.Integer({ minimum: 1 })`
abbrev pub passes_schema : ConcurrencyBody → Bool
passes_schema body = leb 1 body.concurrency

module _ (R : Redis) where
  open R use {State, exec}

  -- POST /admin/worker-concurrency: SET writes the number as a text. The message that follows is one of
  -- those that a worker process receives.
  unfoldable pub set_worker_concurrency : ConcurrencyBody → State → State
  set_worker_concurrency body s =
      exec (worker_concurrency body.queue, set_text (print (pos body.concurrency))) s

  -- POST /admin/update-models-limits
  unfoldable pub update_models_limits : List ModelRow → State → State
  update_models_limits rows s = reload_model_limits R rows s

  abbrev other : ModeType → ModeType
  other hard = lite
  other lite = hard

  parse-print :
      (n : ℕ) (fallback : ℤ)
      → leb 1 n ≡ true
      → parse_concurrency (some (print (pos n))) fallback ≡ pos n
  unfolding parse_concurrency
  parse-print n fallback h = rw (truthy-print (pos n), number-print (pos n)) (ground arith)

  config-set :
      (queue : ModeType) (n : ℕ) (s : State)
      → leb 1 n ≡ true
      → let t = exec (worker_concurrency queue, set_text (print (pos n))) s in
        (slots_of queue (fetch_concurrency_config R t) ≡ pos n)
        × (slots_of (other queue) (fetch_concurrency_config R t)
            ≡ slots_of (other queue) (fetch_concurrency_config R s))
  unfolding fetch_concurrency_config
  config-set hard n s h =
      let write = text-exec R (worker_concurrency hard) (set_text (print (pos n))) s in
      rw (write (worker_concurrency hard), write (worker_concurrency lite))
        (parse-print n (pos 3) h, refl)
  config-set lite n s h =
      let write = text-exec R (worker_concurrency lite) (set_text (print (pos n))) s in
      rw (write (worker_concurrency lite), write (worker_concurrency hard))
        (parse-print n (pos 8) h, refl)

  -- A concurrency that an admin sets does not change the workers of a process that has started, whatever
  -- messages it gets then. It is in force for a process that starts on the new configuration: for the queue that
  -- the admin named, while the number of the other queue is that of the old configuration.
  pub admin_needs_restart :
      (body : ConcurrencyBody) (s : State) (t : ℕ) (messages : List State)
      → passes_schema body ≡ true
      → let u = set_worker_concurrency body s in
        (p : WorkerProcess R) × (q : WorkerProcess R) × (w : Slots) × (start R
            (ready t)
            s
            s
            (at_load R)
          ≡ some p)
        × (receive_all R (u ∷ messages) p ≡ p)
        × (p.manager.workers ≡ some (fetch_concurrency_config R s))
        × (start R (ready t) u u (at_load R) ≡ some q)
        × (q.manager.workers ≡ some w)
        × (slots_of body.queue w ≡ pos body.concurrency)
        × (slots_of (other body.queue) w
            ≡ slots_of (other body.queue) (fetch_concurrency_config R s))
  unfolding set_worker_concurrency
  admin_needs_restart body s t messages h =
      let u = exec (worker_concurrency body.queue, set_text (print (pos body.concurrency))) s in
      let (p, p_starts, p_workers, p_events, p_keeps, p_stops) =
        started_keeps_concurrency R t s s (u ∷ messages) in
      let (q, q_starts, q_workers, q_events, q_keeps, q_stops) =
        started_keeps_concurrency R t u u messages in
      let (same, rest) = config-set body.queue body.concurrency s h in
      (
        p,
        q,
        fetch_concurrency_config R u,
        p_starts,
        p_keeps,
        p_workers,
        q_starts,
        q_workers,
        same,
        rest,
      )
