-- ===== src/Shutdown/Process/Signals.antt =====
-- What a process of the API has closed when it ends, by the signals that come.
use mathlib.Core.List.{append_assoc}
use z1mak_cv_queue.Prelude.{
  Bool, Bool-cases, List, String, [], ap, arith, false, if◌then◌else◌, inl, inr, map, refl, suc,
  sym, true, zero, ℕ, ◌++◌, ◌∙◌, ◌∷◌, ◌≡◌,
}
use z1mak_cv_queue.Cron.Schedule.{
  CronConnection, Timers, close_in_turn, cron_queue_hard, cron_queue_lite, cron_redis, no_timers,
  stop_cron,
}
use z1mak_cv_queue.Shutdown.{
  ShutdownEntry, insert_entry, on_shutdown, run_handlers, runs_before, sort_entries,
  trigger_shutdown,
}
use z1mak_cv_queue.Shutdown.Process.{
  ApiProcess, Closing, ShutdownEvent, close_db, close_queues, close_redis, database, handler_runs,
  next_handler, of_cron, on_handler, on_server_closed, on_signal, queue_hard, queue_lite,
  redis_client, run_handler, run_process, running, server, server_closed, signal, step_process,
  stop_cron_handler, times,
}

-- What the cron service closes where an error ends its stop.
abbrev closed_by_cron : (CronConnection → Bool) → List Closing
closed_by_cron throws_error =
    of_cron cron_queue_lite
    ∷ (if throws_error cron_queue_lite
        then []
        else of_cron cron_queue_hard
          ∷ (if throws_error cron_queue_hard then [] else of_cron cron_redis ∷ []))

closed_by_cron-map :
    (throws_error : CronConnection → Bool)
    → map of_cron
        ((close_in_turn throws_error (cron_queue_lite ∷ cron_queue_hard ∷ cron_redis ∷ [])).0)
      ≡ closed_by_cron throws_error
unfolding close_in_turn
closed_by_cron-map f = ground arith

step-exited :
    (throws_error : CronConnection → Bool) (event : ShutdownEvent) (p : ApiProcess)
    → p.has_exited ≡ true
    → step_process throws_error event p ≡ p
unfolding step_process
step-exited f event p h = ground (arith, h)

step-heard :
    (throws_error : CronConnection → Bool) (p : ApiProcess)
    → p.has_exited ≡ false
    → p.listens ≡ true
    → step_process throws_error signal p ≡ record p { is_stopping = true }
unfolding step_process on_signal
step-heard f p h k = ground (arith, h, k)

step-kills :
    (throws_error : CronConnection → Bool) (p : ApiProcess)
    → p.has_exited ≡ false
    → p.listens ≡ false
    → step_process throws_error signal p ≡ record p { has_exited = true }
unfolding step_process on_signal
step-kills f p h k = ground (arith, h, k)

-- Signals while the server closes.
signals-ignored :
    (n : ℕ) (throws_error : CronConnection → Bool) (l : List ShutdownEvent) (p : ApiProcess)
    → p.has_exited ≡ false
    → p.listens ≡ true
    → run_process throws_error (signal ∷ times n signal l) p
      ≡ run_process throws_error l (record p { is_stopping = true })
unfolding run_process
signals-ignored zero f l p h k = ap (run_process f l) (step-heard f p h k)
signals-ignored (suc n) f l p h k =
    ap (run_process f (signal ∷ times n signal l)) (step-heard f p h k)
    ∙ signals-ignored n f l (record p { is_stopping = true }) h k

run_process-exited :
    (throws_error : CronConnection → Bool) (l : List ShutdownEvent) (p : ApiProcess)
    → p.has_exited ≡ true
    → run_process throws_error l p ≡ p
unfolding run_process
run_process-exited f [] p h = refl
run_process-exited f (event ∷ l) p h =
    ap (run_process f l) (step-exited f event p h) ∙ run_process-exited f l p h

run_handler-listens :
    (throws_error : CronConnection → Bool) (name : String) (p : ApiProcess)
    → (run_handler throws_error name p).listens ≡ p.listens
unfolding close_queues close_redis close_db stop_cron_handler
run_handler-listens f name p = ground arith

next_handler-listens :
    (throws_error : CronConnection → Bool) (l : List (ShutdownEntry × Bool)) (p : ApiProcess)
    → (next_handler throws_error l p).listens ≡ p.listens
next_handler-listens f [] p = refl
next_handler-listens f ((entry, threw_too) ∷ l) p =
    run_handler-listens f entry.handler (record p { waiting = l })

handlers-listens :
    (k : ℕ) (throws_error : CronConnection → Bool) (p : ApiProcess)
    → (run_process throws_error (times k handler_runs []) p).listens ≡ p.listens
unfolding run_process step_process on_handler
handlers-listens zero f p = refl
handlers-listens (suc k) f p =
    handlers-listens k f (step_process f handler_runs p)
    ∙ ground (arith, next_handler-listens f p.waiting p)

run_process-times :
    (k : ℕ) (throws_error : CronConnection → Bool) (e : ShutdownEvent) (l : List ShutdownEvent)
    (p : ApiProcess)
    → run_process throws_error (times k e l) p
      ≡ run_process throws_error l (run_process throws_error (times k e []) p)
unfolding run_process
run_process-times zero f e l p = refl
run_process-times (suc k) f e l p = run_process-times k f e l (step_process f e p)

-- A signal without listeners.
signal-ends :
    (throws_error : CronConnection → Bool) (l : List ShutdownEvent) (p : ApiProcess)
    → p.listens ≡ false
    → run_process throws_error (signal ∷ l) p ≡ record p { has_exited = true }
unfolding run_process
signal-ends f l p h = elim (Bool-cases p.has_exited) [
  | inl e ↦
      ap (run_process f l) (step-exited f signal p e) ∙ run_process-exited f l p e ∙ same_record e
  | inr e ↦
      ap (run_process f l) (step-kills f p e h)
      ∙ run_process-exited f l (record p { has_exited = true }) refl
]
  where
    same_record : p.has_exited ≡ true → p ≡ record p { has_exited = true }
    same_record e = ap (λ b. record p { has_exited = b }) e

-- The process after the server has closed, and the handlers that it has to run.
abbrev closed_server : Timers → ApiProcess
closed_server timers = on_server_closed (record (running timers) { is_stopping = true })

-- Signals until the server has closed.
abbrev pub stopping : ℕ → List ShutdownEvent → List ShutdownEvent
stopping n l = signal ∷ times n signal (server_closed ∷ l)

stopping-closed :
    (n : ℕ) (throws_error : CronConnection → Bool) (timers : Timers) (l : List ShutdownEvent)
    → run_process throws_error (stopping n l) (running timers)
      ≡ run_process throws_error l (closed_server timers)
unfolding run_process step_process
stopping-closed n f timers l = signals-ignored n f (server_closed ∷ l) (running timers) refl refl

all_handlers :
    (throws_error : CronConnection → Bool) (timers : Timers)
    → let p = run_process throws_error (times 5 handler_runs []) (closed_server timers) in
      (p.closings
        ≡ server
          ∷ queue_lite
          ∷ queue_hard
          ∷ (closed_by_cron throws_error ++ redis_client ∷ database ∷ []))
      × (p.timers ≡ no_timers)
      × (p.has_exited ≡ true)
unfolding run_process step_process on_server_closed on_handler trigger_shutdown sort_entries
    insert_entry runs_before run_handlers on_shutdown close_queues close_redis close_db
    stop_cron_handler stop_cron
all_handlers f timers = (
  ap (λ l. server ∷ queue_lite ∷ queue_hard ∷ ((l ++ redis_client ∷ []) ++ database ∷ []))
        (closed_by_cron-map f)
      ∙ ap (λ l. server ∷ queue_lite ∷ queue_hard ∷ l)
          (append_assoc (closed_by_cron f) (redis_client ∷ []) (database ∷ [])),
  refl,
  refl,
)

-- However many signals come until the server has closed, and whichever of the calls throw: the server
-- is closed first, then the queues, then what the cron service has open, up to the first of these that
-- throws, and then the connections of Redis and of the database, each once. No timer of a cron job is
-- left, and the process exits. One more signal after the server has closed, be it after k handlers,
-- ends the process as it is then, and no further handler runs.
pub signals_close_all :
    (n k : ℕ) (throws_error : CronConnection → Bool) (timers : Timers) (l : List ShutdownEvent)
    → let p = run_process throws_error (stopping n (times 5 handler_runs [])) (running timers) in
      let q = run_process throws_error (stopping n (times k handler_runs [])) (running timers) in
      (p.closings
        ≡ server
          ∷ queue_lite
          ∷ queue_hard
          ∷ (closed_by_cron throws_error ++ redis_client ∷ database ∷ []))
      × (p.timers ≡ no_timers)
      × (p.has_exited ≡ true)
      × (run_process throws_error (stopping n (times k handler_runs (signal ∷ l))) (running timers)
          ≡ record q { has_exited = true })
unfolding on_server_closed
signals_close_all n k f timers l =
    let all = stopping-closed n f timers (times 5 handler_runs []) in
    let some_of = stopping-closed n f timers (times k handler_runs []) in
    let cut = stopping-closed n f timers (times k handler_runs (signal ∷ l)) in
    let ended_now : ApiProcess → ApiProcess = λ p. record p { has_exited = true } in
    let (closed, none_left, ended) = all_handlers f timers in
    (
      ap (λ p. p.closings) all ∙ closed,
      ap (λ p. p.timers) all ∙ none_left,
      ap (λ p. p.has_exited) all ∙ ended,
      cut
          ∙ run_process-times k f handler_runs (signal ∷ l) (closed_server timers)
          ∙ signal-ends f l _ (handlers-listens k f (closed_server timers) ∙ refl)
          ∙ ap ended_now (sym some_of),
    )
