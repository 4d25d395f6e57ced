-- ===== src/Shutdown/Process.antt =====
-- plugins/shutdown.ts, plugins/redis.ts and plugins/database.ts: what the process of the API closes on a
-- signal. Which of the calls throw is an argument; each is caught and logged.
pub mod Signals
use z1mak_cv_queue.Prelude.{
  Bool, List, String, [], false, if◌then◌else◌, map, not, str_eq, suc, true, zero, ℕ, ◌&&◌, ◌++◌,
  ◌∷◌,
}
use z1mak_cv_queue.Cron.Schedule.{CronConnection, Timers, stop_cron}
use z1mak_cv_queue.Shutdown.{Emitter, ShutdownEntry, no_handlers, on_shutdown, trigger_shutdown}

pub data Closing : Type 0 where
  server queue_lite queue_hard redis_client database : Closing
  of_cron : CronConnection → Closing

-- The variables of the three plugins, what was closed so far, and whether `process.exit` was called.
pub record ApiProcess : Type 0 where
  pub closings : List Closing
  pub timers : Timers
  pub queues_closed : Bool
  pub redis_closed : Bool
  pub db_closed : Bool
  pub is_stopping : Bool
  pub listens : Bool  -- the handlers of SIGINT and SIGTERM are installed
  pub waiting : List (ShutdownEntry × Bool)  -- the handlers that are still to run
  pub has_exited : Bool
  pub emitter : Emitter

abbrev pub closing : List Closing → ApiProcess → ApiProcess
closing l p = record p { closings = p.closings ++ l }

-- `closeQueues`, `closeRedis` and `closeDb`: a flag each, and errors that are caught.
unfoldable pub close_queues : ApiProcess → ApiProcess
close_queues p =
    if p.queues_closed
    then p
    else closing (queue_lite ∷ queue_hard ∷ []) (record p { queues_closed = true })

unfoldable pub close_redis : ApiProcess → ApiProcess
close_redis p =
    if p.redis_closed then p else closing (redis_client ∷ []) (record p { redis_closed = true })

unfoldable pub close_db : ApiProcess → ApiProcess
close_db p = if p.db_closed then p else closing (database ∷ []) (record p { db_closed = true })

-- `stopCronHandler`
unfoldable pub stop_cron_handler : (CronConnection → Bool) → ApiProcess → ApiProcess
stop_cron_handler throws_error p =
    let (timers, (closed, failed_too)) = stop_cron throws_error p.timers in
    closing (map of_cron closed) (record p { timers = timers })

abbrev pub run_handler : (CronConnection → Bool) → String → ApiProcess → ApiProcess
run_handler throws_error name p =
    if str_eq name "closeQueues"
    then close_queues p
    else if str_eq name "closeRedis"
    then close_redis p
    else if str_eq name "closeDb"
    then close_db p
    else if str_eq name "stopCronHandler"
    then stop_cron_handler throws_error p
    else p

-- The registrations, in the order in which the plugins are registered.
abbrev pub registered : Emitter
registered = on_shutdown "stopCronHandler" 40 (
    on_shutdown "closeRedis" 50
      (on_shutdown "closeQueues" 30 (on_shutdown "closeDb" 60 no_handlers)))

-- What happens to the process: a signal, the end of `fastify.close()`, and the next handler.
pub data ShutdownEvent : Type 0 where
  signal server_closed handler_runs : ShutdownEvent

-- `handleSignal` while its listeners are there: the first signal starts `shutdown`. Without them a signal
-- has its default effect, and the process ends.
unfoldable pub on_signal : ApiProcess → ApiProcess
on_signal p = if p.listens then record p { is_stopping = true } else record p { has_exited = true }

-- `fastify.close()`, whose onClose hook takes the listeners off, and then `triggerShutdown`. No handler
-- throws, since each catches what it calls.
unfoldable pub on_server_closed : ApiProcess → ApiProcess
on_server_closed p =
    let (entries, emitter) = trigger_shutdown (λ name. false) p.emitter in
    if p.is_stopping && p.listens
    then closing (server ∷ []) (record p { listens = false; waiting = entries; emitter = emitter })
    else p

-- One handler after the other, and `process.exit(0)` after the last.
abbrev pub next_handler :
    (CronConnection → Bool) → List (ShutdownEntry × Bool) → ApiProcess → ApiProcess
next_handler throws_error [] p = record p { has_exited = true }
next_handler throws_error ((entry, threw_too) ∷ l) p =
    run_handler throws_error entry.handler (record p { waiting = l })

unfoldable pub on_handler : (CronConnection → Bool) → ApiProcess → ApiProcess
on_handler throws_error p =
    if p.is_stopping && not p.listens then next_handler throws_error p.waiting p else p

abbrev on_event : (CronConnection → Bool) → ShutdownEvent → ApiProcess → ApiProcess
on_event throws_error signal p = on_signal p
on_event throws_error server_closed p = on_server_closed p
on_event throws_error handler_runs p = on_handler throws_error p

-- Nothing happens to a process that has ended.
unfoldable pub step_process : (CronConnection → Bool) → ShutdownEvent → ApiProcess → ApiProcess
unfolding on_signal on_server_closed on_handler
step_process throws_error e p = if p.has_exited then p else on_event throws_error e p

unfoldable pub run_process : (CronConnection → Bool) → List ShutdownEvent → ApiProcess → ApiProcess
unfolding step_process
run_process throws_error [] p = p
run_process throws_error (e ∷ l) p = run_process throws_error l (step_process throws_error e p)

abbrev pub times : ℕ → ShutdownEvent → List ShutdownEvent → List ShutdownEvent
times zero e l = l
times (suc n) e l = e ∷ times n e l

-- A process whose plugins are registered, before any signal.
abbrev pub running : Timers → ApiProcess
running timers = record {
  closings = [];
  timers = timers;
  queues_closed = false;
  redis_closed = false;
  db_closed = false;
  is_stopping = false;
  listens = true;
  waiting = [];
  has_exited = false;
  emitter = registered;
}
