-- ===== src/Worker/Lifecycle.antt =====
-- worker/index.ts with worker/configSubscription.ts: the start of a worker process, the messages that it
-- gets, and its shutdown. The documented behaviour of `subscribe` of ioredis is part of the model: its
-- callback is called once, with the answer to the subscription; a message goes to the
-- listeners of the event 'message'.
use z1mak_cv_queue.Prelude.{List, Option, [], ap, false, none, refl, some, sym, ℕ, ◌∙◌, ◌∷◌, ◌≡◌}
use z1mak_cv_queue.Redis.{ModeType, Redis, hard, lite}
use z1mak_cv_queue.Worker.Concurrency.{
  Manager, default_concurrency, fetch_concurrency_config, init_workers, refresh_concurrency,
}
use z1mak_cv_queue.Worker.Concurrency.Refresh.{refresh_follows}
use z1mak_cv_queue.Worker.Preflight.{Waited, out_of_fuel, ready, timed_out}

pub data Opened : Type 0 where
  queue_events queue worker_of : ModeType → Opened
  main_redis subscriber_redis : Opened

pub record WorkerProcess (R : Redis) : Type 0 where
  pub manager : Manager
  pub listening : List ModeType  -- the queues whose events are registered, the last one first
  pub message_listeners : List (R.State → Manager → Manager)

abbrev pub all_opened : List Opened
all_opened =
    worker_of lite
    ∷ worker_of hard
    ∷ queue_events lite
    ∷ queue_events hard
    ∷ queue lite
    ∷ queue hard
    ∷ main_redis
    ∷ subscriber_redis
    ∷ []

-- `let workers`, and the variables of the concurrency manager; the module adds no listener for messages.
abbrev pub at_load : (R : Redis) → WorkerProcess R
at_load R = record {
  manager = record {
    active_concurrency = default_concurrency;
    is_loading = false;
    workers = none;
    restarts = [];
  };
  listening = [];
  message_listeners = [];
}

module _ (R : Redis) where
  open R use {State}

  -- `registerQueueEvents`
  abbrev pub register_queue_events : ModeType → WorkerProcess R → WorkerProcess R
  register_queue_events type p = record p { listening = type ∷ p.listening }

  -- `setupConfigSubscription`: the callback is a refresh, which the client calls once with the answer,
  -- be it the confirmation or the error; a subscription that fails is logged besides.
  unfoldable pub setup_config_subscription : State → WorkerProcess R → WorkerProcess R
  setup_config_subscription s p = record p { manager = refresh_concurrency R s p.manager }

  -- `start`, on what the wait for the limits gave, and the server when the workers are created and when the
  -- subscription is answered; `none` is a start that throws.
  unfoldable pub start : Waited → State → State → WorkerProcess R → Option (WorkerProcess R)
  start (ready t) s later p =
      let q = register_queue_events hard (register_queue_events lite p) in
      let created = record q { manager = refresh_concurrency R s (init_workers R s q.manager) } in
      some (setup_config_subscription later created)
  start timed_out s later p = none
  start out_of_fuel s later p = none

  abbrev run_listeners : List (State → Manager → Manager) → State → Manager → Manager
  run_listeners [] s m = m
  run_listeners (listener ∷ l) s m = run_listeners l s (listener s m)

  -- A message on the channel of the configuration.
  unfoldable pub receive_message : State → WorkerProcess R → WorkerProcess R
  receive_message s p = record p { manager = run_listeners p.message_listeners s p.manager }

  abbrev pub receive_all : List State → WorkerProcess R → WorkerProcess R
  receive_all [] p = p
  receive_all (s ∷ l) p = receive_all l (receive_message s p)

  -- `shutdown`: what is closed, in order. Without workers it throws, and closes nothing.
  unfoldable pub stop_worker : WorkerProcess R → Option (List Opened)
  stop_worker p = elim p.manager.workers [ none ↦ none | some w ↦ some all_opened ]

  receive_message-idle :
      (s : State) (p : WorkerProcess R) → p.message_listeners ≡ [] → receive_message s p ≡ p
  unfolding receive_message
  receive_message-idle s p h = ap (λ l. record p { manager = run_listeners l s p.manager }) h

  receive_all-idle :
      (l : List State) (p : WorkerProcess R) → p.message_listeners ≡ [] → receive_all l p ≡ p
  receive_all-idle [] p h = refl
  receive_all-idle (s ∷ l) p h =
      ap (receive_all l) (receive_message-idle s p h) ∙ receive_all-idle l p h

  -- A process that starts on ready limits has registered the events of both queues, and its workers run
  -- at what the configuration says when the subscription is answered. From then on no message changes
  -- them, whatever the configuration has become by then: a concurrency that an admin sets is in force
  -- for the processes that start after it.
  pub started_keeps_concurrency :
      (t : ℕ) (s later : State) (messages : List State)
      → (p : WorkerProcess R) × (start (ready t) s later (at_load R) ≡ some p)
        × (p.manager.workers ≡ some (fetch_concurrency_config R later))
        × (p.listening ≡ hard ∷ lite ∷ [])
        × (receive_all messages p ≡ p)
        × (stop_worker p ≡ some all_opened)
  unfolding start setup_config_subscription init_workers refresh_concurrency stop_worker
  started_keeps_concurrency t s later messages =
      let created = init_workers R s ((at_load R).manager) in
      let once = refresh_concurrency R s created in
      let first = refresh_follows R s created refl refl in
      let second = refresh_follows R later once refl (first.0 ∙ ap some (sym first.1)) in
      let p : WorkerProcess R = record {
        manager = refresh_concurrency R later once;
        listening = hard ∷ lite ∷ [];
        message_listeners = [];
      } in
      (p, refl, second.0, refl, receive_all-idle messages p refl, rw (stop_worker, second.0) refl)
