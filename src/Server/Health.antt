-- ===== src/Server/Health.antt =====
-- routes/health.ts. What the services answer, and how long that takes, are arguments; the figures of
-- memory, load and uptime are left out.
-- A promise that rejects is `none`.
use z1mak_cv_queue.Prelude.{
  Bool, Option, String, ap, arith, eq_iff, false, if◌then◌else◌, ltb, none, or_else, some, str_eq,
  true, ℕ, ◌&&◌, ◌<◌, ◌||◌, ◌↔◌, ◌≡◌, ◌⊎◌,
}

pub record Probe : Type 0 where
  pub ping : Option String
  pub db_is_connected : Bool
  pub lite_ready : Bool  -- `waitUntilReady()` does not reject
  pub hard_ready : Bool
  pub lite_paused : Option Bool
  pub hard_paused : Option Bool
  pub took_ms : ℕ
  pub pool_total : ℕ
  pub pool_waiting : ℕ

pub record Services : Type 0 where
  pub redis_ok : Bool
  pub db_ok : Bool
  pub queue_ok : Bool
  pub queue_paused : Bool
  pub db_pool_total : ℕ
  pub db_pool_waiting : ℕ

pub data HealthReply : Type 0 where
  report : ℕ → String → Services → HealthReply  -- with its status code
  no_report : ℕ → String → HealthReply

-- REQUEST_TIMEOUT
abbrev request_timeout : ℕ
request_timeout = 7000

abbrev services_of : Probe → Services
services_of p = record {
  redis_ok = str_eq (or_else p.ping "") "PONG";
  db_ok = p.db_is_connected;
  queue_ok = p.lite_ready && p.hard_ready;
  queue_paused = or_else p.lite_paused false || or_else p.hard_paused false;
  db_pool_total = p.pool_total;
  db_pool_waiting = p.pool_waiting;
}

-- The queues do not count for the health of the server.
abbrev is_healthy : Services → Bool
is_healthy s = s.redis_ok && s.db_ok

abbrev pub code_of : HealthReply → ℕ
code_of (report code word s) = code
code_of (no_report code cause) = code

-- `Promise.race` with the timeout.
unfoldable pub check_health : Probe → HealthReply
check_health p =
    let s = services_of p in
    let ok = is_healthy s in
    if ltb p.took_ms request_timeout
    then report (if ok then 200 else 503) (if ok then "ok" else "error") s
    else no_report 503 "Health check timeout"

pings : (o : Option String) → (str_eq (or_else o "") "PONG" ≡ true) ↔ (o ≡ some "PONG")
pings none = (λ e. ground arith, λ e. ground arith)
pings (some a) = (λ e. ap some ((eq_iff a "PONG").0 e), λ e. ground (arith, eq_iff a "PONG"))

-- The answer is 200 or 503. It is 200 if and only if Redis answers PONG and the database is reached
-- before the timeout, whatever the state of the queues, and a request that is slower gets no report.
check_health-code :
    (p : Probe)
    → ((code_of (check_health p) ≡ 200) ⊎ (code_of (check_health p) ≡ 503))
      × ((code_of (check_health p) ≡ 200)
          ↔ ((p.took_ms < 7000) × ((p.ping ≡ some "PONG") × (p.db_is_connected ≡ true))))
unfolding check_health
check_health-code p = (
  ground arith,
  (
    λ e. (ground arith, ((pings p.ping).0 (ground arith), ground arith)),
    λ h. ground (arith, (pings p.ping).1 h.1.0),
  ),
)
