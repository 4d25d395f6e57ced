-- ===== src/Examples/Histories.antt =====
-- Two users under limits, and a transaction.
use z1mak_cv_queue.Prelude.{
  Bool, List, String, [], arith, false, if◌then◌else◌, inr, not, refl, true, truthy, ℕ, ◌&&◌, ◌++◌,
  ◌∷◌, ◌≡◌,
}
use z1mak_cv_queue.Prelude.Int.{pos}
use z1mak_cv_queue.Database.{Attempt, Postgres, Work, asks, ends, is_threw, resolved, threw}
use z1mak_cv_queue.Database.Atomic.{Atomic}
use z1mak_cv_queue.Memory.{empty, memory}
use z1mak_cv_queue.Redis.{count, lite, model_rpm, queue_waiting_model, scores}
use z1mak_cv_queue.Scripts.Acquire.{get_or_zero}
use z1mak_cv_queue.Scripts.History.{
  Policy, ScriptCall, admits, charges, enters, gives_up, lapses, refunds, run_history,
}
use z1mak_cv_queue.Scripts.History.Bounded.{history-IsBounded}
use z1mak_cv_queue.Scripts.History.Commands.{Good-zero, IsBounded, counter_limit}

abbrev two_jobs_each : Policy
two_jobs_each = record {
  user_day = λ owner type. pos 4;
  user_jobs = λ owner. pos 2;
  model_minute = λ model. pos 10;
  model_day = λ model. pos 100;
}

abbrev no_keys : memory.State
unfolding memory
no_keys = empty

no_keys-IsBounded : IsBounded memory two_jobs_each no_keys
unfolding memory get_or_zero count scores no_keys
no_keys-IsBounded = record {
  counters = λ k h. Good-zero (counter_limit two_jobs_each k);
  locks = λ owner. inr (omega arith);
}

-- Two admissions, a charge that is given back, the key of the minute lapses, and a full queue after its
-- counter has lapsed.
abbrev a_history : List ScriptCall
a_history =
    admits "u1" lite "2026-01-01" "flash" "j1" 1000 3600 60 3600
    ∷ admits "u1" lite "2026-01-01" "flash" "j2" 2000 3600 60 3600
    ∷ enters "flash"
    ∷ charges "flash" 70 3600
    ∷ refunds "flash" 70 3600
    ∷ lapses (model_rpm "flash")
    ∷ lapses (queue_waiting_model "flash")
    ∷ gives_up "flash"
    ∷ []

history-IsBounded_example :
    IsBounded memory two_jobs_each (run_history memory two_jobs_each a_history no_keys)
history-IsBounded_example =
    history-IsBounded memory two_jobs_each a_history no_keys no_keys-IsBounded

-- A database whose statements add a row each; the empty text is refused.
data Table : Type 0 where
  idle : List String → Table
  busy : (kept pending : List String) (failed : Bool) → Table

ran_statement : String → Table → Attempt (Unit {0}) × Table
ran_statement q (idle l) = (resolved tt, idle (l ++ q ∷ []))
ran_statement q (busy l m f) =
    if truthy q && not f
    then (resolved tt, busy l (m ++ q ∷ []) false)
    else (threw "syntax", busy l m true)

kept_rows : Table → List String
kept_rows (idle l) = l
kept_rows (busy l m f) = l

seen_rows : Table → List String
seen_rows (idle l) = l
seen_rows (busy l m f) = m

is_busy : Table → Bool
is_busy (idle l) = false
is_busy (busy l m f) = true

has_failed : Table → Bool
has_failed (idle l) = false
has_failed (busy l m f) = f

begin_table : Table → Attempt (Unit {0}) × Table
begin_table (idle l) = (resolved tt, busy l l false)
begin_table (busy l m f) = (resolved tt, busy l m f)

commit_table : Table → Attempt (Unit {0}) × Table
commit_table (idle l) = (resolved tt, idle l)
commit_table (busy l m f) = (resolved tt, idle (if f then l else m))

rollback_table : Table → Attempt (Unit {0}) × Table
rollback_table (idle l) = (resolved tt, idle l)
rollback_table (busy l m f) = (resolved tt, idle l)

begin-kept : (s : Table) → kept_rows (begin_table s).1 ≡ kept_rows s
unfolding kept_rows begin_table
begin-kept (idle l) = refl
begin-kept (busy l m f) = refl

begin-busy : (s : Table) → (begin_table s).0 ≡ resolved tt → is_busy (begin_table s).1 ≡ true
unfolding is_busy begin_table
begin-busy (idle l) h = refl
begin-busy (busy l m f) h = refl

begin-unfailed :
    (s : Table)
    → is_busy s ≡ false
    → (begin_table s).0 ≡ resolved tt
    → has_failed (begin_table s).1 ≡ false
unfolding is_busy begin_table has_failed
begin-unfailed (idle l) h k = refl
begin-unfailed (busy l m f) h k = cc

statement-unfailed :
    (q : String) (s : Table)
    → is_busy s ≡ true
    → has_failed s ≡ false
    → is_threw (ran_statement q s).0 ≡ false
    → has_failed (ran_statement q s).1 ≡ false
unfolding ran_statement has_failed is_busy
statement-unfailed q (idle l) h k n = refl
statement-unfailed q (busy l m f) h k n = ground arith

statement-failed :
    (q : String) (s : Table)
    → is_busy s ≡ true
    → is_threw (ran_statement q s).0 ≡ true
    → has_failed (ran_statement q s).1 ≡ true
unfolding ran_statement has_failed is_busy
statement-failed q (idle l) h n = cc
statement-failed q (busy l m f) h n = ground arith

statement-kept :
    (q : String) (s : Table) → is_busy s ≡ true → kept_rows (ran_statement q s).1 ≡ kept_rows s
unfolding kept_rows ran_statement is_busy
statement-kept q (idle l) h = cc
statement-kept q (busy l m f) h = ground arith

statement-busy : (q : String) (s : Table) → is_busy s ≡ true → is_busy (ran_statement q s).1 ≡ true
unfolding ran_statement is_busy
statement-busy q (idle l) h = cc
statement-busy q (busy l m f) h = ground arith

commit-kept :
    (s : Table)
    → is_busy s ≡ true
    → has_failed s ≡ false
    → (commit_table s).0 ≡ resolved tt
    → kept_rows (commit_table s).1 ≡ seen_rows s
unfolding kept_rows commit_table seen_rows has_failed
commit-kept (idle l) h n k = refl
commit-kept (busy l m f) h n k = rw n refl

commit_failed-kept :
    (s : Table)
    → is_busy s ≡ true
    → has_failed s ≡ true
    → kept_rows (commit_table s).1 ≡ kept_rows s
unfolding kept_rows commit_table has_failed
commit_failed-kept (idle l) h y = refl
commit_failed-kept (busy l m f) h y = rw y refl

commit_refused-kept :
    (s : Table) (e : String)
    → (commit_table s).0 ≡ threw e
    → kept_rows (commit_table s).1 ≡ kept_rows s
unfolding kept_rows commit_table
commit_refused-kept (idle l) e h = refl
commit_refused-kept (busy l m f) e h = cc

rollback-kept : (s : Table) → kept_rows (rollback_table s).1 ≡ kept_rows s
unfolding kept_rows rollback_table
rollback-kept (idle l) = refl
rollback-kept (busy l m f) = refl

commit-idle : (s : Table) → (commit_table s).0 ≡ resolved tt → is_busy (commit_table s).1 ≡ false
unfolding is_busy commit_table
commit-idle (idle l) h = refl
commit-idle (busy l m f) h = refl

rollback-idle :
    (s : Table) → (rollback_table s).0 ≡ resolved tt → is_busy (rollback_table s).1 ≡ false
unfolding is_busy rollback_table
rollback-idle (idle l) h = refl
rollback-idle (busy l m f) h = refl

abbrev table : Postgres
table = record {
  Session = Table;
  Db = List String;
  Sql = String;
  Rows = Unit {0};
  set_config = λ claims. claims;
  query = ran_statement;
  begin = begin_table;
  commit = commit_table;
  rollback = rollback_table;
  committed = kept_rows;
  visible = seen_rows;
  is_open = is_busy;
  is_aborted = has_failed;
  begin-committed = begin-kept;
  begin-open = begin-busy;
  begin-clean = begin-unfailed;
  query-clean = statement-unfailed;
  query-aborted = statement-failed;
  query-committed = statement-kept;
  query-open = statement-busy;
  commit-resolved = commit-kept;
  commit-aborted = commit_failed-kept;
  commit-threw = commit_refused-kept;
  rollback-committed = rollback-kept;
  commit-closed = commit-idle;
  rollback-closed = rollback-idle;
}

-- The first statement is kept, the second is refused, and the work throws.
abbrev half_done : Work table ℕ
half_done =
    asks "row"
      λ first. asks "" λ second. ends (elim second [ resolved x ↦ resolved 1 | threw e ↦ threw e ])
