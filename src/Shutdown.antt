-- ===== src/Shutdown.antt =====
-- utils/shutdownEmitter.ts: the handlers that run when the process stops. A handler is a name, and
-- which of them throw is an argument.
pub mod Order
pub mod Process
use z1mak_cv_queue.Prelude.{
  Bool, List, String, [], false, if◌then◌else◌, ltb, true, ℕ, ◌++◌, ◌+◌, ◌==◌, ◌∷◌,
}

pub record ShutdownEntry : Type 0 where
  pub handler : String
  pub priority : ℕ
  pub order : ℕ

-- The variables of the module.
pub record Emitter : Type 0 where
  pub shutdown_entries : List ShutdownEntry
  pub handler_order : ℕ
  pub is_shutting_down : Bool

abbrev pub no_handlers : Emitter
no_handlers = record { shutdown_entries = []; handler_order = 0; is_shutting_down = false }

-- `onShutdown`
unfoldable pub on_shutdown : String → ℕ → Emitter → Emitter
on_shutdown name rank e = record e {
  shutdown_entries =
      e.shutdown_entries
      ++ record { handler = name; priority = rank; order = e.handler_order } ∷ [];
  handler_order = e.handler_order + 1;
}

-- The comparator: by priority, and by order of registration where priorities are equal.
unfoldable pub runs_before : ShutdownEntry → ShutdownEntry → Bool
runs_before a b =
    if a.priority == b.priority then ltb a.order b.order else ltb a.priority b.priority

unfoldable pub insert_entry : ShutdownEntry → List ShutdownEntry → List ShutdownEntry
insert_entry a [] = a ∷ []
insert_entry a (b ∷ l) =
    let rest = insert_entry a l in if runs_before b a then b ∷ rest else a ∷ b ∷ l

unfoldable pub sort_entries : List ShutdownEntry → List ShutdownEntry
sort_entries [] = []
sort_entries (a ∷ l) = insert_entry a (sort_entries l)

-- The loop: a handler that throws is logged, and the next one runs. The result is what was run, and
-- which of it failed.
unfoldable pub run_handlers : (String → Bool) → List ShutdownEntry → List (ShutdownEntry × Bool)
run_handlers throws_error [] = []
run_handlers throws_error (a ∷ l) = (a, throws_error a.handler) ∷ run_handlers throws_error l

-- `triggerShutdown`
unfoldable pub trigger_shutdown : (String → Bool) → Emitter → List (ShutdownEntry × Bool) × Emitter
trigger_shutdown throws_error e = if e.is_shutting_down then ([], e) else (
  run_handlers throws_error (sort_entries e.shutdown_entries),
  record e { is_shutting_down = true },
)
