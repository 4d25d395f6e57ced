-- ===== src/Worker/Concurrency.antt =====
-- worker/concurrencyManager.ts: how many jobs each of the two workers runs at once. A worker is the
-- concurrency that it was created with.
pub mod Refresh
use z1mak_cv_queue.Prelude.{
  Bool, List, Option, String, false, if◌then◌else◌, none, some, true, truthy, ◌==◌, ◌∷◌,
}
use z1mak_cv_queue.Prelude.Int.{ltb_ℤ, negsuc, pos, ℤ}
use z1mak_cv_queue.Js.{Number, finite, infinity, nan, number_of}
use z1mak_cv_queue.Redis.{ModeType, Redis, hard, lite, text, worker_concurrency}

-- One number for each queue: `activeConcurrency`, and the workers of `WorkerMap`.
pub record Slots : Type 0 where
  pub lite_slots : ℤ
  pub hard_slots : ℤ

abbrev pub default_concurrency : Slots
default_concurrency = record { lite_slots = pos 8; hard_slots = pos 3 }

-- `restarts` lists the workers that were closed and created again.
pub record Manager : Type 0 where
  pub active_concurrency : Slots
  pub is_loading : Bool
  pub workers : Option Slots
  pub restarts : List ModeType

abbrev pub positive_or : Number → ℤ → ℤ
positive_or (finite n) fallback = if ltb_ℤ (pos 0) n then n else fallback
positive_or infinity fallback = fallback
positive_or nan fallback = fallback

unfoldable pub parse_concurrency : Option String → ℤ → ℤ
parse_concurrency none fallback = fallback
parse_concurrency (some raw) fallback =
    if truthy raw then positive_or (number_of raw) fallback else fallback

abbrev pub eq_ℤ : ℤ → ℤ → Bool
eq_ℤ (pos m) (pos n) = m == n
eq_ℤ (negsuc m) (negsuc n) = m == n
eq_ℤ (pos m) (negsuc n) = false
eq_ℤ (negsuc m) (pos n) = false

-- The number of one queue, the worker of another left as it is.
abbrev pub with_slots : ModeType → ℤ → Slots → Slots
with_slots lite n w = record w { lite_slots = n }
with_slots hard n w = record w { hard_slots = n }

abbrev pub slots_of : ModeType → Slots → ℤ
slots_of lite w = w.lite_slots
slots_of hard w = w.hard_slots

-- Nothing before the workers are created.
unfoldable pub reload_worker : ModeType → ℤ → Manager → Manager
reload_worker m n manager = elim manager.workers [
  | none ↦ manager
  | some w ↦ record manager { workers = some (with_slots m n w); restarts = m ∷ manager.restarts }
]

-- The branch of `refreshConcurrency` for one queue.
unfoldable pub update_worker : ModeType → ℤ → Manager → Manager
update_worker m n manager =
    if eq_ℤ n (slots_of m manager.active_concurrency)
    then manager
    else reload_worker m n
        (record manager { active_concurrency = with_slots m n manager.active_concurrency })

module _ (R : Redis) where
  open R use {State}

  unfoldable pub fetch_concurrency_config : State → Slots
  fetch_concurrency_config s = record {
    lite_slots =
        parse_concurrency (text R s (worker_concurrency lite)) default_concurrency.lite_slots;
    hard_slots =
        parse_concurrency (text R s (worker_concurrency hard)) default_concurrency.hard_slots;
  }

  unfoldable pub init_workers : State → Manager → Manager
  init_workers s manager =
      let desired = fetch_concurrency_config s in
      record manager { active_concurrency = desired; workers = some desired }

  -- `isConcurrencyLoading` is set at the start and reset in `finally`.
  unfoldable pub refresh_concurrency : State → Manager → Manager
  refresh_concurrency s manager =
      let desired = fetch_concurrency_config s in
      if manager.is_loading
      then manager
      else (record (update_worker hard desired.hard_slots
          (update_worker lite desired.lite_slots (record manager { is_loading = true }))) {
            is_loading = false;
          })
