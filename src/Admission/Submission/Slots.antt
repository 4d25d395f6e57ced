-- ===== src/Admission/Submission/Slots.antt =====
-- The place in the queue that a submission takes, and what follows a selection.
use z1mak_cv_queue.Prelude.{String, arith, eq_refl, or_else, refl, ◌≡◌}
use z1mak_cv_queue.Prelude.Int.{negsuc, pos, ℤ, ◌+ℤ◌, ◌≤ℤ◌}
use z1mak_cv_queue.Admission.QueueLength.{compute_max_queue_length}
use z1mak_cv_queue.Admission.Selection.{Selection, SelectionError, refused, selected}
use z1mak_cv_queue.Admission.Submission.{
  SubmitError, avg_seconds, limit, on_selection, queue_full, ready, rejected, take_slot,
}
use z1mak_cv_queue.Redis.{Key, ModeType, Redis, count, incrby, queue_waiting_model}
use z1mak_cv_queue.Redis.Laws.{count-exec}
use z1mak_cv_queue.Scripts.Acquire.{get_or_zero}

up_and_down : (n : ℤ) → n +ℤ pos 1 +ℤ negsuc 0 ≡ n
unfolding ◌+ℤ◌
up_and_down n = ground arith

module _ (R : Redis) (type : ModeType) (requested model : String) (rpm rpd : ℤ) where
  open R use {State}

  slot-rejected :
      (s : State) (k : Key) {e : SubmitError} {s' : State}
      → take_slot R type requested model rpm rpd s ≡ (rejected e, s')
      → (e ≡ queue_full) × (get_or_zero R k s' ≡ get_or_zero R k s)
  unfolding take_slot get_or_zero
  slot-rejected s k h = ground (
    arith,
    count-exec R (queue_waiting_model model) (incrby (pos 1)) s k,
    count-exec R (queue_waiting_model model) (incrby (negsuc 0))
        (R.exec (queue_waiting_model model, incrby (pos 1)) s) k,
    up_and_down (or_else (count R s k) (pos 0)),
  )

  slot-ready :
      (s : State) {r m : String} {s' : State}
      → take_slot R type requested model rpm rpd s ≡ (ready r m, s')
      → (m ≡ model)
        × (get_or_zero R (queue_waiting_model model) s'
            ≡ get_or_zero R (queue_waiting_model model) s +ℤ pos 1)
        × (get_or_zero R (queue_waiting_model model) s'
            ≤ℤ pos (compute_max_queue_length rpm rpd (avg_seconds type)))
  unfolding take_slot get_or_zero
  slot-ready s h = ground (
    arith,
    count-exec R (queue_waiting_model model) (incrby (pos 1)) s (queue_waiting_model model),
    eq_refl model,
  )

module _ (R : Redis) (type : ModeType) (c : String) where
  open R use {State}

  pub on_selection-limit :
      (sel : Selection) (t : State) {e : SelectionError} {s' : State}
      → on_selection R type c (sel, t) ≡ (rejected (limit e), s')
      → (sel ≡ refused e) × (s' ≡ t)
  unfolding on_selection
  on_selection-limit (refused e') t h = ground arith
  on_selection-limit (selected m rpm rpd) t {e} {s'} h =
      ground
        (arith, slot-rejected R type c m rpm rpd t (queue_waiting_model m) {e = limit e} {s' = s'})

  pub on_selection-full :
      (sel : Selection) (t : State) {s' : State}
      → on_selection R type c (sel, t) ≡ (rejected queue_full, s')
      → (m : String) × (rpm : ℤ) × (rpd : ℤ) × (sel ≡ selected m rpm rpd)
        × ((k : Key) → get_or_zero R k s' ≡ get_or_zero R k t)
  unfolding on_selection
  on_selection-full (refused e) t h = cc
  on_selection-full (selected m rpm rpd) t h =
      (m, rpm, rpd, refl, λ k. (slot-rejected R type c m rpm rpd t k h).1)

  pub on_selection-ready :
      (sel : Selection) (t : State) {r m : String} {s' : State}
      → on_selection R type c (sel, t) ≡ (ready r m, s')
      → (rpm : ℤ) × (rpd : ℤ) × (sel ≡ selected m rpm rpd)
        × (get_or_zero R (queue_waiting_model m) s'
            ≡ get_or_zero R (queue_waiting_model m) t +ℤ pos 1)
        × (get_or_zero R (queue_waiting_model m) s'
            ≤ℤ pos (compute_max_queue_length rpm rpd (avg_seconds type)))
  unfolding on_selection
  on_selection-ready (refused e) t h = cc
  on_selection-ready (selected model rpm rpd) t {r} {m} {s'} h = (
    rpm,
    rpd,
    ground (arith, slot-ready R type c model rpm rpd t {r = r} {m = m} {s' = s'}),
    ground (arith, slot-ready R type c model rpm rpd t {r = r} {m = m} {s' = s'}),
    ground (arith, slot-ready R type c model rpm rpd t {r = r} {m = m} {s' = s'}),
  )
