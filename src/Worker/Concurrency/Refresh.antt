-- ===== src/Worker/Concurrency/Refresh.antt =====
-- The workers run as many jobs as the configuration says.
use z1mak_cv_queue.Prelude.{
  Bool, Bool-cases, List, Option, String, [], ap, arith, false, if◌then◌else◌, inl, inr, none, refl,
  some, sym, true, truthy, ◌++◌, ◌∙◌, ◌∷◌, ◌≡◌,
}
use z1mak_cv_queue.Prelude.Int.{ltb_ℤ, negsuc, pos, ℤ}
use z1mak_cv_queue.Js.{Number, finite, infinity, nan, number_of}
use z1mak_cv_queue.Redis.{ModeType, Redis, hard, lite, text, worker_concurrency}
use z1mak_cv_queue.Worker.Concurrency.{
  Manager, Slots, eq_ℤ, fetch_concurrency_config, parse_concurrency, positive_or,
  refresh_concurrency, reload_worker, slots_of, update_worker, with_slots,
}

eq_ℤ_lem : (a b : ℤ) → eq_ℤ a b ≡ true → a ≡ b
eq_ℤ_lem (pos m) (pos n) e = ap pos (ground arith)
eq_ℤ_lem (negsuc m) (negsuc n) e = ap negsuc (ground arith)
eq_ℤ_lem (pos m) (negsuc n) e = ground arith
eq_ℤ_lem (negsuc m) (pos n) e = ground arith

eq_ℤ_refl : (a : ℤ) → eq_ℤ a a ≡ true
eq_ℤ_refl (pos m) = ground arith
eq_ℤ_refl (negsuc m) = ground arith

positive_or-positive :
    (x : Number) (fallback : ℤ)
    → ltb_ℤ (pos 0) fallback ≡ true
    → ltb_ℤ (pos 0) (positive_or x fallback) ≡ true
positive_or-positive (finite n) fallback h = elim (Bool-cases (ltb_ℤ (pos 0) n)) [
  | inl e ↦ rw e e
  | inr e ↦ rw e h
]
positive_or-positive infinity fallback h = h
positive_or-positive nan fallback h = h

parse-positive :
    (raw : Option String) (fallback : ℤ)
    → ltb_ℤ (pos 0) fallback ≡ true
    → ltb_ℤ (pos 0) (parse_concurrency raw fallback) ≡ true
unfolding parse_concurrency
parse-positive none fallback h = h
parse-positive (some raw) fallback h = elim (Bool-cases (truthy raw)) [
  | inl e ↦ rw e (positive_or-positive (number_of raw) fallback h)
  | inr e ↦ rw e h
]

-- What a manager is after one queue is brought to `n`, with workers that agree with its numbers.
abbrev brought : ModeType → ℤ → Manager → Manager
brought m n manager =
    let w = with_slots m n manager.active_concurrency in
    record manager {
      active_concurrency = w;
      workers = some w;
      restarts =
          if eq_ℤ n (slots_of m manager.active_concurrency)
          then manager.restarts
          else m ∷ manager.restarts;
    }

abbrev pub changed : ModeType → Slots → Slots → List ModeType
changed m desired active = if eq_ℤ (slots_of m desired) (slots_of m active) then [] else m ∷ []

with_slots_same : (m : ModeType) (w : Slots) → with_slots m (slots_of m w) w ≡ w
with_slots_same lite w = refl
with_slots_same hard w = refl

update_worker-brought :
    (m : ModeType) (n : ℤ) (manager : Manager)
    → manager.workers ≡ some manager.active_concurrency
    → update_worker m n manager ≡ brought m n manager
unfolding update_worker reload_worker
update_worker-brought m n manager h =
    let w = manager.active_concurrency in
    elim (Bool-cases (eq_ℤ n (slots_of m w))) [
      | inl e ↦ rw (e, eq_ℤ_lem n (slots_of m w) e, with_slots_same m w, sym h) refl
      | inr e ↦ rw (e, h) refl
    ]

restart_if :
    (unchanged : Bool) (m : ModeType) (l : List ModeType)
    → (if unchanged then l else m ∷ l) ≡ (if unchanged then [] else m ∷ []) ++ l
restart_if true m l = refl
restart_if false m l = refl

brought-restarts :
    (d : Slots) (manager : Manager)
    → (brought hard d.hard_slots (brought lite d.lite_slots manager)).restarts
      ≡ changed hard d manager.active_concurrency
        ++ (changed lite d manager.active_concurrency ++ manager.restarts)
brought-restarts d manager =
    let active = manager.active_concurrency in
    restart_if (eq_ℤ d.hard_slots active.hard_slots) hard
      (if eq_ℤ d.lite_slots active.lite_slots then manager.restarts else lite ∷ manager.restarts)
    ∙ ap (λ l. changed hard d active ++ l)
        (restart_if (eq_ℤ d.lite_slots active.lite_slots) lite manager.restarts)

module _ (R : Redis) (s : R.State) where
  abbrev desired : Slots
  desired = fetch_concurrency_config R s

  desired-positive :
      (ltb_ℤ (pos 0) desired.lite_slots ≡ true) × (ltb_ℤ (pos 0) desired.hard_slots ≡ true)
  unfolding fetch_concurrency_config
  desired-positive = (
    parse-positive (text R s (worker_concurrency lite)) (pos 8) refl,
    parse-positive (text R s (worker_concurrency hard)) (pos 3) refl,
  )

  refresh-brought :
      (manager : Manager)
      → manager.is_loading ≡ false
      → manager.workers ≡ some manager.active_concurrency
      → refresh_concurrency R s manager
        ≡ brought hard desired.hard_slots (brought lite desired.lite_slots manager)
  unfolding refresh_concurrency
  refresh-brought manager h w =
      let started = record manager { is_loading = true } in
      rw
        (
          h,
          update_worker-brought lite desired.lite_slots started w,
          update_worker-brought hard desired.hard_slots (brought lite desired.lite_slots started)
              refl,
        )
        refl

  -- A refresh that meets no other, with workers that run at the concurrency that was last set, leaves
  -- workers that run at what the configuration asks for, which is above 0; it closes only the workers
  -- whose number changes, and the same refresh again changes nothing.
  pub refresh_follows :
      (manager : Manager)
      → manager.is_loading ≡ false
      → manager.workers ≡ some manager.active_concurrency
      → let after = refresh_concurrency R s manager in
        (after.workers ≡ some (fetch_concurrency_config R s))
        × (after.active_concurrency ≡ fetch_concurrency_config R s)
        × ((ltb_ℤ (pos 0) (fetch_concurrency_config R s).lite_slots ≡ true)
            × (ltb_ℤ (pos 0) (fetch_concurrency_config R s).hard_slots ≡ true))
        × (after.restarts
            ≡ changed hard (fetch_concurrency_config R s) manager.active_concurrency
              ++ (changed lite (fetch_concurrency_config R s) manager.active_concurrency
                  ++ manager.restarts))
        × (refresh_concurrency R s after ≡ after)
  refresh_follows manager h w =
      let after = brought hard desired.hard_slots (brought lite desired.lite_slots manager) in
      rw (refresh-brought manager h w) (
        refl,
        refl,
        desired-positive,
        brought-restarts desired manager,
        rw
            (
              refresh-brought after h refl,
              eq_ℤ_refl desired.lite_slots,
              eq_ℤ_refl desired.hard_slots,
            )
            refl,
      )
