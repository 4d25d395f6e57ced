-- ===== src/Worker/Preflight/Ready.antt =====
-- The wait ends, and it ends well where the limits come in time.
use z1mak_cv_queue.Prelude.{
  Bool-cases, arith, false, inl, inr, ltb, suc, true, zero, ℕ, ◌+◌, ◌-◌, ◌<◌, ◌≡◌, ◌≤◌,
}
use z1mak_cv_queue.Prelude.Int.{pos_part, ℤ}
use z1mak_cv_queue.Redis.{Redis}
use z1mak_cv_queue.Worker.Preflight.{
  Waited, limits_are_ready, out_of_fuel, ready, timed_out, wait_for_model_limits, wait_rounds,
}

module _ (R : Redis) (server : ℕ → R.State) (next_round : ℕ → ℕ) (timeout_ms : ℤ) (started : ℕ)
    (advances : (t : ℕ) → t < next_round t) where
  -- How a wait may end.
  abbrev pub EndsWell : Waited → Type 0
  EndsWell (ready t) = (limits_are_ready R (server t) ≡ true) × (t - started < pos_part timeout_ms)
  EndsWell timed_out = Unit
  EndsWell out_of_fuel = ⊥

  abbrev rounds : ℕ → ℕ → Waited
  rounds fuel now = wait_rounds R server next_round timeout_ms started fuel now

  rounds_end :
      (fuel now : ℕ)
      → started ≤ now
      → started + pos_part timeout_ms ≤ now + fuel
      → EndsWell (rounds (suc fuel) now)
  unfolding wait_rounds
  rounds_end zero now h f =
      let late : ltb (now - started) (pos_part timeout_ms) ≡ false = ground arith in rw late tt
  rounds_end (suc fuel) now h f = elim (Bool-cases (ltb (now - started) (pos_part timeout_ms))) [
    | inr late ↦ rw late tt
    | inl soon ↦ elim (Bool-cases (limits_are_ready R (server now))) [
      | inl e ↦ rw (soon, e) (e, ground arith)
      | inr e ↦
          let t = next_round now in
          rw (soon, e)
            (rounds_end fuel t (omega (arith, advances now)) (omega (arith, advances now)))
    ]
  ]

  rounds_find :
      (from most fuel now : ℕ)
      → ((t : ℕ) → from ≤ t → limits_are_ready R (server t) ≡ true)
      → ((t : ℕ) → next_round t ≤ t + most)
      → from + most < started + pos_part timeout_ms
      → started ≤ now
      → now ≤ from + most
      → started + pos_part timeout_ms ≤ now + fuel
      → (t : ℕ) × (rounds (suc fuel) now ≡ ready t) × (t ≤ from + most)
  unfolding wait_rounds
  rounds_find from most zero now r b l h n f = absurd (omega arith)
  rounds_find from most (suc fuel) now r b l h n f =
      let soon : ltb (now - started) (pos_part timeout_ms) ≡ true = ground arith in
      elim (Bool-cases (limits_are_ready R (server now))) [
        | inl e ↦ (now, rw (soon, e), n)
        | inr e ↦
            let early : now < from = ground (arith, r now) in
            let t = next_round now in
            let (u, found, by) =
              rounds_find from most fuel t r b l (omega (arith, advances now))
                (omega (arith, b now)) (omega (arith, advances now)) in
            (u, rw (soon, e) found, by)
      ]

  -- The wait ends, for rounds that take time: with limits that are ready, within the timeout, or with
  -- the timeout. A round for each millisecond of the timeout is enough.
  wait_ends : EndsWell (wait_for_model_limits R server next_round timeout_ms started)
  unfolding wait_for_model_limits
  wait_ends = rounds_end (pos_part timeout_ms) started (omega arith) (omega arith)

  -- Where the limits are ready from a time on, and a round starts at most some time after the one before,
  -- the wait finds them by the first round after that time, if this is within the timeout. It
  -- is for rounds that take time.
  pub wait_finds_limits :
      (from most : ℕ)
      → ((t : ℕ) → from ≤ t → limits_are_ready R (server t) ≡ true)
      → ((t : ℕ) → next_round t ≤ t + most)
      → started ≤ from + most
      → from + most < started + pos_part timeout_ms
      → (t : ℕ) × (wait_for_model_limits R server next_round timeout_ms started ≡ ready t)
        × (t ≤ from + most)
        × (limits_are_ready R (server t) ≡ true)
  unfolding wait_for_model_limits
  wait_finds_limits from most r b s l =
      let (t, found, by) =
        rounds_find from most (pos_part timeout_ms) started r b l (omega arith) s (omega arith) in
      (t, found, by, (rw found at wait_ends).0)
