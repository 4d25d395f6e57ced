-- ===== src/Scripts/History/Commands.antt =====
-- Which commands keep the counters and the locks within their limits.
use z1mak_cv_queue.Prelude.{
  Assoc, Bool, Bool-cases, Option, String, [], ap, arith, eq_iff, false, if◌then◌else◌, inl, inr,
  length, or_else, refl, true, without, ℕ, ◌∷◌, ◌≡◌, ◌≢◌, ◌≤◌, ◌⊎◌,
}
use z1mak_cv_queue.Prelude.Int.{+ℤ_parts, negsuc, pos, ℤ, ◌+ℤ◌, ◌≤ℤ◌}
use z1mak_cv_queue.Redis.{
  Action, Key, ModeType, Redis, above, count, cron_lock, del, hard, incrby, job_meta, job_result,
  job_stream, key_eq, lite, mode_eq, model_ids, model_limits, model_rpd, model_rpm, on_count,
  on_scores, queue_waiting_model, scores, set, set_text, user_active_jobs, user_limits,
  user_type_rpd, worker_concurrency, zadd, zrem, zremrangebyscore,
}
use z1mak_cv_queue.Redis.Laws.{count-exec, scores-exec}
use z1mak_cv_queue.Scripts.Acquire.{Within, get_or_zero, over}
use z1mak_cv_queue.Scripts.History.{Policy}
use z1mak_cv_queue.Scripts.Release.{clamp_sub}
use z1mak_cv_queue.Scripts.Release.Laws.{clamp_sub-le, clamp_sub-nonneg}

mode_eq-eq : (m n : ModeType) → mode_eq m n ≡ true → m ≡ n
mode_eq-eq hard hard h = refl
mode_eq-eq lite lite h = refl
mode_eq-eq hard lite h = cc
mode_eq-eq lite hard h = cc

key_eq-eq : (k j : Key) → key_eq k j ≡ true → k ≡ j
key_eq-eq (model_limits a) (model_limits b) h = ap model_limits ((eq_iff a b).0 h)
key_eq-eq (model_rpm a) (model_rpm b) h = ap model_rpm ((eq_iff a b).0 h)
key_eq-eq (model_rpd a) (model_rpd b) h = ap model_rpd ((eq_iff a b).0 h)
key_eq-eq (user_active_jobs a) (user_active_jobs b) h = ap user_active_jobs ((eq_iff a b).0 h)
key_eq-eq (job_meta a) (job_meta b) h = ap job_meta ((eq_iff a b).0 h)
key_eq-eq (job_result a) (job_result b) h = ap job_result ((eq_iff a b).0 h)
key_eq-eq (job_stream a) (job_stream b) h = ap job_stream ((eq_iff a b).0 h)
key_eq-eq (user_limits a) (user_limits b) h = ap user_limits ((eq_iff a b).0 h)
key_eq-eq (queue_waiting_model a) (queue_waiting_model b) h =
    ap queue_waiting_model ((eq_iff a b).0 h)
key_eq-eq (cron_lock a) (cron_lock b) h = ap cron_lock ((eq_iff a b).0 h)
key_eq-eq model_ids model_ids h = refl
key_eq-eq (worker_concurrency a) (worker_concurrency b) h = ap worker_concurrency (mode_eq-eq a b h)
key_eq-eq (user_type_rpd a m c) (user_type_rpd b n d) h =
    ground (arith, eq_iff a b, mode_eq-eq m n, eq_iff c d)
key_eq-eq _ _ h = cc

-- The waiting counter of a queue, which a raw DECR gives back as well.
abbrev pub is_waiting : Key → Bool
is_waiting (queue_waiting_model model) = true
is_waiting _ = false

-- Within its limit, if one binds, and not negative.
abbrev pub Good : ℤ → ℤ → Type 0
Good limit n = (pos 0 ≤ℤ n) × Within limit n

pub Good-add : (limit n : ℤ) → Good limit n → over limit n (pos 1) ≡ false → Good limit (n +ℤ pos 1)
unfolding over
Good-add limit n g h = ground (arith, +ℤ_parts n (pos 1))

pub Good-sub : (limit n : ℤ) → Good limit n → Good limit (clamp_sub n (pos 1))
Good-sub limit n g = ground (arith, clamp_sub-nonneg n (pos 1), clamp_sub-le n (pos 1))

above-length : (now : ℕ) (z : Assoc ℕ) → length (above now z) ≤ length z
unfolding above
above-length now [] = omega arith
above-length now ((m, t) ∷ z) = ground (arith, above-length now z)

without-length : (m : String) (z : Assoc ℕ) → length (without m z) ≤ length z
unfolding without
without-length m [] = omega arith
without-length m ((n, t) ∷ z) = ground (arith, without-length m z)

module _ (p : Policy) where
  -- The limit of a counter; those of the queues have none.
  abbrev pub counter_limit : Key → ℤ
  counter_limit (model_rpm model) = p.model_minute model
  counter_limit (model_rpd model) = p.model_day model
  counter_limit (user_type_rpd user type date) = p.user_day user type
  counter_limit _ = pos 0

  abbrev pub FitsLocks : String → Assoc ℕ → Type 0
  FitsLocks user z = (p.user_jobs user ≤ℤ pos 0) ⊎ (pos (length z) ≤ℤ p.user_jobs user)

pub Good-zero : (limit : ℤ) → Good limit (pos 0)
Good-zero (pos n) = ground arith
Good-zero (negsuc n) = ground arith

-- A command that raises no counter and adds no lock.
abbrev pub Lowers : Action → Type 0
Lowers (incrby n) = ⊥
Lowers (set n) = ⊥
Lowers (zadd t m) = ⊥
Lowers _ = Unit

Lowers-Good :
    (a : Action) (limit : ℤ) (o : Option ℤ)
    → Lowers a
    → Good limit (or_else o (pos 0))
    → Good limit (or_else (on_count a o) (pos 0))
Lowers-Good (incrby n) limit o l g = elim l [ ]
Lowers-Good (set n) limit o l g = elim l [ ]
Lowers-Good (set_text t) limit o l g = Good-zero limit
Lowers-Good del limit o l g = Good-zero limit
Lowers-Good (zadd t m) limit o l g = elim l [ ]
Lowers-Good _ limit o l g = g

Lowers-length : (a : Action) (z : Assoc ℕ) → Lowers a → length (on_scores a z) ≤ length z
Lowers-length (zadd t m) z l = elim l [ ]
Lowers-length (zrem m) z l = without-length m z
Lowers-length (zremrangebyscore now) z l = above-length now z
Lowers-length _ z l = omega arith

module _ (R : Redis) where
  open R use {State, exec}

  abbrev pub value : Key → State → ℤ
  value k s = get_or_zero R k s

  pub value-exec :
      (k : Key) (a : Action) (s : State) (j : Key)
      → value j (exec (k, a) s)
        ≡ (if key_eq k j then or_else (on_count a (count R s j)) (pos 0) else value j s)
  unfolding get_or_zero
  value-exec k a s j = ground (arith, count-exec R k a s j)

module _ (R : Redis) (p : Policy) where
  open R use {State, exec}

  -- Every counter but those of the queues is within its limit and not negative, and every user's set
  -- of locks is within its limit.
  pub record IsBounded (s : State) : Type 0 where
    pub counters : (k : Key) → is_waiting k ≡ false → Good (counter_limit p k) (value R k s)
    pub locks : (user : String) → FitsLocks p user (scores R s (user_active_jobs user))

  -- A command keeps this if its own key keeps it.
  pub exec-IsBounded :
      (k : Key) (a : Action) (s : State)
      → IsBounded s
      → (is_waiting k ≡ false
          → Good (counter_limit p k) (or_else (on_count a (count R s k)) (pos 0)))
      → ((user : String)
          → k ≡ user_active_jobs user
          → FitsLocks p user (on_scores a (scores R s k)))
      → IsBounded (exec (k, a) s)
  exec-IsBounded k a s b g f = record {
    counters = λ j h. rw (value-exec R k a s j) (elim (Bool-cases (key_eq k j)) [
      | inl e ↦ let same = key_eq-eq k j e in rw (e, ← same) (g (rw same h))
      | inr e ↦ rw e (b.counters j h)
    ]);
    locks = λ owner.
        rw (scores-exec R k a s (user_active_jobs owner))
          (elim (Bool-cases (key_eq k (user_active_jobs owner))) [
            | inl e ↦
                let same = key_eq-eq k (user_active_jobs owner) e in rw (e, ← same) (f owner same)
            | inr e ↦ rw e (b.locks owner)
          ]);
  }

  pub Lowers-IsBounded :
      (k : Key) (a : Action) (s : State) → Lowers a → IsBounded s → IsBounded (exec (k, a) s)
  Lowers-IsBounded k a s l b =
      exec-IsBounded k a s b
        (λ h.
          Lowers-Good a (counter_limit p k) (count R s k) l (unfold get_or_zero in b.counters k h))
        (λ owner same. rw same (fits owner))
    where
      fits :
          (owner : String) → FitsLocks p owner (on_scores a (scores R s (user_active_jobs owner)))
      fits owner =
          let z = scores R s (user_active_jobs owner) in
          ground (arith, Lowers-length a z l, b.locks owner)

  pub set-IsBounded :
      (k : Key) (n : ℤ) (s : State)
      → (is_waiting k ≡ false → Good (counter_limit p k) n)
      → IsBounded s
      → IsBounded (exec (k, set n) s)
  set-IsBounded k n s g b = exec-IsBounded k (set n) s b g (λ owner same. fits (p.user_jobs owner))
    where
      fits : (limit : ℤ) → (limit ≤ℤ pos 0) ⊎ (pos 0 ≤ℤ limit)
      fits limit = ground arith

  pub incr-IsBounded :
      (k : Key) (s : State)
      → ((owner : String) → k ≢ user_active_jobs owner)
      → Good (counter_limit p k) (value R k s +ℤ pos 1)
      → IsBounded s
      → IsBounded (exec (k, incrby (pos 1)) s)
  incr-IsBounded k s n g b =
      exec-IsBounded k (incrby (pos 1)) s b (λ h. unfold get_or_zero in g)
        (λ owner same. absurd (n owner same))
