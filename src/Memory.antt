-- ===== src/Memory.antt =====
-- A server in memory, a function from keys to cells: it meets the interface of `Redis`, and the
-- tests run against it.
use z1mak_cv_queue.Prelude.{All, [], arith, if◌then◌else◌, max, refl, suc, ℕ, ◌<◌, ◌∷◌, ◌≤◌}
use z1mak_cv_queue.Redis.{Cell, Entries, Key, Redis, absent, effect, key_eq}

unfoldable pub top : Entries → ℕ
top [] = 0
top (e ∷ l) = max e.0 (top l)

All-below : (n m : ℕ) (l : Entries) → n ≤ m → All (λ e. e.0 < n) l → All (λ e. e.0 < m) l
All-below n m [] h b = tt
All-below n m (e ∷ l) h b = (omega arith, All-below n m l h b.1)

pub top-above : (l : Entries) → All (λ e. e.0 < suc (top l)) l
unfolding top
top-above [] = tt
top-above (e ∷ l) =
    (omega arith, All-below (suc (top l)) (suc (max e.0 (top l))) l (omega arith) (top-above l))

unfoldable pub memory : Redis
unfolding top
memory = record {
  State = Key → Cell;
  cell = λ s k. s k;
  exec = λ c s j. if key_eq c.0 j then effect c.1 (s j) else s j;
  next_id = λ s k. suc (top (s k).entries);
  next_id-positive = λ s k. omega arith;
  next_id-above = λ s k. top-above (s k).entries;
  cell-exec = λ k a s j. refl;
}

abbrev pub empty : Key → Cell
empty k = absent
