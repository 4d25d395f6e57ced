-- ===== src/Database/Atomic.antt =====
-- What other connections see of a transaction, and what becomes of its own connection.
use z1mak_cv_queue.Prelude.{Bool, false, if◌then◌else◌, true, ◌||◌, ◌≡◌, ◌⊎◌}
use z1mak_cv_queue.Database.{
  Attempt, Postgres, Work, asks, do_work, ends, is_threw, resolved, threw,
}

module _ (P : Postgres) where
  open P use {Session, Db, committed, visible, is_open, begin, commit}

  -- Whether a statement of the work fails.
  abbrev pub some_failed : {A : Type 0} → Work P A → Session → Bool
  some_failed (ends answer) s = false
  some_failed (asks q next) s =
      is_threw (P.query q s).0 || some_failed (next (P.query q s).0) (P.query q s).1

  abbrev IsExplained : {A : Type 0} → Work P A → Session → Session → Type 0
  IsExplained work s u = (P.is_aborted u ≡ false) ⊎ (some_failed work s ≡ true)

  -- What is seen of work that started in `s`, by how it ended in `t`, and whether `t` is out of the
  -- transaction.
  abbrev pub Atomic : {A : Type 0} → Work P A → Session → Attempt A × Session → Type 0
  Atomic work s (threw e, t) =
      (committed t ≡ committed s)
      × ((is_open t ≡ false) ⊎ ((u : Session) × (P.rollback u ≡ (threw e, t))))
  Atomic work s (resolved a, t) =
      (u : Session) × (do_work P work (begin s).1 ≡ (resolved a, u))
      × (committed t ≡ (if P.is_aborted u then committed s else visible u))
      × ((P.is_aborted u ≡ false) ⊎ (some_failed work (begin s).1 ≡ true))
      × (is_open t ≡ false)
