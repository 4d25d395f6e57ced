-- ===== src/Shutdown/Order.antt =====
-- In which order the handlers run, and how often.
use mathlib.Core.List.{Perm}
use mathlib.Core.List.Perm
use z1mak_cv_queue.Prelude.{
  Bool, Bool-cases, List, String, [], ap, arith, false, inl, inr, refl, true, ◌∷◌, ◌≡◌,
}
use z1mak_cv_queue.Shutdown.{
  Emitter, ShutdownEntry, insert_entry, run_handlers, runs_before, sort_entries, trigger_shutdown,
}

abbrev pub ran : List (ShutdownEntry × Bool) → List ShutdownEntry
ran [] = []
ran ((a, failed_too) ∷ l) = a ∷ ran l

ran-run :
    (throws_error : String → Bool) (l : List ShutdownEntry) → ran (run_handlers throws_error l) ≡ l
unfolding run_handlers
ran-run f [] = refl
ran-run f (a ∷ l) = ap (λ m. a ∷ m) (ran-run f l)

-- No entry stands before one that must run before it.
abbrev pub Follows : ShutdownEntry → List ShutdownEntry → Type 0
Follows a [] = Unit
Follows a (b ∷ l) = runs_before b a ≡ false

abbrev pub InOrder : List ShutdownEntry → Type 0
InOrder [] = Unit
InOrder (a ∷ l) = Follows a l × InOrder l

runs_before-asym : (a b : ShutdownEntry) → runs_before a b ≡ true → runs_before b a ≡ false
unfolding runs_before
runs_before-asym a b h = ground arith

insert_entry-perm : (a : ShutdownEntry) (l : List ShutdownEntry) → Perm (insert_entry a l) (a ∷ l)
unfolding insert_entry
insert_entry-perm a [] = Perm.refl _
insert_entry-perm a (b ∷ l) = elim (Bool-cases (runs_before b a)) [
  | inl e ↦ rw e (Perm.trans (Perm.cons b (insert_entry-perm a l)) (Perm.swap a b l))
  | inr e ↦ rw e (Perm.refl _)
]

insert_entry-Follows :
    (b a : ShutdownEntry) (l : List ShutdownEntry)
    → runs_before a b ≡ false
    → Follows b l
    → Follows b (insert_entry a l)
unfolding insert_entry
insert_entry-Follows b a [] h k = h
insert_entry-Follows b a (c ∷ l) h k = ground arith

insert_entry-InOrder :
    (a : ShutdownEntry) (l : List ShutdownEntry) → InOrder l → InOrder (insert_entry a l)
unfolding insert_entry
insert_entry-InOrder a [] s = (tt, tt)
insert_entry-InOrder a (b ∷ l) s = elim (Bool-cases (runs_before b a)) [
  | inl e ↦
      rw e (insert_entry-Follows b a l (runs_before-asym b a e) s.0, insert_entry-InOrder a l s.1)
  | inr e ↦ rw e (e, s)
]

sort_entries-InOrder : (l : List ShutdownEntry) → Perm (sort_entries l) l × InOrder (sort_entries l)
unfolding sort_entries
sort_entries-InOrder [] = (Perm.refl _, tt)
sort_entries-InOrder (a ∷ l) =
    let (p, s) = sort_entries-InOrder l in
    (
      Perm.trans (insert_entry-perm a (sort_entries l)) (Perm.cons a p),
      insert_entry-InOrder a (sort_entries l) s,
    )

-- The first signal runs every registered handler once, whichever of them throw, in the order of their
-- priorities and, where these are equal, of their numbers of registration; a second signal runs none.
shutdown_runs_once :
    (throws_error : String → Bool) (e : Emitter)
    → e.is_shutting_down ≡ false
    → let (done_now, after) = trigger_shutdown throws_error e in
      Perm (ran done_now) e.shutdown_entries
      × InOrder (ran done_now)
      × (trigger_shutdown throws_error after ≡ ([], after))
unfolding trigger_shutdown
shutdown_runs_once f e h =
    let (p, s) = sort_entries-InOrder e.shutdown_entries in
    rw (h, ran-run f (sort_entries e.shutdown_entries)) (p, s, refl)
