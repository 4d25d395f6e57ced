-- ===== src/Cron/Sync/Rows.antt =====
-- The rows of a slice whose jobs differ.
use z1mak_cv_queue.Prelude.{
  Assoc, Bool, Bool-cases, List, Option, String, [], ap, arith, eq_iff, eq_refl, false,
  if◌then◌else◌, inl, inr, is_empty, lookup, not, refl, str_eq, true, truthy, ◌&&◌, ◌++◌, ◌||◌, ◌∙◌,
  ◌∷◌, ◌≡◌,
}
use z1mak_cv_queue.Cron.Locks.{member}
use z1mak_cv_queue.Cron.Sync.{
  JobRow, SyncClock, SyncPlan, all_accepted, full_row, has_row, is_accepted, is_refused, is_stale,
  missing_row, plan_job, plans, rows_of, skip_job, synced_before, write_missing, write_result,
}
use z1mak_cv_queue.Redis.{Redis, fields, job_meta, job_result}
use z1mak_cv_queue.Worker.Failed.{text_field}

-- The row that a plan writes, if it writes one, is accepted by a table that has a given row of the job.
abbrev pub RowFits : SyncClock → Option JobRow → SyncPlan → Type 0
RowFits c old (write_missing r) = is_accepted c old r ≡ true
RowFits c old (write_result r) = is_accepted c old r ≡ true
RowFits c old skip_job = Unit
RowFits c old synced_before = Unit

module _ (R : Redis) where
  open R use {State}

  abbrev pub Distinct : List String → Type 0
  Distinct [] = Unit
  Distinct (x ∷ l) = (member R x l ≡ false) × Distinct l

  pub member-append :
      (x : String) (l m : List String) → member R x (l ++ m) ≡ (member R x l || member R x m)
  member-append x [] m = refl
  member-append x (y ∷ l) m = ground (arith, member-append x l m)

  pub Distinct-append : (l m : List String) → Distinct (l ++ m) → Distinct l × Distinct m
  Distinct-append [] m d = (tt, d)
  Distinct-append (x ∷ l) m d =
      let (dl, dm) = Distinct-append l m d.1 in ((ground (arith, member-append x l m), dl), dm)

  -- No job of the first list is in the second.
  pub Distinct-apart :
      (x : String) (l m : List String)
      → Distinct (l ++ m)
      → member R x l ≡ true
      → member R x m ≡ false
  Distinct-apart x [] m d h = ground arith
  Distinct-apart x (y ∷ l) m d h = elim (Bool-cases (str_eq x y)) [
    | inl e ↦ ground (arith, eq_iff x y, member-append y l m)
    | inr e ↦ Distinct-apart x l m d.1 (ground arith)
  ]

  -- A plan writes a row of its own job.
  abbrev Names : String → SyncPlan → Type 0
  Names y (write_missing r) = r.row_job_id ≡ y
  Names y (write_result r) = r.row_job_id ≡ y
  Names y skip_job = Unit
  Names y synced_before = Unit

  if-Names :
      (b : Bool) (y : String) (p q : SyncPlan)
      → Names y p
      → Names y q
      → Names y (if b then p else q)
  if-Names true y p q h k = h
  if-Names false y p q h k = k

  plan-Names :
      (c : SyncClock) (y : String) (meta result : Assoc String) → Names y (plan_job c y meta result)
  unfolding plan_job missing_row full_row
  plan-Names c y meta result =
      if-Names (is_empty meta || is_empty result) y _ _
        (if-Names (not (is_empty meta) && (is_empty result && is_stale c meta)) y
          (write_missing (missing_row c y meta)) skip_job refl tt)
        (if-Names (truthy (text_field "synced_at" result)) y _ _ tt refl)

  has_row-Names :
      (x y : String) (p : SyncPlan) (l : List (String × SyncPlan))
      → Names y p
      → str_eq x y ≡ false
      → has_row x (rows_of ((y, p) ∷ l)) ≡ has_row x (rows_of l)
  has_row-Names x y (write_missing r) l n e = rw (n, e) refl
  has_row-Names x y (write_result r) l n e = rw (n, e) refl
  has_row-Names x y skip_job l n e = refl
  has_row-Names x y synced_before l n e = refl

  is_refused-Names :
      (y : String) (p : SyncPlan) (l : List (String × SyncPlan))
      → Names y p
      → has_row y (rows_of l) ≡ false
      → is_refused (rows_of ((y, p) ∷ l)) ≡ is_refused (rows_of l)
  is_refused-Names y (write_missing r) l n e = rw (n, e) refl
  is_refused-Names y (write_result r) l n e = rw (n, e) refl
  is_refused-Names y skip_job l n e = refl
  is_refused-Names y synced_before l n e = refl

  is_accepted-id :
      (c : SyncClock) (t : Assoc JobRow) (y : String) (r : JobRow)
      → r.row_job_id ≡ y
      → is_accepted c (lookup y t) r ≡ true
      → is_accepted c (lookup r.row_job_id t) r ≡ true
  is_accepted-id c t y r n f = ap (λ id. is_accepted c (lookup id t) r) n ∙ f

  accepted-Names :
      (c : SyncClock) (t : Assoc JobRow) (y : String) (p : SyncPlan) (l : List (String × SyncPlan))
      → Names y p
      → RowFits c (lookup y t) p
      → all_accepted c t (rows_of l) ≡ true
      → all_accepted c t (rows_of ((y, p) ∷ l)) ≡ true
  accepted-Names c t y (write_missing r) l n f h = rw (is_accepted-id c t y r n f, h) refl
  accepted-Names c t y (write_result r) l n f h = rw (is_accepted-id c t y r n f, h) refl
  accepted-Names c t y skip_job l n f h = h
  accepted-Names c t y synced_before l n f h = h

  module _ (c : SyncClock) (s : State) where
    -- The table accepts the rows of a slice if it accepts the row of each of its jobs.
    pub plans-accepted :
        (t : Assoc JobRow) (jobs : List String)
        → ((x : String)
            → member R x jobs ≡ true
            → RowFits c
                (lookup x t)
                (plan_job c x (fields R s (job_meta x)) (fields R s (job_result x))))
        → all_accepted c t (rows_of (plans R c jobs s)) ≡ true
    plans-accepted t [] h = refl
    plans-accepted t (y ∷ jobs) h =
        let meta = fields R s (job_meta y) in
        let result = fields R s (job_result y) in
        accepted-Names c t y (plan_job c y meta result) (plans R c jobs s)
          (plan-Names c y meta result) (h y (ground (arith, eq_refl y)))
          (plans-accepted t jobs (λ x m. h x (ground arith)))

    pub plans-has_row :
        (x : String) (jobs : List String)
        → member R x jobs ≡ false
        → has_row x (rows_of (plans R c jobs s)) ≡ false
    plans-has_row x [] h = refl
    plans-has_row x (y ∷ jobs) h =
        let meta = fields R s (job_meta y) in
        let result = fields R s (job_result y) in
        has_row-Names x y (plan_job c y meta result) (plans R c jobs s) (plan-Names c y meta result)
          (ground arith)
        ∙ plans-has_row x jobs (ground arith)

    -- A statement for jobs that differ is accepted.
    pub plans-is_refused :
        (jobs : List String) → Distinct jobs → is_refused (rows_of (plans R c jobs s)) ≡ false
    plans-is_refused [] d = refl
    plans-is_refused (y ∷ jobs) d =
        let meta = fields R s (job_meta y) in
        let result = fields R s (job_result y) in
        is_refused-Names y (plan_job c y meta result) (plans R c jobs s)
          (plan-Names c y meta result) (plans-has_row y jobs d.0)
        ∙ plans-is_refused jobs d.1
