-- ===== src/Cron/Sync/Table.antt =====
-- What a slice of results leaves in the table and on the server.
use z1mak_cv_queue.Prelude.{
  Assoc, Bool-cases, List, String, [], arith, eq_iff, eq_refl, false, inl, inr, insert, is_empty,
  lookup, lookup-insert, refl, some, str_eq, sym, true, truthy, ◌∷◌, ◌≡◌, ◌⊎◌,
}
use z1mak_cv_queue.Cron.Locks.{member}
use z1mak_cv_queue.Cron.Sync.{
  JobRow, SyncClock, SyncPlan, full_row, has_row, is_refused, merge_row, plan_job, plans, rows_of,
  skip_job, synced_before, synced_jobs, upsert, write_missing, write_result,
}
use z1mak_cv_queue.Cron.Sync.Marks.{meta-settled, plan-synced, result-settled, settled}
use z1mak_cv_queue.Redis.{Redis, fields, job_meta, job_result}
use z1mak_cv_queue.Worker.Failed.{text_field}

abbrev Among : JobRow → List JobRow → Type 0
Among r [] = ⊥
Among r (q ∷ rows) = (r ≡ q) ⊎ Among r rows

Among-has_row : (r : JobRow) (rows : List JobRow) → Among r rows → has_row r.row_job_id rows ≡ true
Among-has_row r [] m = elim m [ ]
Among-has_row r (q ∷ rows) (inl e) = rw (sym e) (ground (arith, eq_refl r.row_job_id))
Among-has_row r (q ∷ rows) (inr m) = ground (arith, Among-has_row r rows m)

pub upsert-other :
    (x : String) (rows : List JobRow) (t : Assoc JobRow)
    → has_row x rows ≡ false
    → lookup x (upsert rows t) ≡ lookup x t
unfolding upsert
upsert-other x [] t h = refl
upsert-other x (r ∷ rows) t h =
    let id = r.row_job_id in
    let row = merge_row (lookup id t) r in
    ground (
      arith,
      upsert-other x rows (insert id row t),
      lookup-insert id x row t,
      eq_iff id x,
      eq_iff x id,
    )

-- A row is merged into the one that the table has of its job.
upsert-row :
    (r : JobRow) (rows : List JobRow) (t : Assoc JobRow)
    → is_refused rows ≡ false
    → Among r rows
    → lookup r.row_job_id (upsert rows t) ≡ some (merge_row (lookup r.row_job_id t) r)
unfolding upsert
upsert-row r [] t f m = elim m [ ]
upsert-row r (q ∷ rows) t f (inl e) =
    let id = q.row_job_id in
    let row = merge_row (lookup id t) q in
    rw e (
      ground (arith, upsert-other id rows (insert id row t), lookup-insert id id row t, eq_refl id))
upsert-row r (q ∷ rows) t f (inr m) =
    let id = q.row_job_id in
    let row = merge_row (lookup id t) q in
    rw (upsert-row r rows (insert id row t) (ground arith) m) (
      ground (
        arith,
        lookup-insert id r.row_job_id row t,
        Among-has_row r rows m,
        eq_iff id r.row_job_id,
      ))

module _ (R : Redis) where
  open R use {State}

  module _ (c : SyncClock) (s : State) (job : String) (row : JobRow) where
    Among-later :
        (x : String) (p : SyncPlan) (l : List (String × SyncPlan))
        → Among row (rows_of l)
        → Among row (rows_of ((x, p) ∷ l))
    Among-later x (write_result r) l m = inr m
    Among-later x (write_missing r) l m = inr m
    Among-later x skip_job l m = m
    Among-later x synced_before l m = m

    member-later :
        (x : String) (p : SyncPlan) (l : List (String × SyncPlan))
        → member R job (synced_jobs l) ≡ true
        → member R job (synced_jobs ((x, p) ∷ l)) ≡ true
    member-later x (write_result r) l m = ground arith
    member-later x (write_missing r) l m = m
    member-later x skip_job l m = m
    member-later x synced_before l m = m

    -- A job of the slice whose plan is to write is among the rows and among the marked jobs.
    plans-row :
        (jobs : List String)
        → member R job jobs ≡ true
        → plan_job c job (fields R s (job_meta job)) (fields R s (job_result job))
          ≡ write_result row
        → Among row (rows_of (plans R c jobs s))
          × (member R job (synced_jobs (plans R c jobs s)) ≡ true)
    plans-row [] h e = ground arith
    plans-row (x ∷ jobs) h e = elim (Bool-cases (str_eq job x)) [
      | inl same ↦ rw (sym ((eq_iff job x).0 same)) (rw e (inl refl, ground (arith, eq_refl job)))
      | inr other ↦
          let (a, m) = plans-row jobs (ground arith) e in
          let p = plan_job c x (fields R s (job_meta x)) (fields R s (job_result x)) in
          (Among-later x p (plans R c jobs s) a, member-later x p (plans R c jobs s) m)
    ]

  module _ (c : SyncClock) (s : State) (job : String) where
    abbrev meta_of_job : Assoc String
    meta_of_job = fields R s (job_meta job)

    abbrev result_of_job : Assoc String
    result_of_job = fields R s (job_result job)

    plan-full :
        is_empty meta_of_job ≡ false
        → is_empty result_of_job ≡ false
        → truthy (text_field "synced_at" result_of_job) ≡ false
        → plan_job c job meta_of_job result_of_job
          ≡ write_result (full_row c job meta_of_job result_of_job)
    unfolding plan_job
    plan-full m r n = rw (m, r, n) refl

    -- A job of a slice that has both hashes and no mark, in a statement without two rows of one id: its
    -- row is merged into the row of the job, and the result is marked.
    pub settled-synced :
        (later : SyncClock) (jobs : List String) (t : Assoc JobRow) (field : String)
        → truthy c.sync_iso ≡ true
        → member R job jobs ≡ true
        → is_refused (rows_of (plans R c jobs s)) ≡ false
        → is_empty meta_of_job ≡ false
        → is_empty result_of_job ≡ false
        → truthy (text_field "synced_at" result_of_job) ≡ false
        → str_eq "synced_at" field ≡ false
        → (lookup job (upsert (rows_of (plans R c jobs s)) t)
            ≡ some (merge_row (lookup job t) (full_row c job meta_of_job result_of_job)))
          × (plan_job later job
                (fields R (settled R c jobs s) (job_meta job))
                (fields R (settled R c jobs s) (job_result job))
              ≡ synced_before)
          × (lookup field (fields R (settled R c jobs s) (job_result job))
              ≡ lookup field result_of_job)
    unfolding full_row
    settled-synced later jobs t field iso h f m r n other =
        let p = plans R c jobs s in
        let row = full_row c job meta_of_job result_of_job in
        let (a, k) = plans-row c s job row jobs h (plan-full m r n) in
        (
          upsert-row row (rows_of p) t f a,
          plan-synced R later job c.sync_iso (fields R (settled R c jobs s) (job_meta job))
              (fields R (settled R c jobs s) (job_result job)) (rw (meta-settled R c jobs s job) m)
              (result-settled R c jobs s job "synced_at" k) iso,
          ground (arith, result-settled R c jobs s job field k),
        )
