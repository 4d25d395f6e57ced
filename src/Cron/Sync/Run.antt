-- ===== src/Cron/Sync/Run.antt =====
-- A whole run over the slices of the keys.
use z1mak_cv_queue.Prelude.{
  Assoc, Bool-cases, List, Option, String, [], arith, drop, false, inl, inr, is_empty, length,
  length-drop, lookup, refl, some, str_eq, suc, sym, take-drop, true, truthy, zero, ℕ, ◌++◌, ◌∙◌,
  ◌∷◌, ◌≡◌, ◌≤◌,
}
use z1mak_cv_queue.Cron.Locks.{member}
use z1mak_cv_queue.Cron.Sync.{
  JobRow, SyncClock, SyncPlan, expiring, full_row, mark_synced, merge_row, plan_job, plans, rows_of,
  skip_job, slices, sync_db_results, sync_slice, sync_slices, synced_before, synced_jobs, upsert,
  write_missing, write_result,
}
use z1mak_cv_queue.Cron.Sync.Marks.{
  fields-expire_keys, meta-settled, result-other, settled, sync_slice-settled, synced-member,
}
use z1mak_cv_queue.Cron.Sync.Rows.{
  Distinct, Distinct-apart, Distinct-append, RowFits, member-append, plans-accepted, plans-has_row,
  plans-is_refused,
}
use z1mak_cv_queue.Cron.Sync.Table.{settled-synced, upsert-other}
use z1mak_cv_queue.Redis.{Redis, fields, job_meta, job_result}
use z1mak_cv_queue.Worker.Failed.{text_field}

abbrev join : List (List String) → List String
join [] = []
join (l ∷ ls) = l ++ join ls

-- Enough fuel: the slices are the whole list, in its order.
join-slices : (f : ℕ) (l : List String) → length l ≤ f → join (slices f l) ≡ l
unfolding slices
join-slices zero [] h = refl
join-slices zero (x ∷ l) h = absurd (omega arith)
join-slices (suc f) [] h = refl
join-slices (suc f) (x ∷ l) h =
    rw (join-slices f (drop 100 (x ∷ l)) (omega (arith, length-drop 100 (x ∷ l))))
      (take-drop 100 (x ∷ l))

module _ (R : Redis) where
  open R use {State}

  -- What a slice leaves where its statement is accepted.
  abbrev settle : SyncClock → List String → State × Assoc JobRow → State × Assoc JobRow
  settle c jobs (s, t) = (settled R c jobs s, upsert (rows_of (plans R c jobs s)) t)

  abbrev settle_all : SyncClock → List (List String) → State × Assoc JobRow → State × Assoc JobRow
  settle_all c [] u = u
  settle_all c (jobs ∷ rest) u = settle_all c rest (settle c jobs u)

  rows-none :
      (p : List (String × SyncPlan))
      → is_empty (rows_of p) ≡ true
      → (synced_jobs p ≡ []) × (rows_of p ≡ [])
  rows-none [] h = (refl, refl)
  rows-none ((x, write_result r) ∷ p) h = ground arith
  rows-none ((x, write_missing r) ∷ p) h = ground arith
  rows-none ((x, skip_job) ∷ p) h = rows-none p h
  rows-none ((x, synced_before) ∷ p) h = rows-none p h

  -- What the program keeps of a job: its two hashes and its row.
  abbrev Record : Type 0
  Record = Assoc String × (Assoc String × Option JobRow)

  abbrev record_of : String → State × Assoc JobRow → Record
  record_of job (s, t) = (fields R s (job_meta job), (fields R s (job_result job), lookup job t))

  settle-other :
      (c : SyncClock) (jobs : List String) (u : State × Assoc JobRow) (job : String)
      → member R job jobs ≡ false
      → record_of job (settle c jobs u) ≡ record_of job u
  settle-other c jobs (s, t) job h =
      let p = plans R c jobs s in
      let marked = mark_synced R c.sync_iso (synced_jobs p) s in
      rw
        (
          meta-settled R c jobs s job,
          fields-expire_keys R (expiring p) marked (job_result job),
          result-other R c.sync_iso (synced_jobs p) s job (synced-member R c jobs s job h),
          upsert-other job (rows_of p) t (plans-has_row R c s job jobs h),
        )
        refl

  -- The table accepts the rows of the jobs, as they are planned.
  abbrev Fits : SyncClock → List String → State × Assoc JobRow → Type 0
  Fits c jobs u =
      (x : String)
      → member R x jobs ≡ true
      → let (meta, (result, row)) = record_of x u in RowFits c row (plan_job c x meta result)

  sync_slice-settle :
      (c : SyncClock) (jobs : List String) (u : State × Assoc JobRow)
      → Distinct R jobs
      → Fits c jobs u
      → sync_slice R c jobs u ≡ some (settle c jobs u)
  unfolding sync_slice mark_synced upsert
  sync_slice-settle c jobs (s, t) d fit =
      let p = plans R c jobs s in
      elim (Bool-cases (is_empty (rows_of p))) [
        | inl e ↦ let (no_jobs, no_rows) = rows-none p e in rw (e, no_jobs, no_rows) refl
        | inr e ↦
            sync_slice-settled R c jobs s t e (plans-is_refused R c s jobs d)
              (plans-accepted R c s t jobs fit)
      ]

  member-apart :
      (x : String) (jobs rest : List String)
      → Distinct R (jobs ++ rest)
      → member R x rest ≡ true
      → member R x jobs ≡ false
  member-apart x jobs rest d m = elim (Bool-cases (member R x jobs)) [
    | inl e ↦ let out = Distinct-apart R x jobs rest d e in ground arith
    | inr e ↦ e
  ]

  Fits-same :
      (c : SyncClock) (x : String) (r q : Record)
      → r ≡ q
      → RowFits c q.1.1 (plan_job c x q.0 q.1.0)
      → RowFits c r.1.1 (plan_job c x r.0 r.1.0)
  Fits-same c x r q e f = rw e f

  Fits-settle :
      (c : SyncClock) (jobs rest : List String) (u : State × Assoc JobRow)
      → Distinct R (jobs ++ rest)
      → Fits c (jobs ++ rest) u
      → Fits c rest (settle c jobs u)
  Fits-settle c jobs rest u d fit x m =
      Fits-same c x (record_of x (settle c jobs u)) (record_of x u)
        (settle-other c jobs u x (member-apart x jobs rest d m))
        (fit x (ground (arith, member-append R x jobs rest)))

  sync_slices-settle :
      (c : SyncClock) (ls : List (List String)) (u : State × Assoc JobRow)
      → Distinct R (join ls)
      → Fits c (join ls) u
      → sync_slices R c ls u ≡ (true, settle_all c ls u)
  unfolding sync_slices
  sync_slices-settle c [] u d fit = refl
  sync_slices-settle c (jobs ∷ rest) u d fit =
      let (dj, dr) = Distinct-append R jobs (join rest) d in
      let here : Fits c jobs u =
        λ x m. fit x (ground (arith, member-append R x jobs (join rest))) in
      rw (sync_slices, sync_slice-settle c jobs u dj here)
        (sync_slices-settle c rest (settle c jobs u) dr (Fits-settle c jobs (join rest) u d fit))

  settle_all-other :
      (c : SyncClock) (ls : List (List String)) (u : State × Assoc JobRow) (job : String)
      → member R job (join ls) ≡ false
      → record_of job (settle_all c ls u) ≡ record_of job u
  settle_all-other c [] u job h = refl
  settle_all-other c (jobs ∷ rest) u job h =
      settle_all-other c rest (settle c jobs u) job
        (ground (arith, member-append R job jobs (join rest)))
      ∙ settle-other c jobs u job (ground (arith, member-append R job jobs (join rest)))

  module _ (c later : SyncClock) (job field : String) where
    -- A job that is to be written: it has both hashes and no mark.
    abbrev IsFinished : Record → Type 0
    IsFinished r =
        (is_empty r.0 ≡ false)
        × ((is_empty r.1.0 ≡ false) × (truthy (text_field "synced_at" r.1.0) ≡ false))

    abbrev IsWritten : Record → Record → Type 0
    IsWritten r after =
        (after.1.1 ≡ some (merge_row r.1.1 (full_row c job r.0 r.1.0)))
        × (plan_job later job after.0 after.1.0 ≡ synced_before)
        × (lookup field after.1.0 ≡ lookup field r.1.0)

    IsFinished-same : (r q : Record) → r ≡ q → IsFinished q → IsFinished r
    IsFinished-same r q e f = rw e f

    IsWritten-same :
        (r q after end : Record) → r ≡ q → end ≡ after → IsWritten q after → IsWritten r end
    IsWritten-same r q after end e g w = rw (e, g) w

    settle_all-IsWritten :
        (ls : List (List String)) (u : State × Assoc JobRow)
        → truthy c.sync_iso ≡ true
        → str_eq "synced_at" field ≡ false
        → Distinct R (join ls)
        → member R job (join ls) ≡ true
        → IsFinished (record_of job u)
        → IsWritten (record_of job u) (record_of job (settle_all c ls u))
    settle_all-IsWritten [] u iso other d h f = ground arith
    settle_all-IsWritten (jobs ∷ rest) (s, t) iso other d h f =
        let (dj, dr) = Distinct-append R jobs (join rest) d in
        let v = settle c jobs (s, t) in
        elim (Bool-cases (member R job jobs)) [
          | inl now_on ↦
              IsWritten-same _ (record_of job (s, t)) (record_of job v) _ refl
                (settle_all-other c rest v job (Distinct-apart R job jobs (join rest) d now_on))
                (settled-synced R c s job later jobs t field iso now_on
                  (plans-is_refused R c s jobs dj) f.0 f.1.0 f.1.1 other)
          | inr later_on ↦
              let same = settle-other c jobs (s, t) job later_on in
              IsWritten-same (record_of job (s, t)) (record_of job v) _ _ (sym same) refl (
                settle_all-IsWritten rest v iso other dr
                  (ground (arith, member-append R job jobs (join rest)))
                  (IsFinished-same (record_of job v) (record_of job (s, t)) same f))
        ]

    -- A run on jobs of which none is found twice, and whose rows the table accepts, each with a user and
    -- a model, runs to its end, however many slices the jobs take. A job
    -- among them that has both hashes and no mark is written to the table: its row is merged into the row
    -- of the job, if the table has one, which keeps what was asked for and by whom. The result is marked,
    -- so that a later run, at whatever time, passes the job by, and no other field of the result changes.
    pub run_syncs :
        (jobs : List String) (s : State) (t : Assoc JobRow)
        → truthy c.sync_iso ≡ true
        → str_eq "synced_at" field ≡ false
        → Distinct R jobs
        → ((x : String)
            → member R x jobs ≡ true
            → RowFits c
                (lookup x t)
                (plan_job c x (fields R s (job_meta x)) (fields R s (job_result x))))
        → member R job jobs ≡ true
        → is_empty (fields R s (job_meta job)) ≡ false
        → is_empty (fields R s (job_result job)) ≡ false
        → truthy (text_field "synced_at" (fields R s (job_result job))) ≡ false
        → let (is_done, u) = sync_db_results R c jobs (s, t) in
          let (after, rows) = u in
          let result = fields R s (job_result job) in
          (is_done ≡ true)
          × (lookup job rows
              ≡ some (merge_row (lookup job t) (full_row c job (fields R s (job_meta job)) result)))
          × (plan_job later job (fields R after (job_meta job)) (fields R after (job_result job))
              ≡ synced_before)
          × (lookup field (fields R after (job_result job)) ≡ lookup field result)
    unfolding sync_db_results
    run_syncs [] s t iso other d fit h m r n = ground arith
    run_syncs (x ∷ jobs) s t iso other d fit h m r n =
        let l = x ∷ jobs in
        let ls = slices (length l) l in
        let whole : join ls ≡ l = join-slices (length l) l (omega arith) in
        let dl : Distinct R (join ls) = rw whole d in
        let hl : member R job (join ls) ≡ true = rw whole h in
        let w = settle_all-IsWritten ls (s, t) iso other dl hl (m, (r, n)) in
        let fl : Fits c (join ls) (s, t) = rw whole fit in
        rw (sync_slices-settle c ls (s, t) dl fl) (refl, w.0, w.1, w.2)
