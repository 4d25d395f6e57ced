-- ===== src/Cron/Sync/Marks.antt =====
-- The marks on the results that are in the table.
use z1mak_cv_queue.Prelude.{
  Assoc, Bool-cases, List, String, [], ap, arith, eq_iff, false, if◌then◌else◌, inl, inr, is_empty,
  lookup, lookup-insert, refl, some, str_eq, sym, true, truthy, ◌&&◌, ◌∙◌, ◌∷◌, ◌≡◌, ◌⊎◌,
}
use z1mak_cv_queue.Cron.Locks.{member}
use z1mak_cv_queue.Cron.Sync.{
  JobRow, SyncClock, SyncPlan, all_accepted, expire_keys, expiring, is_refused, mark_synced,
  plan_job, plans, rows_of, skip_job, sync_slice, synced_before, synced_jobs, synced_ttl, upsert,
  write_missing, write_result,
}
use z1mak_cv_queue.Redis.{Key, Redis, expire, fields, hset, insert_all, job_meta, job_result}
use z1mak_cv_queue.Redis.Laws.{fields-exec}

module _ (R : Redis) where
  open R use {State, exec}

  pub fields-expire_keys :
      (jobs : List String) (s : State) (k : Key) → fields R (expire_keys R jobs s) k ≡ fields R s k
  unfolding expire_keys
  fields-expire_keys [] s k = refl
  fields-expire_keys (job ∷ jobs) s k =
      let t = exec (job_result job, expire synced_ttl) s in
      ground (
        arith,
        fields-expire_keys jobs (exec (job_meta job, expire synced_ttl) t) k,
        fields-exec R (job_meta job) (expire synced_ttl) t k,
        fields-exec R (job_result job) (expire synced_ttl) s k,
      )

  meta-mark_synced :
      (now : String) (jobs : List String) (s : State) (job : String)
      → fields R (mark_synced R now jobs s) (job_meta job) ≡ fields R s (job_meta job)
  unfolding mark_synced
  meta-mark_synced now [] s job = refl
  meta-mark_synced now (x ∷ jobs) s job =
      let a = hset (("synced_at", now) ∷ []) in
      ground (
        arith,
        meta-mark_synced now jobs (exec (job_result x, a) s) job,
        fields-exec R (job_result x) a s (job_meta job),
      )

  -- A mark changes one field of a result.
  result-mark_synced :
      (now : String) (jobs : List String) (s : State) (job field : String)
      → lookup field (fields R (mark_synced R now jobs s) (job_result job)) ≡ (
          if member R job jobs && str_eq "synced_at" field
          then some now
          else lookup field (fields R s (job_result job)))
  unfolding mark_synced insert_all
  result-mark_synced now [] s job field = refl
  result-mark_synced now (x ∷ jobs) s job field =
      let a = hset (("synced_at", now) ∷ []) in
      ground (
        arith,
        result-mark_synced now jobs (exec (job_result x, a) s) job field,
        fields-exec R (job_result x) a s (job_result job),
        lookup-insert "synced_at" field now (fields R s (job_result job)),
        eq_iff x job,
        eq_iff job x,
      )

  pub result-other :
      (now : String) (jobs : List String) (s : State) (job : String)
      → member R job jobs ≡ false
      → fields R (mark_synced R now jobs s) (job_result job) ≡ fields R s (job_result job)
  unfolding mark_synced
  result-other now [] s job h = refl
  result-other now (x ∷ jobs) s job h =
      let a = hset (("synced_at", now) ∷ []) in
      ground (
        arith,
        result-other now jobs (exec (job_result x, a) s) job,
        fields-exec R (job_result x) a s (job_result job),
        eq_iff x job,
        eq_iff job x,
      )

  unmarked-skip :
      (c : SyncClock) (x : String) (meta result : Assoc String)
      → is_empty meta ≡ true
      → plan_job c x meta result ≡ skip_job
  unfolding plan_job
  unmarked-skip c x meta result e = rw e refl

  member-synced :
      (job x : String) (p : SyncPlan) (l : List (String × SyncPlan))
      → member R job (synced_jobs ((x, p) ∷ l)) ≡ true
      → (job ≡ x) ⊎ (member R job (synced_jobs l) ≡ true)
  member-synced job x (write_result r) l h = elim (Bool-cases (str_eq job x)) [
    | inl e ↦ inl (ground (arith, eq_iff job x))
    | inr e ↦ inr (ground arith)
  ]
  member-synced job x (write_missing r) l h = inr h
  member-synced job x skip_job l h = inr h
  member-synced job x synced_before l h = inr h

  -- Only a job of the slice is marked.
  pub synced-member :
      (c : SyncClock) (jobs : List String) (s : State) (job : String)
      → member R job jobs ≡ false
      → member R job (synced_jobs (plans R c jobs s)) ≡ false
  synced-member c [] s job h = refl
  synced-member c (x ∷ jobs) s job h =
      let p = plan_job c x (fields R s (job_meta x)) (fields R s (job_result x)) in
      elim (Bool-cases (member R job (synced_jobs ((x, p) ∷ plans R c jobs s)))) [
        | inr e ↦ e
        | inl e ↦ elim (member-synced job x p (plans R c jobs s) e) [
          | inl same ↦ ground (arith, eq_iff job x)
          | inr later ↦ ground (arith, synced-member c jobs s job)
        ]
      ]

  -- Only a job that has a meta hash is marked.
  synced-has_meta :
      (c : SyncClock) (jobs : List String) (s : State) (job : String)
      → member R job (synced_jobs (plans R c jobs s)) ≡ true
      → is_empty (fields R s (job_meta job)) ≡ false
  synced-has_meta c [] s job h = ground arith
  synced-has_meta c (x ∷ jobs) s job h =
      let meta = fields R s (job_meta x) in
      let result = fields R s (job_result x) in
      elim (Bool-cases (is_empty meta)) [
        | inl e ↦
            let skipped = unmarked-skip c x meta result e in
            let rest = plans R c jobs s in
            synced-has_meta c jobs s job
              (ap (λ p. member R job (synced_jobs ((x, p) ∷ rest))) (sym skipped) ∙ h)
        | inr e ↦ elim (member-synced job x (plan_job c x meta result) (plans R c jobs s) h) [
          | inl same ↦ rw same e
          | inr later ↦ synced-has_meta c jobs s job later
        ]
      ]

full-is_empty :
    (field value : String) (h : Assoc String) → lookup field h ≡ some value → is_empty h ≡ false
unfolding lookup
full-is_empty field value [] e = ground arith
full-is_empty field value (x ∷ h) e = refl

module _ (R : Redis) where
  open R use {State}

  -- The server after a slice with rows.
  abbrev pub settled : SyncClock → List String → State → State
  settled c jobs s =
      let p = plans R c jobs s in
      expire_keys R (expiring p) (mark_synced R c.sync_iso (synced_jobs p) s)

  rows-synced :
      (job : String) (p : List (String × SyncPlan))
      → member R job (synced_jobs p) ≡ true
      → is_empty (rows_of p) ≡ false
  rows-synced job [] h = ground arith
  rows-synced job ((x, write_result r) ∷ p) h = refl
  rows-synced job ((x, write_missing r) ∷ p) h = refl
  rows-synced job ((x, skip_job) ∷ p) h = rows-synced job p h
  rows-synced job ((x, synced_before) ∷ p) h = rows-synced job p h

  pub sync_slice-settled :
      (c : SyncClock) (jobs : List String) (s : State) (t : Assoc JobRow)
      → is_empty (rows_of (plans R c jobs s)) ≡ false
      → is_refused (rows_of (plans R c jobs s)) ≡ false
      → all_accepted c t (rows_of (plans R c jobs s)) ≡ true
      → sync_slice R c jobs (s, t) ≡ some (settled c jobs s, upsert (rows_of (plans R c jobs s)) t)
  unfolding sync_slice
  sync_slice-settled c jobs s t e f g = rw (e, f, g) refl

  pub result-settled :
      (c : SyncClock) (jobs : List String) (s : State) (job field : String)
      → member R job (synced_jobs (plans R c jobs s)) ≡ true
      → lookup field (fields R (settled c jobs s) (job_result job)) ≡ (
          if str_eq "synced_at" field
          then some c.sync_iso
          else lookup field (fields R s (job_result job)))
  result-settled c jobs s job field h =
      let p = plans R c jobs s in
      let marked = mark_synced R c.sync_iso (synced_jobs p) s in
      rw (fields-expire_keys R (expiring p) marked (job_result job))
        (ground (arith, result-mark_synced R c.sync_iso (synced_jobs p) s job field))

  pub meta-settled :
      (c : SyncClock) (jobs : List String) (s : State) (job : String)
      → fields R (settled c jobs s) (job_meta job) ≡ fields R s (job_meta job)
  meta-settled c jobs s job =
      let p = plans R c jobs s in
      let marked = mark_synced R c.sync_iso (synced_jobs p) s in
      fields-expire_keys R (expiring p) marked (job_meta job)
      ∙ meta-mark_synced R c.sync_iso (synced_jobs p) s job

  pub plan-synced :
      (later : SyncClock) (job now : String) (meta result : Assoc String)
      → is_empty meta ≡ false
      → lookup "synced_at" result ≡ some now
      → truthy now ≡ true
      → plan_job later job meta result ≡ synced_before
  unfolding plan_job
  plan-synced later job now meta result m e h =
      rw (m, full-is_empty "synced_at" now result e, e, h) refl
