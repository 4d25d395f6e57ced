-- ===== src/Maintenance/Cleanup.antt =====
-- scripts/cleanupStaleJobs.ts, and the loop of cron/utils/scanKeys.ts. The answers of SCAN, `Date.parse`
-- and what BullMQ does with a job are arguments.
-- The loop over the answers of the server, each a cursor and the ids of the keys that it found; the
-- cursor 0 ends it.
use z1mak_cv_queue.Prelude.{
  Assoc, Bool, List, Option, String, [], arith, eq_iff, false, if◌then◌else◌, is_empty, ltb, none,
  not, or_else, refl, some, suc, zero, ℕ, ◌&&◌, ◌++◌, ◌+◌, ◌==◌, ◌∷◌, ◌≡◌,
}
use z1mak_cv_queue.Cron.Locks.{member}
use z1mak_cv_queue.Redis.{Redis, del, fields, job_meta, job_result}
use z1mak_cv_queue.Redis.Laws.{fields-exec}
use z1mak_cv_queue.Worker.Failed.{text_field}

unfoldable pub scan_keys : List (ℕ × List String) → List String
scan_keys [] = []
scan_keys ((cursor, batch) ∷ replies) =
    let rest = scan_keys replies in if cursor == 0 then batch else batch ++ rest

pub record CleanupClock : Type 0 where
  pub cleanup_now_ms : ℕ
  pub cutoff_ms : ℕ
  pub cleanup_date : String → Option ℕ  -- `Date.parse`, `none` for what is not a date

-- A date as an operand of `||`: NaN and 0 are falsy.
abbrev date_or : Option ℕ → Option ℕ → Option ℕ
date_or none other = other
date_or (some zero) other = other
date_or (some (suc n)) other = some (suc n)

unfoldable pub last_change : CleanupClock → Assoc String → Option ℕ
last_change c meta =
    date_or (c.cleanup_date (text_field "updated_at" meta))
      (date_or (c.cleanup_date (text_field "created_at" meta)) none)

-- `ts < Date.now() - CUTOFF_MS`, of a job that has a meta hash and a date.
unfoldable pub is_old : CleanupClock → Assoc String → Bool
is_old c meta =
    not (is_empty meta)
    && elim (last_change c meta) [ none ↦ false | some t ↦ ltb (t + c.cutoff_ms) c.cleanup_now_ms ]

-- `job.remove()` of one queue; one that throws is logged, and the job stays.
unfoldable pub remove_jobs : {Q : Type 0} → (Q → String → Option Q) → List String → Q → Q
remove_jobs remove [] q = q
remove_jobs remove (id ∷ ids) q = remove_jobs remove ids (or_else (remove q id) q)

module _ (R : Redis) where
  open R use {State, exec}

  unfoldable pub stale_ids : CleanupClock → List String → State → List String
  stale_ids c [] s = []
  stale_ids c (id ∷ ids) s =
      let rest = stale_ids c ids s in
      if is_old c (fields R s (job_meta id)) then id ∷ rest else rest

  unfoldable pub delete_hashes : List String → State → State
  delete_hashes [] s = s
  delete_hashes (id ∷ ids) s =
      delete_hashes ids (exec (job_result id, del) (exec (job_meta id, del) s))

  -- `main`: the hashes, then the jobs of the two queues.
  unfoldable pub cleanup_stale_jobs :
      {Q : Type 0}
      → (Q → String → Option Q)
      → CleanupClock
      → List (ℕ × List String)
      → State × (Q × Q)
      → State × (Q × Q)
  cleanup_stale_jobs remove c replies (s, (lite, hard)) =
      let ids = stale_ids c (scan_keys replies) s in
      (delete_hashes ids s, (remove_jobs remove ids lite, remove_jobs remove ids hard))

  stale_ids-member :
      (c : CleanupClock) (ids : List String) (s : State) (x : String)
      → member R x (stale_ids c ids s) ≡ (member R x ids && is_old c (fields R s (job_meta x)))
  unfolding stale_ids
  stale_ids-member c [] s x = refl
  stale_ids-member c (y ∷ ids) s x = ground (arith, stale_ids-member c ids s x, eq_iff x y)

  fields-delete_hashes :
      (ids : List String) (s : State) (x : String)
      → (fields R (delete_hashes ids s) (job_meta x)
          ≡ (if member R x ids then [] else fields R s (job_meta x)))
        × (fields R (delete_hashes ids s) (job_result x)
            ≡ (if member R x ids then [] else fields R s (job_result x)))
  unfolding delete_hashes
  fields-delete_hashes [] s x = (refl, refl)
  fields-delete_hashes (y ∷ ids) s x =
      let t = exec (job_meta y, del) s in
      let rest = fields-delete_hashes ids (exec (job_result y, del) t) x in
      (
        ground (
          arith,
          rest.0,
          fields-exec R (job_result y) del t (job_meta x),
          fields-exec R (job_meta y) del s (job_meta x),
          eq_iff x y,
          eq_iff y x,
        ),
        ground (
          arith,
          rest.1,
          fields-exec R (job_result y) del t (job_result x),
          fields-exec R (job_meta y) del s (job_result x),
          eq_iff x y,
          eq_iff y x,
        ),
      )

  -- The script drops both hashes of a job exactly where a scan found it, its meta hash is not empty and the
  -- time of its last change, or of its creation, lies before the cutoff. The hashes of all other jobs stay.
  pub cleanup_drops_old :
      {Q : Type 0}
      → (remove : Q → String → Option Q) (c : CleanupClock) (replies : List (ℕ × List String))
        (s : State) (lite hard : Q) (x : String)
      → let after = (cleanup_stale_jobs remove c replies (s, (lite, hard))).0 in
        let is_dropped = member R x (scan_keys replies) && is_old c (fields R s (job_meta x)) in
        (fields R after (job_meta x) ≡ (if is_dropped then [] else fields R s (job_meta x)))
        × (fields R after (job_result x) ≡ (if is_dropped then [] else fields R s (job_result x)))
  unfolding cleanup_stale_jobs
  cleanup_drops_old remove c replies s lite hard x =
      let ids = scan_keys replies in
      rw (← stale_ids-member c ids s x) (fields-delete_hashes (stale_ids c ids s) s x)
