-- ===== src/Examples/Maintenance.antt =====
-- Two jobs, of which one is older than two hours, and an account that becomes an admin.
use z1mak_cv_queue.Prelude.{
  List, Option, String, [], if◌then◌else◌, insert, lookup, none, refl, some, str_eq, true, ℕ, ◌&&◌,
  ◌*◌, ◌∷◌, ◌≡◌,
}
use z1mak_cv_queue.Cron.Locks.{member}
use z1mak_cv_queue.Maintenance.Admin.{
  Account, Accounts, find_match, find_user_by_email, get_arg_value, make_admin, make_admin_script,
  promote, promoted, search_pages,
}
use z1mak_cv_queue.Maintenance.Cleanup.{
  CleanupClock, cleanup_drops_old, cleanup_stale_jobs, is_old, last_change, scan_keys,
}
use z1mak_cv_queue.Memory.{empty, memory}
use z1mak_cv_queue.Redis.{effect, fields, hset, insert_all, job_meta, job_result, pipeline}

abbrev both_jobs : memory.State
unfolding memory pipeline
both_jobs =
    pipeline memory
      ((job_meta "old", hset (("updated_at", "early") ∷ []))
        ∷ (job_result "old", hset (("status", "completed") ∷ []))
        ∷ (job_meta "new", hset (("updated_at", "late") ∷ []))
        ∷ [])
      empty

abbrev two_hours : CleanupClock
two_hours = record {
  cleanup_now_ms = 9000000;
  cutoff_ms = 2 * 60 * 60 * 1000;
  cleanup_date =
      λ t. if str_eq t "early" then some 1000 else if str_eq t "late" then some 8000000 else none;
}

abbrev scanned : List (ℕ × List String)
scanned = (17, "new" ∷ []) ∷ (0, "old" ∷ []) ∷ []

abbrev keep_all : ℕ → String → Option ℕ
keep_all q id = none

cleanup_drops_old_example :
    let after = (cleanup_stale_jobs memory keep_all two_hours scanned (both_jobs, (0, 0))).0 in
    let is_dropped =
      member memory "old" (scan_keys scanned)
      && is_old two_hours (fields memory both_jobs (job_meta "old")) in
    (fields memory after (job_meta "old")
      ≡ (if is_dropped then [] else fields memory both_jobs (job_meta "old")))
    × (fields memory after (job_result "old")
        ≡ (if is_dropped then [] else fields memory both_jobs (job_result "old")))
cleanup_drops_old_example = cleanup_drops_old memory keep_all two_hours scanned both_jobs 0 0 "old"

old_is_dropped :
    (member memory "old" (scan_keys scanned)
      && is_old two_hours (fields memory both_jobs (job_meta "old")))
    ≡ true
unfolding scan_keys is_old last_change both_jobs memory fields effect insert_all insert lookup
old_is_dropped = refl

abbrev ada : Account
ada = record {
  account_id = "u1";
  account_email = some "ada@example.com";
  app_metadata = some (("team", "cv") ∷ []);
}

-- The accounts are the ids of the admins.
abbrev accounts : Accounts (List String)
accounts = record {
  list_users = λ s page. some (ada ∷ []);
  update_user = λ s id fields_set. some (id ∷ s);
  create_user = λ s email password fields_set. none;
}

ada_is_promoted :
    make_admin_script accounts
      (λ x. x)
      (λ x. x)
      ("-e" ∷ "ada@example.com" ∷ [])
      (some "url")
      (some "key")
      none
      []
    ≡ (promoted "u1", "u1" ∷ [])
unfolding make_admin_script get_arg_value make_admin find_user_by_email search_pages find_match
    promote insert
ada_is_promoted = refl
