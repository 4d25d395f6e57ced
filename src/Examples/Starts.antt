-- ===== src/Examples/Starts.antt =====
-- Limits and configuration that are there when the processes start, and pages of results.
use z1mak_cv_queue.Prelude.{
  List, Option, String, [], arith, false, if◌then◌else◌, insert, lookup, ltb, none, refl, some,
  take, true, ℕ, ◌*◌, ◌+◌, ◌∷◌, ◌≡◌, ◌≤◌,
}
use z1mak_cv_queue.Prelude.Int.{pos, pos_part, ◌≤ℤ◌}
use z1mak_cv_queue.Cron.Reload.{reload_model_limits, row_hash, write_rows}
use z1mak_cv_queue.Examples.Cron.{new_model}
use z1mak_cv_queue.Examples.States.{configured_models}
use z1mak_cv_queue.Limits.{
  UserLimits, default_admin_limits, default_user_limits, get_cached_user_limits,
}
use z1mak_cv_queue.Limits.Preload.{preloaded_limits, sync_user_limits_from_db}
use z1mak_cv_queue.Memory.{empty, memory}
use z1mak_cv_queue.Modes.{user}
use z1mak_cv_queue.Redis.{effect, fields, insert_all, members}
use z1mak_cv_queue.Routes.Recent.{Descending, RecentRow, page_limit, pages, pages_cover}
use z1mak_cv_queue.Worker.Preflight.{limits_are_ready, ready, wait_for_model_limits}
use z1mak_cv_queue.Worker.Preflight.Ready.{wait_finds_limits}

abbrev preloaded_rows : List (String × UserLimits)
preloaded_rows =
    ("u1", default_user_limits) ∷ ("u2", default_user_limits) ∷ ("u1", default_admin_limits) ∷ []

preloaded_limits_example :
    let t = sync_user_limits_from_db memory (some preloaded_rows) configured_models in
    get_cached_user_limits memory "u1" user none t ≡ (default_admin_limits, t)
preloaded_limits_example =
    preloaded_limits memory "u1" preloaded_rows configured_models user none refl

abbrev recent_row : String → Option ℕ → ℕ → RecentRow
recent_row id finished created = record {
  recent_id = id;
  finished_at = finished;
  created_at = created;
  status = "completed";
}

abbrev three_jobs : List RecentRow
three_jobs =
    recent_row "j3" (some 40) 20 ∷ recent_row "j2" none 30 ∷ recent_row "j1" (some 20) 10 ∷ []

pages_cover_example :
    (pos 1 ≤ℤ page_limit (some "2"))
    × (page_limit (some "2") ≤ℤ pos 100)
    × (pages 2 (some "2") 0 (λ k. three_jobs)
        ≡ take (2 * pos_part (page_limit (some "2"))) three_jobs)
    × Descending three_jobs
pages_cover_example =
    pages_cover (some "2") 2 three_jobs (λ k. three_jobs)
      (λ k. (λ r m. m, λ r m. m, ((omega arith, (omega arith, tt)), ((omega arith, tt), (tt, tt)))))

-- The models are loaded at 3.
abbrev unloaded : memory.State
unfolding memory
unloaded = empty

abbrev loaded : memory.State
loaded = reload_model_limits memory (new_model ∷ []) unloaded

server_at : ℕ → memory.State
server_at t = if ltb t 3 then unloaded else loaded

loaded-ready : limits_are_ready memory loaded ≡ true
unfolding limits_are_ready memory unloaded members fields reload_model_limits write_rows row_hash
    effect insert_all insert lookup
loaded-ready = refl

loaded_at : (t : ℕ) → 3 ≤ t → limits_are_ready memory (server_at t) ≡ true
unfolding server_at
loaded_at t h = let late : ltb t 3 ≡ false = ground arith in rw late loaded-ready

wait_finds_limits_example :
    (t : ℕ) × (wait_for_model_limits memory server_at (λ t. t + 1) (pos 10) 0 ≡ ready t)
    × (t ≤ 4)
    × (limits_are_ready memory (server_at t) ≡ true)
wait_finds_limits_example =
    wait_finds_limits memory server_at (λ t. t + 1) (pos 10) 0 (λ t. omega arith) 3 1 loaded_at
      (λ t. omega arith) (omega arith) (omega arith)
