-- ===== src/Examples/States.antt =====
-- A server with two models, a submission and a job, as they could stand in production.
use z1mak_cv_queue.Prelude.{String, [], some, true, ◌∷◌}
use z1mak_cv_queue.Admission.Submission.{Prep, Submission, prepare_job_submission}
use z1mak_cv_queue.Memory.{empty, memory}
use z1mak_cv_queue.Modes.{Mode, general, it, standard, user}
use z1mak_cv_queue.Redis.{Command, hset, model_ids, model_limits, pipeline, sadd}

abbrev hash : String → String → String → String → Command
hash id type rpm priority = (
  model_limits id,
  hset (
      ("type", type)
      ∷ ("rpm", rpm)
      ∷ ("rpd", "100")
      ∷ ("fallback_priority", priority)
      ∷ ("api_name", "gemini")
      ∷ []),
)

-- One hard and two lite models.
abbrev pub configured_models : memory.State
unfolding memory pipeline
configured_models =
    pipeline memory
      ((model_ids, sadd ("pro" ∷ "flash" ∷ "flash-lite" ∷ []))
        ∷ hash "pro" "hard" "5" "1"
        ∷ hash "flash" "lite" "10" "1"
        ∷ hash "flash-lite" "lite" "0" "2"
        ∷ [])
      empty

abbrev pub lite_mode : Mode
lite_mode = record { evaluation_mode = general; domain = it; depth = standard }

abbrev pub submission : Submission
submission = record {
  user_id = "u1";
  user_role = user;
  mode = lite_mode;
  db_limits = some [];
  job_id = "j1";
  now = 1000;
  now_iso = "2026-01-01T00:00:00.000Z";
  today_pt = "2026-01-01";
  day_ttl = 3600;
  streaming = true;
}

abbrev pub prepared : Prep × memory.State
prepared = prepare_job_submission memory submission configured_models
