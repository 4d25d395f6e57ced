-- ===== src/Cron/Expire/Unstarted.antt =====
-- A job that is accepted and expires before it starts.
use z1mak_cv_queue.Prelude.{String, ap, lookup, none, true, truthy, ℕ, ◌∙◌, ◌≡◌}
use z1mak_cv_queue.Prelude.Int.{pos, ◌≤ℤ◌}
use z1mak_cv_queue.Admission.Selection.{user_day_limit}
use z1mak_cv_queue.Admission.Submission.{Submission, prepare_job_submission, ready, select_params}
use z1mak_cv_queue.Admission.Submission.Charged.{ready_charges}
use z1mak_cv_queue.Admission.Submission.Outcomes.{ready_takes_slot}
use z1mak_cv_queue.Cron.Expire.{ExpireClock, QueuedJob, expire_job}
use z1mak_cv_queue.Cron.Expire.Restores.{expire_settles}
use z1mak_cv_queue.Limits.{get_cached_user_limits}
use z1mak_cv_queue.Modes.{get_mode_type}
use z1mak_cv_queue.Redis.{Key, Redis, queue_waiting_model, scores, user_active_jobs, user_type_rpd}
use z1mak_cv_queue.Routes.{accepted, analyze}
use z1mak_cv_queue.Routes.Accepted.{count-enqueue, on_prepared-accepted}
use z1mak_cv_queue.Scripts.Acquire.{get_or_zero, is_limit}
use z1mak_cv_queue.Scripts.Release.{clamp_sub}
use z1mak_cv_queue.Scripts.Release.Laws.{clamp_sub-add}

module _ (R : Redis) (q : Submission) (c : ExpireClock) (age : ℕ) where
  open R use {State}

  abbrev queued_as : String → QueuedJob
  queued_as model = record {
    age_ms = age;
    queued_id = q.job_id;
    queued_user = q.user_id;
    queued_model = model;
  }

  abbrev day_key : Key
  day_key = user_type_rpd q.user_id (get_mode_type q.mode) q.today_pt

  same_key :
      (k j : Key) (s t : State)
      → k ≡ j
      → get_or_zero R k s ≡ clamp_sub (get_or_zero R k t) (pos 1)
      → get_or_zero R j s ≡ clamp_sub (get_or_zero R j t) (pos 1)
  same_key k j s t h p = rw (← h) p

  -- A submission that is accepted and whose job expires on the same day, before an attempt at it, has
  -- cost its user nothing: the counter of the user's day and the queue of the model are what they were
  -- before the submission, and the job holds no lock. It is for a user with a limit of the day; the user,
  -- the model and the job have names, and the counters were not negative.
  pub expired_costs_nothing :
      (s : State) {job model : String} {t : State}
      → analyze R q true true s ≡ (accepted job model, t)
      → c.expire_date_pt ≡ q.today_pt
      → truthy q.user_id ≡ true
      → truthy model ≡ true
      → truthy q.job_id ≡ true
      → is_limit (
          user_day_limit
            (select_params q (get_cached_user_limits R q.user_id q.user_role q.db_limits s).0))
        ≡ true
      → pos 0 ≤ℤ get_or_zero R (queue_waiting_model model) s
      → pos 0 ≤ℤ get_or_zero R day_key s
      → let e = expire_job R (get_mode_type q.mode) c (queued_as model) t in
        (get_or_zero R (queue_waiting_model model) e ≡ get_or_zero R (queue_waiting_model model) s)
        × (get_or_zero R day_key e ≡ get_or_zero R day_key s)
        × (lookup q.job_id (scores R e (user_active_jobs q.user_id)) ≡ none)
  unfolding analyze
  expired_costs_nothing s {job} {model} {t} h date u m i l w d =
      let (o, prepared) = prepare_job_submission R q s in
      let (requested, id, is_ready, e) = on_prepared-accepted R q o prepared h in
      let is_prepared : prepare_job_submission R q s ≡ (ready requested model, prepared) =
        ap (λ x. (x, prepared)) is_ready in
      let e_state = expire_job R (get_mode_type q.mode) c (queued_as model) t in
      let settled = expire_settles R (get_mode_type q.mode) c (queued_as model) t u m i in
      let (up, bound) = ready_takes_slot R q s is_prepared in
      let charged = ready_charges R q s is_prepared in
      let waiting =
        ap (get_or_zero R (queue_waiting_model model)) e
        ∙ count-enqueue R q requested model prepared (queue_waiting_model model)
        ∙ up in
      let day =
        ap (get_or_zero R day_key) e
        ∙ count-enqueue R q requested model prepared day_key
        ∙ rw l at charged in
      (
        settled.0
            ∙ rw waiting (clamp_sub-add (get_or_zero R (queue_waiting_model model) s) (pos 1) w),
        same_key (user_type_rpd q.user_id (get_mode_type q.mode) c.expire_date_pt) day_key e_state t
              (ap (user_type_rpd q.user_id (get_mode_type q.mode)) date) settled.1
            ∙ rw day (clamp_sub-add (get_or_zero R day_key s) (pos 1) d),
        settled.4,
      )
