-- ===== src/Routes/Status.antt =====
-- What the reading routes say of a job.
use z1mak_cv_queue.Prelude.{
  Assoc, Option, Option-cases, String, [], arith, false, inl, inr, is_empty, lookup, none, or_else,
  refl, some, true, truthy, ◌∷◌, ◌≡◌, ◌⊎◌,
}
use z1mak_cv_queue.Redis.{Redis, fields, job_meta, job_result}
use z1mak_cv_queue.Routes.{JobResult, get_result, get_status}
use z1mak_cv_queue.Streaming.{ResultRow}
use z1mak_cv_queue.Worker.Types.{JobData}

-- The status in an answer of `GET /:id/result`.
abbrev pub status_of : Option JobResult → Option String
status_of none = none
status_of (some r) = r.status

-- A hash is missing, or it has a status.
abbrev pub HasStatus : Assoc String → Type 0
HasStatus h = (h ≡ []) ⊎ (truthy (or_else (lookup "status" h) "") ≡ true)

truthy-none : (o : Option String) → o ≡ none → truthy (or_else o "") ≡ true → ⊥
truthy-none none n h = cc
truthy-none (some t) n h = cc

HasStatus-cases :
    (h : Assoc String)
    → HasStatus h
    → ((is_empty h ≡ true) × (truthy (or_else (lookup "status" h) "") ≡ false))
      ⊎ ((is_empty h ≡ false) × (t : String) × (lookup "status" h ≡ some t) × (truthy t ≡ true))
unfolding lookup
HasStatus-cases [] (inl e) = inl (refl, refl)
HasStatus-cases [] (inr e) = cc
HasStatus-cases (p ∷ h) (inl e) = cc
HasStatus-cases (p ∷ h) (inr e) = elim (Option-cases (lookup "status" (p ∷ h))) [
  | inl n ↦ absurd (truthy-none (lookup "status" (p ∷ h)) n e)
  | inr (t, q) ↦ inr (refl, t, q, rw q at e)
]

module _ (R : Redis) (job : JobData) where
  open R use {State}

  -- The two routes report the same status of a job, whether it is finished, under way, in the database
  -- only or unknown, if the hashes of the job that exist have a status.
  pub statuses_agree :
      (row : Option ResultRow) (s : State)
      → HasStatus (fields R s (job_result job.job_id))
      → HasStatus (fields R s (job_meta job.job_id))
      → get_status R job.job_id row s ≡ status_of (get_result R job.job_id row s)
  unfolding get_status get_result
  statuses_agree row s r m = ground (
    arith,
    HasStatus-cases (fields R s (job_result job.job_id)) r,
    HasStatus-cases (fields R s (job_meta job.job_id)) m,
  )
