-- ===== src/Worker/Types.antt =====
-- worker/types.ts, and what a step of the worker may throw.
-- An error: what `finalizeFailure` and the stream's error entry read of it.
use z1mak_cv_queue.Prelude.{Bool, Option, String}

pub record Err : Type 0 where
  pub code : Option String
  pub message : String
  pub retryable : Option Bool

-- The payload goes to the provider only, so it is left to the provider's parameter.
pub record JobData : Type 0 where
  pub job_id : String
  pub user_id : String
  pub model : String
  pub streaming : Bool

pub record ProviderResult : Type 0 where
  pub text : String
  pub used_model : String

-- BullMQ does not retry a job that throws its UnrecoverableError.
pub data Failure : Type 0 where
  unrecoverable : String → Failure
  thrown : Err → Failure

pub data Result {ℓ} (A : Type ℓ) : Type ℓ where
  returns : A → Result A
  throws : Failure → Result A
