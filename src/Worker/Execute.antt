-- ===== src/Worker/Execute.antt =====
-- worker/executeModel.ts. What the provider answers is a parameter: for a plain call a text or an
-- error, for a stream its chunks and how it ends.
pub mod Stream
use z1mak_cv_queue.Prelude.{
  Bool, List, Option, String, [], append_text, false, if◌then◌else◌, lookup, none, or_else, some,
  true, truthy, ℕ, ◌∷◌,
}
use z1mak_cv_queue.Redis.{
  Redis, StreamEntry, chunk, done, error, expire, fields, job_stream, model_limits, text, when,
  xadd,
}
use z1mak_cv_queue.Worker.Types.{
  Err, Failure, JobData, ProviderResult, Result, returns, thrown, throws, unrecoverable,
}

pub record Call : Type 0 where
  pub answer : Result String  -- of `modelProvider.execute`
  pub chunks : List String  -- of `modelProvider.executeStream`
  pub broke : Option Err  -- the error that ends the stream, if one does
  pub retryable : Bool  -- `modelProvider.isRetryableError` of that error

-- STREAM_TTL_SAFETY and STREAM_TTL_COMPLETED of constants/jobKeys.ts
abbrev pub stream_ttl_safety : ℕ
stream_ttl_safety = 900

abbrev pub stream_ttl_completed : ℕ
stream_ttl_completed = 300

abbrev pub chunk_entry : String → StreamEntry
chunk_entry text = record {
  type = chunk;
  data_text = some text;
  code = none;
  message = none;
  retryable = none;
}

abbrev pub done_entry : StreamEntry
done_entry = record { type = done; data_text = none; code = none; message = none; retryable = none }

abbrev pub error_entry : String → String → Bool → StreamEntry
error_entry code message retryable = record {
  type = error;
  data_text = none;
  code = some code;
  message = some message;
  retryable = some retryable;
}

-- The text that `fullText +=` builds.
abbrev pub concat : List String → String
concat [] = ""
concat (t ∷ l) = append_text t (concat l)

-- `(error as …)?.code || 'UNKNOWN_ERROR'`
abbrev pub code_or_unknown : Option String → String
code_or_unknown none = "UNKNOWN_ERROR"
code_or_unknown (some c) = if truthy c then c else "UNKNOWN_ERROR"

-- The `catch` of ai/ModelProviderService.ts: `error.retryable = isRetryableError(error)`.
abbrev pub marked : Bool → Failure → Failure
marked retryable (unrecoverable m) = unrecoverable m
marked retryable (thrown e) = thrown (record e { retryable = some retryable })

-- `execute` of ai/ModelProviderService.ts: the result names the model by its API name.
abbrev pub name_result : String → Bool → Result String → Result ProviderResult
name_result api retryable (returns answer) = returns (record { text = answer; used_model = api })
name_result api retryable (throws f) = throws (marked retryable f)

module _ (R : Redis) where
  open R use {State, exec, next_id}

  -- `xadd(streamKey, '*', 'data', message)`
  unfoldable pub append_entry : String → StreamEntry → State → State
  append_entry job e s = exec (job_stream job, xadd (next_id s (job_stream job)) e) s

  -- The loop over the chunks; the first one also gives the stream its time to live.
  unfoldable pub write_chunks : String → Bool → List String → State → State
  unfolding append_entry
  write_chunks job first [] s = s
  write_chunks job first (text ∷ chunks) s = write_chunks job false chunks (
      when R first (job_stream job, expire stream_ttl_safety)
        (append_entry job (chunk_entry text) s))

  -- The last entry, and the shorter time to live.
  unfoldable pub close_stream : String → StreamEntry → State → State
  unfolding append_entry
  close_stream job e s = exec (job_stream job, expire stream_ttl_completed) (append_entry job e s)

  -- What follows the loop: the return, or the `catch`.
  unfoldable pub end_stream : JobData → Call → Option Err → State → Result ProviderResult × State
  end_stream job call none s = (
    returns (record { text = concat call.chunks; used_model = job.model }),
    close_stream job.job_id done_entry s,
  )
  end_stream job call (some e) s = (
    throws (marked call.retryable (thrown e)),
    close_stream job.job_id (error_entry (code_or_unknown e.code) e.message call.retryable) s,
  )

  unfoldable pub execute_stream : JobData → Call → State → Result ProviderResult × State
  execute_stream job call s =
      end_stream job call call.broke (write_chunks job.job_id true call.chunks s)

  unfoldable pub execute_model : JobData → Call → State → Result ProviderResult × State
  execute_model job call s =
      let api = or_else (lookup "api_name" (fields R s (model_limits job.model))) "" in
      if truthy api
      then (if job.streaming
          then execute_stream job call s
          else (name_result api call.retryable call.answer, s))
      else (throws (unrecoverable (append_text "MODEL_API_NAME_MISSING:" job.model)), s)
