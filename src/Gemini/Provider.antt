-- ===== src/Gemini/Provider.antt =====
-- generate and generateStream of ai/providers/gemini/GeminiProvider.ts, and the methods of
-- ai/ModelProviderService.ts that call them. The client of @google/genai is a parameter: what it
-- answers a request, or the chunks of a stream and the error that breaks it off.
pub mod Calls
use z1mak_cv_queue.Prelude.{
  Bool, List, Option, String, [], false, if◌then◌else◌, none, or_else, some, truthy, ◌∷◌,
}
use z1mak_cv_queue.Errors.{Fault, as_text, is_retryable_error, normalize_gemini_error}
use z1mak_cv_queue.Gemini.Prompt.{build_prompt_settings}
use z1mak_cv_queue.Gemini.Schema.{Schema}
use z1mak_cv_queue.Gemini.Service.{get_gen_ai_schema}
use z1mak_cv_queue.Modes.{Mode}
use z1mak_cv_queue.Redis.{text}
use z1mak_cv_queue.Worker.Execute.{Call}
use z1mak_cv_queue.Worker.Types.{
  Err, ProviderResult, Result, returns, thrown, throws, unrecoverable,
}

pub record GeminiRequest : Type 0 where
  pub model : String
  pub cv_description : String
  pub job_description : Option String
  pub mode : Mode
  pub locale : String

-- What is sent; the temperature 0, the type of the answer and the safety settings are constants.
pub record ContentRequest : Type 0 where
  pub content_model : String
  pub prompt_text : String
  pub system_instruction : String
  pub response_schema : Schema

pub data Outcome {ℓ} (A : Type ℓ) : Type ℓ where
  gives : A → Outcome A
  fails : Fault → Outcome A

pub record GenAiClient : Type 0 where
  pub generate_content : ContentRequest → Outcome (Option String)
  pub generate_content_stream : ContentRequest → List (Option String) × Option Fault

unfoldable pub content_request : GeminiRequest → ContentRequest
unfolding build_prompt_settings get_gen_ai_schema
content_request r =
    let settings = build_prompt_settings r.cv_description r.job_description r.mode r.locale in
    record {
      content_model = r.model;
      prompt_text = settings.prompt;
      system_instruction = settings.system_instructions;
      response_schema = get_gen_ai_schema r.mode;
    }

-- `result.text ?? ''`, or the `catch`.
abbrev answered : Outcome (Option String) → Outcome String
answered (gives t) = gives (or_else t "")
answered (fails f) = fails (normalize_gemini_error f)

unfoldable pub generate : GenAiClient → GeminiRequest → Outcome String
generate client r = answered (client.generate_content (content_request r))

-- `if (text) yield text`
abbrev pub yield_texts : List (Option String) → List String
yield_texts [] = []
yield_texts (none ∷ chunks) = yield_texts chunks
yield_texts (some t ∷ chunks) = let rest = yield_texts chunks in if truthy t then t ∷ rest else rest

abbrev pub normalized : Option Fault → Option Fault
normalized none = none
normalized (some f) = some (normalize_gemini_error f)

unfoldable pub generate_stream : GenAiClient → GeminiRequest → List String × Option Fault
generate_stream client r =
    let (chunks, broken) = client.generate_content_stream (content_request r) in
    (yield_texts chunks, normalized broken)

-- What the worker reads of an error of the provider.
abbrev pub err_of : Fault → Err
err_of f = record { code = as_text f.code; message = or_else f.message ""; retryable = none }

-- What `execute` makes of it: the `catch` marks the error.
abbrev executed : String → Outcome String → Result ProviderResult
executed model (gives t) = returns (record { text = t; used_model = model })
executed model (fails f) =
    throws (thrown (record (err_of f) { retryable = some (is_retryable_error f) }))

unfoldable pub execute : GenAiClient → GeminiRequest → Result ProviderResult
unfolding generate
execute client r = executed r.model (generate client r)

abbrev broke_of : Option Fault → Option Err
broke_of none = none
broke_of (some f) = some (err_of f)

abbrev retryable_of : Option Fault → Bool
retryable_of none = false
retryable_of (some f) = is_retryable_error f

-- A streaming call as the worker sees it, with `executeStream` and `isRetryableError`.
unfoldable pub stream_call : GenAiClient → GeminiRequest → Call
unfolding generate_stream
stream_call client r =
    let (chunks, broken) = generate_stream client r in
    record {
      answer = throws (unrecoverable "");
      chunks = chunks;
      broke = broke_of broken;
      retryable = retryable_of broken;
    }
