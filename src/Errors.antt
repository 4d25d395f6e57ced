-- ===== src/Errors.antt =====
-- ai/utils/errorUtils.ts, ai/providers/gemini/errorMapping.ts and `isRetryableError` of
-- ai/providers/gemini/GeminiProvider.ts: which errors of the provider are retried.
pub mod Normalize
use z1mak_cv_queue.Prelude.{
  Bool, Option, String, false, if◌then◌else◌, leb, ltb, none, not, or_else, some, str_eq, true, ℕ,
  ◌&&◌, ◌==◌, ◌||◌,
}
use z1mak_cv_queue.Patterns.{is_context_too_long}

-- A property whose type the source tests: missing (or of another type), a number or a text.
pub data Property : Type 0 where
  missing_property : Property
  number_property : ℕ → Property
  text_property : String → Property

-- `error`, as far as the source reads it; `error.error`, `error.response` and
-- `error.response.data.error` are flattened, with missing properties where they are missing.
pub record Fault : Type 0 where
  pub is_error : Bool  -- `instanceof Error`
  pub status : Property
  pub code : Property
  pub message : Option String
  pub inner_status : Property
  pub inner_code : Property
  pub inner_message : Option String
  pub response_status : Property
  pub data_status : Property
  pub data_message : Option String

abbrev pub as_number : Property → Option ℕ
as_number (number_property n) = some n
as_number missing_property = none
as_number (text_property t) = none

abbrev pub as_text : Property → Option String
as_text (text_property t) = some t
as_text missing_property = none
as_text (number_property n) = none

-- `a ?? b`, and the chains of `if (typeof … ) return …`
abbrev pub first_of {ℓ} : {A : Type ℓ} → Option A → Option A → Option A
first_of none o = o
first_of (some a) o = some a

abbrev pub network_code : String → Bool
network_code c =
    str_eq c "ECONNRESET"
    || (str_eq c "ETIMEDOUT"
        || (str_eq c "ECONNREFUSED"
            || (str_eq c "EHOSTUNREACH"
                || (str_eq c "ENETUNREACH"
                    || (str_eq c "EAI_AGAIN" || str_eq c "UND_ERR_CONNECT_TIMEOUT")))))

unfoldable pub is_network_error : Fault → Bool
is_network_error f = elim (as_text f.code) [ none ↦ false | some c ↦ network_code c ]

unfoldable pub extract_status : Fault → Option ℕ
extract_status f =
    first_of (as_number f.status) (
      first_of (as_number f.code) (first_of (as_number f.inner_code) (as_number f.response_status)))

unfoldable pub extract_message : Fault → Option String
extract_message f = first_of f.message (first_of f.inner_message f.data_message)

pub data GeminiErrorCode : Type 0 where
  invalid_argument failed_precondition permission_denied not_found resource_exhausted internal
        unavailable deadline_exceeded :
      GeminiErrorCode

-- `raw in GEMINI_ERROR_MAP`; the names that every object inherits are left out.
unfoldable pub gemini_code : String → Option GeminiErrorCode
gemini_code raw =
    if str_eq raw "INVALID_ARGUMENT"
    then some invalid_argument
    else if str_eq raw "FAILED_PRECONDITION"
    then some failed_precondition
    else if str_eq raw "PERMISSION_DENIED"
    then some permission_denied
    else if str_eq raw "NOT_FOUND"
    then some not_found
    else if str_eq raw "RESOURCE_EXHAUSTED"
    then some resource_exhausted
    else if str_eq raw "INTERNAL"
    then some internal
    else if str_eq raw "UNAVAILABLE"
    then some unavailable
    else if str_eq raw "DEADLINE_EXCEEDED"
    then some deadline_exceeded
    else none

abbrev pub http_code : GeminiErrorCode → ℕ
http_code invalid_argument = 400
http_code failed_precondition = 400
http_code permission_denied = 403
http_code not_found = 404
http_code resource_exhausted = 429
http_code internal = 500
http_code unavailable = 503
http_code deadline_exceeded = 504

abbrev pub friendly_message : GeminiErrorCode → String
friendly_message invalid_argument = "Gemini invalid request"
friendly_message failed_precondition = "Gemini request failed precondition"
friendly_message permission_denied = "Gemini permission denied"
friendly_message not_found = "Gemini resource not found"
friendly_message resource_exhausted = "Gemini rate limit exceeded"
friendly_message internal = "Gemini internal error"
friendly_message unavailable = "Gemini service unavailable"
friendly_message deadline_exceeded = "Gemini deadline exceeded"

-- GEMINI_NOT_RETRIABLE_BY_CODE and GEMINI_NOT_RETRIABLE_BY_STATUS
abbrev pub no_retry_code : GeminiErrorCode → Bool
no_retry_code invalid_argument = true
no_retry_code failed_precondition = true
no_retry_code permission_denied = true
no_retry_code not_found = true
no_retry_code resource_exhausted = true
no_retry_code internal = false
no_retry_code unavailable = false
no_retry_code deadline_exceeded = false

abbrev pub no_retry_status : ℕ → Bool
no_retry_status n = n == 429 || (n == 400 || (n == 403 || n == 404))

unfoldable pub extract_gemini_code : Fault → Option GeminiErrorCode
extract_gemini_code f =
    elim (first_of (as_text f.status) (first_of (as_text f.inner_status) (as_text f.data_status))) [
      | none ↦ none
      | some raw ↦ gemini_code raw
    ]

-- `extractStatus(error) ?? (code ? GEMINI_ERROR_MAP[code]?.httpCode : undefined)`
unfoldable pub mapped_status : Fault → Option ℕ
mapped_status f =
    first_of (extract_status f)
      (elim (extract_gemini_code f) [ none ↦ none | some c ↦ some (http_code c) ])

-- The tests of `isRetryableError` after the one for network errors.
unfoldable pub retry_decision : Option ℕ → Option GeminiErrorCode → Option String → Bool
retry_decision status code message =
    let by_code : Bool = elim code [ none ↦ false | some c ↦ no_retry_code c ] in
    let too_long = is_context_too_long message in
    if by_code then false else elim status [
      | none ↦ not too_long
      | some n ↦
          if no_retry_status n
          then false
          else if n == 500 && too_long
          then false
          else not (leb 400 n && ltb n 500)
    ]

unfoldable pub is_retryable_error : Fault → Bool
is_retryable_error f =
    is_network_error f
    || retry_decision (mapped_status f) (extract_gemini_code f) (extract_message f)

-- `new Error(message)`, with or without a status
abbrev pub new_error : String → Property → Fault
new_error m status = record {
  is_error = true;
  status = status;
  code = missing_property;
  message = some m;
  inner_status = missing_property;
  inner_code = missing_property;
  inner_message = none;
  response_status = missing_property;
  data_status = missing_property;
  data_message = none;
}

abbrev pub is_internal : Option GeminiErrorCode → Bool
is_internal (some internal) = true
is_internal _ = false

-- `friendlyMessage` of `normalizeGeminiError`
unfoldable pub friendly : Option GeminiErrorCode → Option String → Option String
friendly code message =
    if is_internal code && is_context_too_long message
    then some "Gemini context too long"
    else elim code [ none ↦ none | some c ↦ some (friendly_message c) ]

unfoldable pub normalize_gemini_error : Fault → Fault
normalize_gemini_error f =
    let nice = friendly (extract_gemini_code f) (extract_message f) in
    elim (mapped_status f) [
      | some n ↦
          new_error (or_else (first_of nice (extract_message f)) "Gemini provider error")
            (number_property n)
      | none ↦
          if f.is_error
          then f
          else new_error (or_else nice "Unknown Gemini provider error") missing_property
    ]
