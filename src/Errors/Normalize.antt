-- ===== src/Errors/Normalize.antt =====
-- The provider throws a normalised error, and the service asks of that one whether it is retried.
use z1mak_cv_queue.Prelude.{
  Bool-cases, Option, Option-cases, String, ap, arith, false, inl, inr, none, or_else, refl, some,
  true, ℕ, ◌∙◌, ◌≡◌, ◌⊎◌,
}
use z1mak_cv_queue.Errors.{
  Fault, GeminiErrorCode, deadline_exceeded, extract_gemini_code, extract_message, extract_status,
  failed_precondition, first_of, friendly, http_code, internal, invalid_argument, is_network_error,
  is_retryable_error, mapped_status, new_error, normalize_gemini_error, not_found, number_property,
  permission_denied, resource_exhausted, retry_decision, unavailable,
}
use z1mak_cv_queue.Patterns.{includes_lower, is_context_too_long, starts_with_lower}

-- An error with a Gemini code has the status of that code.
abbrev pub Agrees : Option ℕ → Option GeminiErrorCode → Type 0
Agrees status none = Unit
Agrees status (some c) = status ≡ some (http_code c)

abbrev told : Option GeminiErrorCode → Option String → Option String
told code m = some (or_else (first_of (friendly code m) m) "Gemini provider error")

-- Asking of the status and the friendly message only, instead of the code and the raw message.
decision-code :
    (c : GeminiErrorCode) (m : Option String)
    → retry_decision (some (http_code c)) none (told (some c) m)
      ≡ retry_decision (some (http_code c)) (some c) m
unfolding retry_decision friendly
decision-code invalid_argument m = refl
decision-code failed_precondition m = refl
decision-code permission_denied m = refl
decision-code not_found m = refl
decision-code resource_exhausted m = refl
decision-code internal m = elim (Bool-cases (is_context_too_long m)) [
  | inl long ↦ rw long (unfold is_context_too_long includes_lower starts_with_lower in refl)
  | inr short ↦ rw short (unfold is_context_too_long includes_lower starts_with_lower in refl)
]
decision-code unavailable m = refl
decision-code deadline_exceeded m = refl

decision-none :
    (status : Option ℕ) (m : Option String)
    → retry_decision status none (told none m) ≡ retry_decision status none m
unfolding retry_decision friendly is_context_too_long includes_lower starts_with_lower
decision-none status none = refl
decision-none status (some t) = refl

decision-same :
    (n : ℕ) (code : Option GeminiErrorCode) (m : Option String)
    → Agrees (some n) code
    → retry_decision (some n) none (told code m) ≡ retry_decision (some n) code m
decision-same n none m h = decision-none (some n) m
decision-same n (some c) m h = let same : n ≡ http_code c = cc in rw same (decision-code c m)

-- The error of `new Error` with a status is judged by its status and its message.
new_error-retryable :
    (n : ℕ) (m : String)
    → is_retryable_error (new_error m (number_property n)) ≡ retry_decision (some n) none (some m)
unfolding is_retryable_error is_network_error mapped_status extract_status extract_gemini_code
    extract_message
new_error-retryable n m = refl

normalize-some :
    (f : Fault) (n : ℕ)
    → mapped_status f ≡ some n
    → normalize_gemini_error f
      ≡ new_error
          (or_else
            (first_of (friendly (extract_gemini_code f) (extract_message f)) (extract_message f))
            "Gemini provider error")
          (number_property n)
unfolding normalize_gemini_error
normalize-some f n q = ground (arith, q)

normalize-none :
    (f : Fault) → mapped_status f ≡ none → f.is_error ≡ true → normalize_gemini_error f ≡ f
unfolding normalize_gemini_error
normalize-none f q e = ground (arith, q, e)

-- Normalising an error of the provider does not change whether the job is retried, for an error that is
-- an Error, that is not a network error with a status, and whose status agrees with its code.
pub normalize-retryable :
    (f : Fault)
    → f.is_error ≡ true
    → (is_network_error f ≡ false) ⊎ (mapped_status f ≡ none)
    → Agrees (mapped_status f) (extract_gemini_code f)
    → is_retryable_error (normalize_gemini_error f) ≡ is_retryable_error f
normalize-retryable f e network agrees = elim (Option-cases (mapped_status f)) [
  | inl n ↦ ap is_retryable_error (normalize-none f n e)
  | inr (n, q) ↦
      let code = extract_gemini_code f in
      let m = extract_message f in
      let calm : is_network_error f ≡ false = ground (arith, network, q) in
      rw (normalize-some f n q) (
        new_error-retryable n (or_else (first_of (friendly code m) m) "Gemini provider error")
        ∙ decision-same n code m (rw q at agrees)
        ∙ unfold is_retryable_error in rw (calm, q))
]
