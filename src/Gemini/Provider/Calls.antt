-- ===== src/Gemini/Provider/Calls.antt =====
-- What reaches the worker of an answer.
use text.Mathlib.TextLemmas.{nil-append}
use z1mak_cv_queue.Prelude.{
  All, Bool-cases, List, Option, String, [], ap, append_text, false, inl, inr, none, or_else, refl,
  some, sym, true, truthy, ◌∙◌, ◌∷◌, ◌≡◌, ◌⊎◌,
}
use z1mak_cv_queue.Errors.{
  Fault, extract_gemini_code, is_network_error, is_retryable_error, mapped_status,
  normalize_gemini_error,
}
use z1mak_cv_queue.Errors.Normalize.{Agrees, normalize-retryable}
use z1mak_cv_queue.Gemini.Provider.{
  GeminiRequest, GenAiClient, content_request, err_of, execute, fails, stream_call, yield_texts,
}
use z1mak_cv_queue.Worker.Execute.{concat}
use z1mak_cv_queue.Worker.Types.{thrown, throws}

-- The text of the chunks as the client hands them over.
abbrev pub raw_text : List (Option String) → String
raw_text [] = ""
raw_text (piece ∷ chunks) = append_text (or_else piece "") (raw_text chunks)

yield_texts-concat : (chunks : List (Option String)) → concat (yield_texts chunks) ≡ raw_text chunks
yield_texts-concat [] = refl
yield_texts-concat (none ∷ chunks) = yield_texts-concat chunks ∙ sym (nil-append (raw_text chunks))
yield_texts-concat (some String.[] ∷ chunks) =
    yield_texts-concat chunks ∙ sym (nil-append (raw_text chunks))
yield_texts-concat (some (String.◌∷◌ c t) ∷ chunks) =
    ap (append_text (String.◌∷◌ c t)) (yield_texts-concat chunks)

yield_texts-All : (chunks : List (Option String)) → All (λ t. truthy t ≡ true) (yield_texts chunks)
yield_texts-All [] = tt
yield_texts-All (none ∷ chunks) = yield_texts-All chunks
yield_texts-All (some t ∷ chunks) = elim (Bool-cases (truthy t)) [
  | inl e ↦ rw e (e, yield_texts-All chunks)
  | inr e ↦ rw e (yield_texts-All chunks)
]

module _ (client : GenAiClient) (r : GeminiRequest) (f : Fault) where
  -- A stream of the provider that breaks off with an Error: the worker gets the text of all chunks
  -- before it, in chunks that are not empty, and is told whether to retry as the error itself is
  -- judged. It is for an error that is no network error with a status, and whose status agrees with
  -- its code; a plain call that fails with it is told the same.
  pub broken_stream_judged :
      (chunks : List (Option String)) (request : GeminiRequest)
      → client.generate_content_stream (content_request r) ≡ (chunks, some f)
      → client.generate_content (content_request request) ≡ fails f
      → f.is_error ≡ true
      → (is_network_error f ≡ false) ⊎ (mapped_status f ≡ none)
      → Agrees (mapped_status f) (extract_gemini_code f)
      → let call = stream_call client r in
        (concat call.chunks ≡ raw_text chunks)
        × All (λ t. truthy t ≡ true) call.chunks
        × (call.retryable ≡ is_retryable_error f)
        × (execute client request
            ≡ throws (
                thrown (record (err_of (normalize_gemini_error f)) {
                  retryable = some (is_retryable_error f);
                })))
  unfolding stream_call execute
  broken_stream_judged chunks request s p e network agrees =
      let judged = normalize-retryable f e network agrees in
      rw (s, p, judged) (yield_texts-concat chunks, yield_texts-All chunks, refl, refl)
