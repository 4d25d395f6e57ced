-- ===== src/Examples/Gemini.antt =====
-- The schema and the prompt of a mode, and a provider that fails.
use z1mak_cv_queue.Prelude.{All, [], inl, none, refl, some, true, truthy, ◌∷◌, ◌≡◌}
use z1mak_cv_queue.Errors.{
  extract_gemini_code, extract_status, gemini_code, is_network_error, is_retryable_error,
  mapped_status, normalize_gemini_error,
}
use z1mak_cv_queue.Examples.Cron.{overloaded}
use z1mak_cv_queue.Gemini.Prompt.{
  get_immediate_instruction, get_language_name, instruction_lines, join_lines,
}
use z1mak_cv_queue.Gemini.Prompt.Mentions.{instruction_fits_schema, mentions, numbered}
use z1mak_cv_queue.Gemini.Provider.{GeminiRequest, GenAiClient, err_of, execute, fails, stream_call}
use z1mak_cv_queue.Gemini.Provider.Calls.{broken_stream_judged, raw_text}
use z1mak_cv_queue.Gemini.Service.{get_gen_ai_schema}
use z1mak_cv_queue.Gemini.WellFormed.{FitsMode, has, required_keys, schema-FitsMode}
use z1mak_cv_queue.Modes.{Mode, by_job, deep, it}
use z1mak_cv_queue.Worker.Execute.{concat}
use z1mak_cv_queue.Worker.Types.{thrown, throws}

abbrev deep_it : Mode
deep_it = record { evaluation_mode = by_job; domain = it; depth = deep }

schema-FitsMode_example : FitsMode deep_it (get_gen_ai_schema deep_it)
schema-FitsMode_example = schema-FitsMode deep_it

instruction_fits_schema_example :
    let required = required_keys (get_gen_ai_schema deep_it) in
    (get_immediate_instruction deep_it "uk"
      ≡ join_lines (numbered 1 (instruction_lines deep_it (get_language_name "uk"))))
    × (mentions "detailedSkillAnalysis" (get_immediate_instruction deep_it "uk")
        ≡ has "detailedSkillAnalysis" required)
    × (mentions "suggestedInterviewQuestions" (get_immediate_instruction deep_it "uk")
        ≡ has "suggestedInterviewQuestions" required)
instruction_fits_schema_example = instruction_fits_schema deep_it "uk"

abbrev analysis_request : GeminiRequest
analysis_request = record {
  model = "gemini-flash";
  cv_description = "CV";
  job_description = some "Job";
  mode = deep_it;
  locale = "uk";
}

-- One chunk, an empty one, and the error.
abbrev failing : GenAiClient
failing = record {
  generate_content = λ r. fails overloaded;
  generate_content_stream = λ r. (some "{" ∷ none ∷ [], some overloaded);
}

broken_stream_judged_example :
    let call = stream_call failing analysis_request in
    (concat call.chunks ≡ raw_text (some "{" ∷ none ∷ []))
    × All (λ t. truthy t ≡ true) call.chunks
    × (call.retryable ≡ is_retryable_error overloaded)
    × (execute failing analysis_request
        ≡ throws (
            thrown (record (err_of (normalize_gemini_error overloaded)) {
              retryable = some (is_retryable_error overloaded);
            })))
unfolding is_network_error mapped_status extract_status extract_gemini_code gemini_code
broken_stream_judged_example =
    broken_stream_judged failing analysis_request overloaded (some "{" ∷ none ∷ []) analysis_request
      refl refl refl (inl refl) refl
