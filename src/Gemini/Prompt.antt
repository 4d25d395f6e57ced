-- ===== src/Gemini/Prompt.antt =====
-- ai/providers/gemini/builders: the prompt. Texts are those of the source, and `OrderedListBuilder` is
-- that of ai/providers/gemini/utils.ts.
pub mod Mentions
use z1mak_cv_queue.Prelude.{
  List, Option, String, [], append_text, if◌then◌else◌, none, not, some, str_eq, ℕ, ◌++◌, ◌+◌, ◌∷◌,
}
use z1mak_cv_queue.Prelude.Int.{pos}
use z1mak_cv_queue.Js.{print}
use z1mak_cv_queue.Modes.{Mode, is_by_job, is_common_domain, is_hard_mode}

infixr 65 ◌<>◌
abbrev ◌<>◌ : String → String → String
s <> t = append_text s t

-- OrderedListBuilder
pub record OrderedList : Type 0 where
  pub list_count : ℕ
  pub items : List String

abbrev pub new_list : OrderedList
new_list = record { list_count = 1; items = [] }

unfoldable pub add : String → OrderedList → OrderedList
unfolding print
add line b = record {
  list_count = b.list_count + 1;
  items = b.items ++ (print (pos b.list_count) <> (". " <> line)) ∷ [];
}

-- A run of `builder.add` calls, and one under a condition.
unfoldable pub add_all : List String → OrderedList → OrderedList
unfolding add
add_all [] b = b
add_all (line ∷ lines) b = add_all lines (add line b)

abbrev pub get_language_name : String → String
get_language_name locale = if str_eq locale "uk" then "Ukrainian" else "English"

-- The lines of `getImmediateInstruction`, in the order in which it adds them.
unfoldable pub instruction_lines : Mode → String → List String
unfolding is_by_job is_hard_mode is_common_domain
instruction_lines mode lang_name =
    ("Adhere to the rules and persona described in the system prompt."
      ∷ "Analyze the input data and populate the output JSON structure."
      ∷ ("Write the answer in "
          <> (lang_name
              <> " language, but DO NOT translate specific domain terminology (keep tech stack/role names in English)."))
      ∷ "If CV in <CV_TEXT> have no sense (maybe it's empty or contain only random string), you can skip analyzing at all and return empty strings, empty arrays, 0 for numbers"
      ∷ [])
    ++ ((if is_by_job mode
          then "Read <CV_TEXT> and identify all matches and gaps compared to <JOB_DESCRIPTION>."
            ∷ (if is_common_domain mode
                then "Focus on experience relevance and soft skills requirements."
                else "Verify if the candidate knows the specific versions or ecosystem tools mentioned in the vacancy.")
            ∷ "For \"missingKeywords\", look for actual discrepancies between the Job Description and the CV."
            ∷ []
          else "Evaluate the candidate based on the implied role title found in the CV header."
            ∷ "Focus on \"Actionable Improvement Plan\" to make this CV market-ready." ∷ [])
        ++ ((if is_hard_mode mode
              then "Provide a detailed \"detailedSkillAnalysis\" parsing every skill mentioned."
                ∷ "Generate \"suggestedInterviewQuestions\" to probe the identified weak spots."
                ∷ []
              else "Provide a high-level summary without deep granular skill breakdown." ∷ [])
            ++ "PAY ATTENTION TO FIELD DESCRIPTIONS: If \"be honest\" is specified - do not sugarcoat. If a number is required, provide 0 if not found."
              ∷ []))

-- `list.join('\n')`
abbrev pub join_lines : List String → String
join_lines [] = ""
join_lines (line ∷ []) = line
join_lines (line ∷ more ∷ lines) = line <> ("\n" <> join_lines (more ∷ lines))

unfoldable pub get_immediate_instruction : Mode → String → String
unfolding instruction_lines add_all
get_immediate_instruction mode locale =
    join_lines (add_all (instruction_lines mode (get_language_name locale)) new_list).items

unfoldable pub get_task_context : Mode → String
unfolding is_by_job is_common_domain
get_task_context mode =
    if is_by_job mode
    then (if is_common_domain mode
        then "Conduct a professional comparative analysis of a candidate against a job description."
        else "Conduct a technical comparative analysis of an IT candidate against a vacancy.")
    else if is_common_domain mode
    then "Conduct a general professional review of a resume to identify strengths, weaknesses, and structure improvements."
    else "Conduct a comprehensive technical audit of an IT resume based on global market standards (FAANG/Big Tech)."

unfoldable pub get_system_instructions : Mode → String
unfolding is_by_job is_common_domain
get_system_instructions mode =
    if not (is_common_domain mode)
    then (let base : String =
          "You are an elite AI Talent Analyst and Technical Recruiter with 20 years of experience in the IT industry (FAANG level)." in
        if is_by_job mode
        then "\n        "
          <> (base
              <> "\n        Your task is to conduct a deep and ruthlessly honest analysis of the provided CV against the Job Description.\n        \n        Your principles:\n        1. Be ruthlessly honest. Do not sugarcoat the truth.\n        2. Act as a data-driven analyst.\n        3. Carefully compare vacancy requirements with facts in the resume. Focus on Tech Stack match.\n        4. Always respond in JSON format according to the provided schema.\n      ")
        else "\n      "
          <> (base
              <> "\n      Your task is to audit the provided CV based on current global IT market standards.\n      \n      Your principles:\n      1. Evaluate the candidate's seniority based on the complexity of described projects and stack.\n      2. Identify \"Red Flags\" typical for IT (job hopping, outdated stack, lack of achievements).\n      3. Be critical about vague descriptions.\n      4. Always respond in JSON format according to the provided schema.\n    "))
    else (let base : String =
          "You are a Senior HR Business Partner and Career Coach with extensive experience in hiring for various industries." in
        if is_by_job mode
        then "\n      "
          <> (base
              <> "\n      Your task is to determine if the candidate is a good fit for the specific role described.\n      \n      Your principles:\n      1. Focus heavily on Soft Skills, Transferable Skills, and relevant industry experience.\n      2. Analyze the cultural fit implied in the Job Description.\n      3. Check if the candidate's achievements are quantified (STAR method).\n      4. Always respond in JSON format.\n    ")
        else "\n    "
          <> (base
              <> "\n    Your task is to review the CV to maximize the candidate's employability.\n    \n    Your principles:\n    1. Focus on the clarity, structure, and formatting of the CV.\n    2. Identify weak verbs and lack of results/numbers.\n    3. Suggest improvements to make the profile stand out.\n    4. Always respond in JSON format.\n  "))

pub record PromptSettings : Type 0 where
  pub prompt : String
  pub system_instructions : String

-- `undefined` in a template reads "undefined".
abbrev pub template_text : Option String → String
template_text none = "undefined"
template_text (some t) = t

unfoldable pub build_prompt_settings : String → Option String → Mode → String → PromptSettings
unfolding is_by_job get_task_context get_immediate_instruction get_system_instructions
build_prompt_settings cv_description job_description mode locale =
    let cv = "<CV_TEXT>\n" <> (cv_description <> "\n</CV_TEXT>") in
    let input_data_block =
      if is_by_job mode
      then cv
        <> ("\n\n<JOB_DESCRIPTION>\n" <> (template_text job_description <> "\n</JOB_DESCRIPTION>"))
      else cv in
    record {
      prompt =
          "\n    <TASK_CONTEXT>\n      "
          <> (get_task_context mode
              <> ("\n    </TASK_CONTEXT>\n\n    <INPUT_DATA>\n      "
                  <> (input_data_block
                      <> ("\n    </INPUT_DATA>\n\n    <IMMEDIATE_INSTRUCTION>\n      "
                          <> (get_immediate_instruction mode locale
                              <> "\n    </IMMEDIATE_INSTRUCTION>\n    ")))));
      system_instructions = get_system_instructions mode;
    }
