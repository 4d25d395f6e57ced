-- ===== src/Gemini/Definitions.antt =====
-- PROPERTY_DEFINITIONS of ai/schema/propertyDefinitions.ts, one definition for each of its parts.
use z1mak_cv_queue.Prelude.{String, [], none, some, ◌∷◌}
use z1mak_cv_queue.Gemini.Schema.{
  Schema, array, boolean, enumerated, nothing, number, object, property, string,
}

abbrev pub amount_placeholder : String
amount_placeholder = "[amount]"

abbrev pub match_score : Schema
match_score = number (
    some
      "Number from 0 to 100. Assessment of how well the CV matches the vacancy. 0 - no match, 100 - perfect candidate.")

abbrev pub independent_cv_score : Schema
independent_cv_score = number (
    some
      "Number 0-100. Evaluate the overall quality of the CV structure and content, independent of the vacancy. Focus on: formatting, readability, use of Action Verbs, quantification of results (numbers/metrics), and clarity. 0 = poor/unusable, 100 = perfect, market-ready CV.")

abbrev pub independent_tech_cv_score : Schema
independent_tech_cv_score = number (
    some
      "Number 0-100. Assessment of the resume's strength based on global recruitment standards. Factors: strong impact statements (STAR method), measurable achievements, absence of 'water', and modern layout. High score means the candidate sells themselves effectively.")

abbrev pub candidate_level : Schema
candidate_level =
    enumerated ("Junior" ∷ "Middle" ∷ "Senior" ∷ "Lead" ∷ "Principal" ∷ [])
      (some "Assess the candidate level based on the CV")

abbrev pub job_target_level : Schema
job_target_level =
    enumerated ("Junior" ∷ "Middle" ∷ "Senior" ∷ "Lead" ∷ "Principal" ∷ [])
      (some "Assess the level of the vacancy itself")

abbrev pub level_match : Schema
level_match = boolean (some "true or false, do the candidate and vacancy levels match?")

abbrev pub suitability_summary : Schema
suitability_summary =
    string
      (some "Short (3-4 sentences) summary: why the candidate fits or does not fit. Be honest.")

abbrev pub education_match : Schema
education_match =
    boolean (some "boolean. Does the education in the CV meet the vacancy requirements?")

abbrev pub job_hopping_flag : Schema
job_hopping_flag = boolean (
    some
      "boolean. Are there signs of 'job hopping' (less than 1.5-2 years in the last 3+ positions)?")

abbrev pub total_years_in_cv : Schema
total_years_in_cv = number (some "Number. Total work experience found in the CV (e.g., 8.5)")

abbrev pub relevant_years_in_cv : Schema
relevant_years_in_cv = number (some "Number. Work experience relevant to THIS vacancy")

abbrev pub required_years_in_job : Schema
required_years_in_job =
    number (some "Number. How many years of experience the vacancy requires (0 if not specified)")

abbrev pub key_skill_coverage_percent : Schema
key_skill_coverage_percent = number (
    some
      "Number from 0 to 100. What percentage of REQUIRED skills from the vacancy were found in the CV?")

abbrev pub stack_recency_score : Schema
stack_recency_score = number (
    some
      "Number 0-100. How 'fresh' are the necessary skills? 100 - used the main stack at the current job, 0 - used long ago.")

abbrev pub soft_skills_score : Schema
soft_skills_score = number (
    some
      "Number 0-100. How clearly expressed are the necessary Soft Skills (communication, leadership) in the text?")

abbrev pub detailed_skill_analysis : Schema
detailed_skill_analysis =
    object
      (property "title" (string none) (
        property "skills"
          (array (some amount_placeholder)
            (some
              "List of key skills found in the CV. Prioritize skills that are most relevant to the vacancy/role. Order by importance from high to low. STRICTLY: Do not include skills that are not explicitly mentioned in the CV text.")
            (object
              (property "skill" (string (some "Skill name (e.g., 'Node.js')")) (
                property "type" (string (some "'Required' or 'Desired'")) (
                  property "status"
                    (string (some "'Strongly Present' or 'Mentioned' or 'Inferred' or 'Missing'"))
                    (property "evidenceFromCV"
                      (string (
                        some
                          "STRICTLY: A comma-separated list of Company Names where the skill was demonstrated, or 'N/A'."))
                      (property "confidenceScore" (number (some "Number 0-10")) (nothing))))))
              ("skill" ∷ "type" ∷ "status" ∷ "evidenceFromCV" ∷ "confidenceScore" ∷ [])))
          (nothing)))
      ("title" ∷ "skills" ∷ [])

abbrev pub experience_relevance_analysis : Schema
experience_relevance_analysis =
    object
      (property "title" (string none) (
        property "jobs"
          (array (some amount_placeholder)
            (some
              "Select the most recent and relevant positions. Prioritize experience that matches the vacancy requirements. Order by relevance (most relevant first).")
            (object
              (property "jobTitle" (string none) (
                property "company" (string none) (
                  property "period" (string none) (
                    property "relevanceToRoleScore" (number (some "Number 0-10")) (
                      property "comment"
                        (string (
                          some
                            "Concise justification (1-2 sentences). Explain specific matches (tech stack, scale, domain) or why this experience is not relevant."))
                        (nothing))))))
              ("jobTitle" ∷ "company" ∷ "period" ∷ "relevanceToRoleScore" ∷ "comment" ∷ [])))
          (nothing)))
      ("title" ∷ "jobs" ∷ [])

abbrev pub red_flags_and_concerns : Schema
red_flags_and_concerns =
    object
      (property "title" (string none) (
        property "flags"
          (array (some "5") none (
            object
              (property "concern" (string none) (
                property "details" (string none)
                  (property "severity" (string (some "'Low' or 'Medium' or 'High'")) (nothing))))
              ("concern" ∷ "details" ∷ "severity" ∷ [])))
          (nothing)))
      ("title" ∷ "flags" ∷ [])

abbrev pub suggested_interview_questions : Schema
suggested_interview_questions =
    object
      (property "title" (string none) (
        property "questions"
          (array (some "5")
            (some
              "STRICT LIMIT: Provide a MAXIMUM of 5 questions. Focus on areas of concern, gaps, or opportunities for deeper understanding of the candidate's fit for the role.")
            (object (property "question" (string none) (property "reason" (string none) (nothing)))
              ("question" ∷ "reason" ∷ [])))
          (nothing)))
      ("title" ∷ "questions" ∷ [])

abbrev pub summary_rewrite : Schema
summary_rewrite =
    object (property "suggestion" (string none) (property "example" (string none) (nothing)))
      ("suggestion" ∷ "example" ∷ [])

abbrev pub keyword_optimization : Schema
keyword_optimization =
    object
      (property "missingKeywords"
        (array none (some "STRICT LIMIT: List a MAXIMUM of 10 missing keywords.") (string none))
        (property "suggestion" (string none) (nothing)))
      ("missingKeywords" ∷ "suggestion" ∷ [])

abbrev pub quantify_achievements : Schema
quantify_achievements =
    object
      (property "targetSection" (string none) (
        property "suggestion" (string none)
          (property "examplesToImprove" (array none none (string none)) (nothing))))
      ("targetSection" ∷ "suggestion" ∷ "examplesToImprove" ∷ [])

abbrev pub remove_irrelevant : Schema
remove_irrelevant = object (property "suggestion" (string none) (nothing)) ("suggestion" ∷ [])

abbrev pub metadata : Schema
metadata =
    object
      (property "isValidCv"
        (boolean (
          some
            "True if the CV text appears to be a valid resume containing professional experience or skills. False if it is empty, contains only random characters, or is clearly not a CV."))
        (property "isValidJobDescription"
          (boolean (
            some
              "True if the text describes a job role with requirements. False if it contains random characters, is too short to be meaningful  or is clearly not a Job Description."))
          (property "isJobDescriptionPresent"
            (boolean (some "True if job description was provided.")) (nothing))))
      ("isValidCv" ∷ "isValidJobDescription" ∷ "isJobDescriptionPresent" ∷ [])
