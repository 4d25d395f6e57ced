-- ===== src/Gemini/Service.antt =====
-- ai/schema/SchemaService.ts: the schema of each mode. The getters of the constructor's flags are
-- those of `Mode`.
use z1mak_cv_queue.Prelude.{Bool, List, String, [], if◌then◌else◌, none, not, some, ◌&&◌, ◌++◌, ◌∷◌}
use z1mak_cv_queue.Gemini.Definitions.{
  amount_placeholder, candidate_level, detailed_skill_analysis, education_match,
  experience_relevance_analysis, independent_cv_score, independent_tech_cv_score, job_hopping_flag,
  job_target_level, key_skill_coverage_percent, keyword_optimization, level_match, match_score,
  metadata, quantify_achievements, red_flags_and_concerns, relevant_years_in_cv, remove_irrelevant,
  required_years_in_job, soft_skills_score, stack_recency_score, suggested_interview_questions,
  suitability_summary, summary_rewrite, total_years_in_cv,
}
use z1mak_cv_queue.Gemini.Schema.{
  Properties, Schema, assign, keys, nothing, object, produce, replace_first, replace_max_items,
  string,
}
use z1mak_cv_queue.Modes.{Mode, is_by_job, is_common_domain, is_deep, is_hard_mode}

-- The entries of an object literal, and those that are assigned under a condition.
abbrev pub assign_all : List (String × Schema) → Properties → Properties
assign_all [] props = props
assign_all ((k, v) ∷ l) props = assign_all l (assign k v props)

abbrev pub assign_if : Bool → List (String × Schema) → Properties → Properties
assign_if b l props = if b then assign_all l props else props

-- `required.push(…)` under a condition
abbrev pub push_if : Bool → List String → List String → List String
push_if b new required = if b then required ++ new else required

unfoldable pub build_overall_analysis : Mode → Schema
unfolding is_by_job is_deep is_common_domain
build_overall_analysis mode =
    let common = is_common_domain mode in
    let job = is_by_job mode in
    let job_deep = job && is_deep mode in
    let props =
      assign_all
        (("candidateLevel", candidate_level) ∷ ("suitabilitySummary", suitability_summary) ∷ [])
        nothing in
    object
      (assign_if (not job) (("jobHoppingFlag", job_hopping_flag) ∷ []) (
        assign_if job_deep
          (("educationMatch", education_match) ∷ ("jobHoppingFlag", job_hopping_flag) ∷ [])
          (assign_if job
            (("matchScore", match_score)
              ∷ ("jobTargetLevel", job_target_level)
              ∷ ("levelMatch", level_match)
              ∷ [])
            (assign_if (not common) (("independentTechCvScore", independent_tech_cv_score) ∷ [])
              (assign_if common (("independentCvScore", independent_cv_score) ∷ []) props)))))
      (push_if (not job) ("jobHoppingFlag" ∷ []) (
        push_if job_deep ("educationMatch" ∷ "jobHoppingFlag" ∷ [])
          (push_if job ("jobTargetLevel" ∷ "levelMatch" ∷ []) (keys props))))

unfoldable pub build_quantitative_metrics : Mode → Schema
unfolding is_by_job is_deep
build_quantitative_metrics mode =
    let props = assign_all (("totalYearsInCV", total_years_in_cv) ∷ []) nothing in
    object
      (assign_if (is_deep mode)
        (("stackRecencyScore", stack_recency_score) ∷ ("softSkillsScore", soft_skills_score) ∷ [])
        (assign_if (is_by_job mode)
          (("relevantYearsInCV", relevant_years_in_cv)
            ∷ ("keySkillCoveragePercent", key_skill_coverage_percent)
            ∷ ("requiredYearsInJob", required_years_in_job)
            ∷ [])
          props))
      (push_if (is_deep mode) ("stackRecencyScore" ∷ "softSkillsScore" ∷ [])
        (push_if (is_by_job mode) ("requiredYearsInJob" ∷ []) (keys props)))

unfoldable pub build_improvement_plan : Mode → Schema
unfolding is_by_job
build_improvement_plan mode =
    let props =
      assign_all
        (("title", string none)
          ∷ ("summaryRewrite", summary_rewrite)
          ∷ ("quantifyAchievements", quantify_achievements)
          ∷ ("removeIrrelevant", remove_irrelevant)
          ∷ [])
        nothing in
    object (assign_if (is_by_job mode) (("keywordOptimization", keyword_optimization) ∷ []) props)
      (push_if (is_by_job mode) ("keywordOptimization" ∷ []) (keys props))

-- The amount of entries that a section may have.
abbrev pub with_amount : String → String → Schema → Schema
with_amount name amount = produce name (replace_max_items amount_placeholder amount)

unfoldable pub top_properties : Mode → Properties
unfolding is_by_job is_deep is_hard_mode build_overall_analysis build_quantitative_metrics
    build_improvement_plan replace_first
top_properties mode =
    let deep_mode = is_deep mode in
    assign_if (is_by_job mode)
      ((
        "experienceRelevanceAnalysis",
        with_amount "jobs" (if deep_mode then "5" else "3") experience_relevance_analysis,
      )
        ∷ [])
      (assign_if (is_hard_mode mode)
        ((
          "detailedSkillAnalysis",
          with_amount "skills" (if deep_mode then "7" else "4") detailed_skill_analysis,
        )
          ∷ ("suggestedInterviewQuestions", suggested_interview_questions)
          ∷ [])
        (assign_if deep_mode (("actionableImprovementPlan", build_improvement_plan mode) ∷ []) (
          assign_all
            (("analysisTimestamp", string (some "Current UTC timestamp"))
              ∷ ("overallAnalysis", build_overall_analysis mode)
              ∷ ("quantitativeMetrics", build_quantitative_metrics mode)
              ∷ ("redFlagsAndConcerns", red_flags_and_concerns)
              ∷ ("metadata", metadata)
              ∷ [])
            nothing)))

-- `getGenAiSchema`
unfoldable pub get_gen_ai_schema : Mode → Schema
unfolding top_properties
get_gen_ai_schema mode = let properties = top_properties mode in object properties (keys properties)
