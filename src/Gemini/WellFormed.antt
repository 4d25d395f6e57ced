-- ===== src/Gemini/WellFormed.antt =====
-- What every schema of the service has in common, and what depends on the mode.
use z1mak_cv_queue.Prelude.{
  Bool, List, Option, String, [], false, if◌then◌else◌, none, not, refl, some, str_eq, true, ◌&&◌,
  ◌++◌, ◌||◌, ◌∷◌, ◌≡◌,
}
use z1mak_cv_queue.Prelude.Int.{ltb_ℤ, pos}
use z1mak_cv_queue.Gemini.Schema.{
  Properties, Schema, array, boolean, enumerated, keys, nothing, number, object, property, string,
}
use z1mak_cv_queue.Gemini.Service.{get_gen_ai_schema}
use z1mak_cv_queue.Js.{number_of, to_int}
use z1mak_cv_queue.Modes.{
  Depth, Domain, EvaluationMode, Mode, by_job, common, deep, general, is_by_job, is_common_domain,
  is_deep, is_hard_mode, it, standard,
}

abbrev pub has : String → List String → Bool
has x [] = false
has x (y ∷ l) = str_eq x y || has x l

abbrev all_in : List String → List String → Bool
all_in [] l = true
all_in (x ∷ xs) l = has x l && all_in xs l

abbrev distinct : List String → Bool
distinct [] = true
distinct (x ∷ l) = not (has x l) && distinct l

-- An array has no bound, or one that reads as a number of at least 1.
abbrev bounded : Option String → Bool
bounded none = true
bounded (some m) = ltb_ℤ (pos 0) (to_int (number_of m))

-- At every depth: what an object requires are properties of it, each required once and declared once.
abbrev mutual
  pub is_well_formed : Schema → Bool
  is_well_formed (string d) = true
  is_well_formed (number d) = true
  is_well_formed (boolean d) = true
  is_well_formed (enumerated values d) = distinct values
  is_well_formed (array m d items) = bounded m && is_well_formed items
  is_well_formed (object properties required) =
      distinct (keys properties)
      && (distinct required && (all_in required (keys properties) && are_well_formed properties))

  pub are_well_formed : Properties → Bool
  are_well_formed nothing = true
  are_well_formed (property k v rest) = is_well_formed v && are_well_formed rest

abbrev missing_from : List String → List String → List String
missing_from required [] = []
missing_from required (x ∷ l) =
    if has x required then missing_from required l else x ∷ missing_from required l

-- The properties that an answer may leave out, at any depth.
abbrev mutual
  pub optional_keys : Schema → List String
  optional_keys (string d) = []
  optional_keys (number d) = []
  optional_keys (boolean d) = []
  optional_keys (enumerated values d) = []
  optional_keys (array m d items) = optional_keys items
  optional_keys (object properties required) =
      missing_from required (keys properties) ++ optional_below properties

  pub optional_below : Properties → List String
  optional_below nothing = []
  optional_below (property k v rest) = optional_keys v ++ optional_below rest

abbrev pub required_keys : Schema → List String
required_keys (object properties required) = required
required_keys s = []

abbrev property_of : String → Properties → Option Schema
property_of k nothing = none
property_of k (property j v rest) = if str_eq j k then some v else property_of k rest

abbrev max_items_of : Option Schema → Option String
max_items_of (some (array m d items)) = m
max_items_of _ = none

-- The bound on the entries of an array two levels down.
abbrev pub amount_at : String → String → Schema → Option String
amount_at section name (object properties required) = elim (property_of section properties) [
  | some (object inner r) ↦ max_items_of (property_of name inner)
  | _ ↦ none
]
amount_at section name s = none

-- What the schema of a mode is to have.
abbrev pub FitsMode : Mode → Schema → Type 0
FitsMode mode schema =
    (is_well_formed schema ≡ true)
    × (has "experienceRelevanceAnalysis" (required_keys schema) ≡ is_by_job mode)
    × (has "detailedSkillAnalysis" (required_keys schema) ≡ is_hard_mode mode)
    × (has "suggestedInterviewQuestions" (required_keys schema) ≡ is_hard_mode mode)
    × (has "actionableImprovementPlan" (required_keys schema) ≡ is_deep mode)
    × (amount_at "experienceRelevanceAnalysis" "jobs" schema
        ≡ (if is_by_job mode then some (if is_deep mode then "5" else "3") else none))
    × (amount_at "detailedSkillAnalysis" "skills" schema
        ≡ (if is_hard_mode mode then some "7" else none))
    × (optional_keys schema
        ≡ (if is_common_domain mode then "independentCvScore" else "independentTechCvScore")
          ∷ (if is_by_job mode
              then "matchScore" ∷ "relevantYearsInCV" ∷ "keySkillCoveragePercent" ∷ []
              else []))

fits_constructors :
    (e : EvaluationMode) (d : Domain) (p : Depth)
    → let mode : Mode = record { evaluation_mode = e; domain = d; depth = p } in
      FitsMode mode (get_gen_ai_schema mode)
unfolding get_gen_ai_schema number_of
fits_constructors general it standard = (refl, refl, refl, refl, refl, refl, refl, refl)
fits_constructors general it deep = (refl, refl, refl, refl, refl, refl, refl, refl)
fits_constructors general common standard = (refl, refl, refl, refl, refl, refl, refl, refl)
fits_constructors general common deep = (refl, refl, refl, refl, refl, refl, refl, refl)
fits_constructors by_job it standard = (refl, refl, refl, refl, refl, refl, refl, refl)
fits_constructors by_job it deep = (refl, refl, refl, refl, refl, refl, refl, refl)
fits_constructors by_job common standard = (refl, refl, refl, refl, refl, refl, refl, refl)
fits_constructors by_job common deep = (refl, refl, refl, refl, refl, refl, refl, refl)

-- The schema of every mode is well formed. Which of the four sections beside the common ones an
-- answer must have goes by the mode: the relevance of the experience with a vacancy, the skills and
-- the questions with a vacancy in depth, the plan in depth. The arrays of jobs and skills have at most
-- as many entries as the mode allows. Nothing may be left out but the score of the CV in its
-- domain and, with a vacancy, the match score, the relevant years and the skill coverage.
pub schema-FitsMode : (mode : Mode) → FitsMode mode (get_gen_ai_schema mode)
schema-FitsMode mode = fits_constructors mode.evaluation_mode mode.domain mode.depth
