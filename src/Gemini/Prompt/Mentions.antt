-- ===== src/Gemini/Prompt/Mentions.antt =====
-- The numbered list of instructions, and the sections that it speaks of.
use mathlib.Core.List.{append-nil, append_assoc}
use z1mak_cv_queue.Prelude.{
  Bool, List, Option, String, [], ap, append_text, false, if◌then◌else◌, none, refl, some, str_eq,
  sym, true, ℕ, ◌++◌, ◌+◌, ◌||◌, ◌∙◌, ◌∷◌, ◌≡◌,
}
use z1mak_cv_queue.Prelude.Int.{pos}
use z1mak_cv_queue.Gemini.Prompt.{
  OrderedList, add, add_all, get_immediate_instruction, get_language_name, instruction_lines,
  join_lines, new_list,
}
use z1mak_cv_queue.Gemini.Schema.{strip_prefix}
use z1mak_cv_queue.Gemini.Service.{get_gen_ai_schema}
use z1mak_cv_queue.Gemini.WellFormed.{has, required_keys}
use z1mak_cv_queue.Js.{print}
use z1mak_cv_queue.Modes.{
  Depth, Domain, EvaluationMode, Mode, by_job, common, deep, general, it, standard,
}

-- The lines with their numbers, from a first one.
abbrev pub numbered : ℕ → List String → List String
numbered n [] = []
numbered n (line ∷ lines) =
    append_text (print (pos n)) (append_text ". " line) ∷ numbered (n + 1) lines

add_all-items :
    (lines : List String) (b : OrderedList)
    → (add_all lines b).items ≡ b.items ++ numbered b.list_count lines
unfolding add_all
add_all-items [] b = sym (append-nil b.items)
add_all-items (line ∷ lines) b =
    let entry = append_text (print (pos b.list_count)) (append_text ". " line) in
    add_all-items lines (add line b)
    ∙ append_assoc b.items (entry ∷ []) (numbered (b.list_count + 1) lines)

is_some_text : Option String → Bool
is_some_text none = false
is_some_text (some t) = true

-- The text has the word somewhere in it.
unfoldable pub mentions : String → String → Bool
unfolding strip_prefix is_some_text
mentions word String.[] = is_some_text (strip_prefix word String.[])
mentions word (String.◌∷◌ c t) =
    is_some_text (strip_prefix word (String.◌∷◌ c t)) || mentions word t

instruction_in : Mode → String → String
unfolding instruction_lines add_all
instruction_in mode lang_name =
    join_lines (add_all (instruction_lines mode lang_name) new_list).items

-- The instruction speaks of a section exactly where the schema requires it.
abbrev AsRequired : String → Mode → String → Type 0
AsRequired section mode lang_name =
    mentions section (instruction_in mode lang_name)
    ≡ has section (required_keys (get_gen_ai_schema mode))

speaks-AsRequired :
    (e : EvaluationMode) (d : Domain) (p : Depth) (is_uk : Bool)
    → let mode : Mode = record { evaluation_mode = e; domain = d; depth = p } in
      let lang_name : String = if is_uk then "Ukrainian" else "English" in
      AsRequired "detailedSkillAnalysis" mode lang_name
      × AsRequired "suggestedInterviewQuestions" mode lang_name
unfolding mentions instruction_in get_gen_ai_schema
speaks-AsRequired by_job it deep true = (refl, refl)
speaks-AsRequired by_job it deep false = (refl, refl)
speaks-AsRequired by_job common deep true = (refl, refl)
speaks-AsRequired by_job common deep false = (refl, refl)
speaks-AsRequired by_job it standard true = (refl, refl)
speaks-AsRequired by_job it standard false = (refl, refl)
speaks-AsRequired by_job common standard true = (refl, refl)
speaks-AsRequired by_job common standard false = (refl, refl)
speaks-AsRequired general it deep true = (refl, refl)
speaks-AsRequired general it deep false = (refl, refl)
speaks-AsRequired general common deep true = (refl, refl)
speaks-AsRequired general common deep false = (refl, refl)
speaks-AsRequired general it standard true = (refl, refl)
speaks-AsRequired general it standard false = (refl, refl)
speaks-AsRequired general common standard true = (refl, refl)
speaks-AsRequired general common standard false = (refl, refl)

-- The instruction of a mode is the list of its lines, numbered from 1 and joined. It asks for the
-- analysis of skills and for interview questions exactly in the modes whose schema requires these.
pub instruction_fits_schema :
    (mode : Mode) (locale : String)
    → let required = required_keys (get_gen_ai_schema mode) in
      (get_immediate_instruction mode locale
        ≡ join_lines (numbered 1 (instruction_lines mode (get_language_name locale))))
      × (mentions "detailedSkillAnalysis" (get_immediate_instruction mode locale)
          ≡ has "detailedSkillAnalysis" required)
      × (mentions "suggestedInterviewQuestions" (get_immediate_instruction mode locale)
          ≡ has "suggestedInterviewQuestions" required)
unfolding get_immediate_instruction instruction_in
instruction_fits_schema mode locale =
    let lines = instruction_lines mode (get_language_name locale) in
    let (skills, questions) =
      speaks-AsRequired mode.evaluation_mode mode.domain mode.depth (str_eq locale "uk") in
    (ap join_lines (add_all-items lines new_list), skills, questions)
