-- ===== src/Prelude/Text.antt =====
-- Equality of texts, and dictionaries keyed by texts as association lists.
use Prim.Native.String.{String}
use Prim.Native.String
use mathlib.Core.Path.{◌≡◌, refl}
use mathlib.Core.Bool.{Bool, true, false}
use mathlib.Core.Option.{Option, none, some}
use mathlib.Core.List.{List, [], ◌∷◌}
use native.Mathlib.Omega.{arith}
pub use text.Mathlib.Text.{◌==◌ as str_eq}
pub use text.Mathlib.TextEquality.{eq_iff}
pub use text.Mathlib.TextPositions.{eq_refl}
use z1mak_cv_queue.Prelude.Tests.{if◌then◌else◌}

-- `+` on texts.
abbrev pub append_text : String → String → String
append_text s t = String.◌++◌ s t

-- A text as a condition of JavaScript: the empty text is falsy.
abbrev pub truthy : String → Bool
truthy String.[] = false
truthy (String.◌∷◌ c s) = true

-- A hash of the server or an object with named fields: the first pair of a name counts.
abbrev pub Assoc {ℓ} : Type ℓ → Type ℓ
Assoc Value = List (String × Value)

module _ {ℓ} {Value : Type ℓ} where
  unfoldable pub lookup : String → Assoc Value → Option Value
  lookup name [] = none
  lookup name ((first, value) ∷ fields) =
      if str_eq first name then some value else lookup name fields

  unfoldable pub insert : String → Value → Assoc Value → Assoc Value
  insert name value [] = (name, value) ∷ []
  insert name value ((first, old) ∷ fields) =
      if str_eq first name then (name, value) ∷ fields else (first, old) ∷ insert name value fields

  unfoldable pub without : String → Assoc Value → Assoc Value
  without name [] = []
  without name ((first, value) ∷ fields) =
      let kept = without name fields in if str_eq first name then kept else (first, value) ∷ kept

  pub lookup-insert :
      (name other : String) (value : Value) (fields : Assoc Value)
      → lookup other (insert name value fields)
        ≡ (if str_eq name other then some value else lookup other fields)
  unfolding lookup insert
  lookup-insert name other value [] = refl
  lookup-insert name other value ((first, old) ∷ fields) = ground (
    arith,
    eq_iff name other,
    eq_iff first name,
    eq_iff first other,
    lookup-insert name other value fields,
  )

  pub lookup-without :
      (name other : String) (fields : Assoc Value)
      → lookup other (without name fields)
        ≡ (if str_eq name other then none else lookup other fields)
  unfolding lookup without
  lookup-without name other [] = ground arith
  lookup-without name other ((first, value) ∷ fields) = ground (
    arith,
    lookup-without name other fields,
    eq_iff first name,
    eq_iff first other,
    eq_iff name other,
  )
