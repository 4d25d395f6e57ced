-- ===== src/Gemini/Schema.antt =====
-- What the program uses of the type `Schema` of @google/genai. A property of an object stands once
-- in the order in which it was assigned.
use Prim.Native.Char.{code}
use z1mak_cv_queue.Prelude.{
  List, Option, String, [], append_text, if◌then◌else◌, none, some, str_eq, ◌==◌, ◌∷◌,
}

-- `type`, with the fields that the program sets; a description is optional.
mutual
  pub data Schema : Type 0 where
    string number boolean : (description : Option String) → Schema
    enumerated : (values : List String) (description : Option String) → Schema
    array : (max_items : Option String) (description : Option String) (items : Schema) → Schema
    object : (properties : Properties) (required : List String) → Schema

  pub data Properties : Type 0 where
    nothing : Properties
    property : String → Schema → Properties → Properties

-- `Object.keys`
abbrev pub keys : Properties → List String
keys nothing = []
keys (property k v rest) = k ∷ keys rest

-- `props.k = v`
abbrev pub assign : String → Schema → Properties → Properties
assign k v nothing = property k v nothing
assign k v (property j w rest) =
    if str_eq j k then property k v rest else property j w (assign k v rest)

-- The text after a prefix.
unfoldable pub strip_prefix : String → String → Option String
strip_prefix String.[] t = some t
strip_prefix (String.◌∷◌ c p) String.[] = none
strip_prefix (String.◌∷◌ c p) (String.◌∷◌ d t) = if code c == code d then strip_prefix p t else none

-- `text.replace(pattern, value)`: the first occurrence.
unfoldable pub replace_first : String → String → String → String
unfolding strip_prefix
replace_first p v String.[] = elim (strip_prefix p String.[]) [
  | none ↦ String.[]
  | some rest ↦ append_text v rest
]
replace_first p v (String.◌∷◌ c t) = elim (strip_prefix p (String.◌∷◌ c t)) [
  | none ↦ String.◌∷◌ c (replace_first p v t)
  | some rest ↦ append_text v rest
]

-- `maxItems = maxItems.replace(pattern, value)`, on an array that has one.
abbrev pub replace_max_items : String → String → Schema → Schema
replace_max_items p v (array (some m) d items) = array (some (replace_first p v m)) d items
replace_max_items p v s = s

abbrev pub at_property : String → (Schema → Schema) → Properties → Properties
at_property k f nothing = nothing
at_property k f (property j v rest) =
    if str_eq j k then property j (f v) rest else property j v (at_property k f rest)

-- `produce(definition, draft => …)` with a change of one property: a changed copy.
abbrev pub produce : String → (Schema → Schema) → Schema → Schema
produce k f (object properties required) = object (at_property k f properties) required
produce k f s = s
