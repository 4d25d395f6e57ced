-- ===== src/Models.antt =====
-- services/modelSelector.ts: the chain of models that a submission may use.
pub mod Order
pub mod Chain
use z1mak_cv_queue.Prelude.{
  Assoc, Bool, List, Option, String, [], false, if◌then◌else◌, is_empty, lookup, map, none, some,
  str_eq, true, ◌++◌, ◌∷◌,
}
use z1mak_cv_queue.Prelude.Int.{ltb_ℤ}
use z1mak_cv_queue.Js.{Number, finite, infinity, is_finite, number_of}
use z1mak_cv_queue.Modes.{Mode, is_hard_mode}
use z1mak_cv_queue.Redis.{
  ModeType, Redis, fields, hard, lite, members, mode_eq, model_ids, model_limits,
}

pub record ModelMeta : Type 0 where
  pub id : String
  pub type : ModeType
  pub fallback_priority : Number

pub record ModelChain : Type 0 where
  pub requested_model : String
  pub fallback_models : List String

-- `Number(hash.fallback_priority ?? Infinity)`, and infinity for what is not finite.
unfoldable pub priority_of : Assoc String → Number
priority_of hash = elim (lookup "fallback_priority" hash) [
  | none ↦ infinity
  | some t ↦ let n = number_of t in if is_finite n then n else infinity
]

-- `typeRaw === 'hard' ? 'hard' : 'lite'`; a missing type counts as 'lite'.
unfoldable pub type_of : Assoc String → ModeType
type_of hash = elim (lookup "type" hash) [
  | none ↦ lite
  | some t ↦ if str_eq t "hard" then hard else lite
]

-- The comparator, `a.fallbackPriority - b.fallbackPriority < 0`; where both are infinite the
-- difference is NaN, which a sort reads as equal.
unfoldable pub before : Number → Number → Bool
before (finite a) (finite b) = ltb_ℤ a b
before (finite a) _ = true
before _ _ = false

-- `Array.prototype.sort`, which is stable.
unfoldable pub insert_meta : ModelMeta → List ModelMeta → List ModelMeta
insert_meta m [] = m ∷ []
insert_meta m (n ∷ l) =
    let rest = insert_meta m l in
    if before n.fallback_priority m.fallback_priority then n ∷ rest else m ∷ n ∷ l

unfoldable pub sort_by_fallback_priority : List ModelMeta → List ModelMeta
unfolding insert_meta
sort_by_fallback_priority [] = []
sort_by_fallback_priority (m ∷ l) = insert_meta m (sort_by_fallback_priority l)

abbrev id_of : ModelMeta → String
id_of m = m.id

unfoldable pub of_type : ModeType → List ModelMeta → List ModelMeta
of_type t [] = []
of_type t (m ∷ l) = let rest = of_type t l in if mode_eq m.type t then m ∷ rest else rest

-- `filter((m) => m !== requestedModel)`
unfoldable pub drop_model : String → List String → List String
drop_model r [] = []
drop_model r (m ∷ l) = let rest = drop_model r l in if str_eq m r then rest else m ∷ rest

unfoldable pub last : String → List String → String
last m [] = m
last m (n ∷ l) = last n l

-- `selectRequestedAndFallback`; `none` where it throws, with no model in either pool.
unfoldable pub select_requested_and_fallback : List String → List String → Option ModelChain
unfolding last drop_model
select_requested_and_fallback [] [] = none
select_requested_and_fallback (m ∷ l) secondary = some (record {
  requested_model = last m l;
  fallback_models = drop_model (last m l) (m ∷ l) ++ secondary;
})
select_requested_and_fallback [] (m ∷ l) =
    some (record { requested_model = last m l; fallback_models = drop_model (last m l) (m ∷ l) })

module _ (R : Redis) where
  open R use {State}

  -- The loop over the results of the pipeline; models without a hash are passed over.
  unfoldable pub load_metas : List String → State → List ModelMeta
  load_metas [] s = []
  load_metas (id ∷ ids) s =
      let hash = fields R s (model_limits id) in
      let rest = load_metas ids s in
      if is_empty hash
      then rest
      else record { id = id; type = type_of hash; fallback_priority = priority_of hash } ∷ rest

  -- One of the two pools that `loadModelsByType` returns.
  unfoldable pub load_pool : ModeType → State → List String
  unfolding load_metas
  load_pool t s =
      map id_of (sort_by_fallback_priority (of_type t (load_metas (members R s model_ids) s)))

  unfoldable pub resolve_model_chain : Mode → State → Option ModelChain
  unfolding load_pool
  resolve_model_chain mode s =
      if is_hard_mode mode
      then select_requested_and_fallback (load_pool hard s) (load_pool lite s)
      else select_requested_and_fallback (load_pool lite s) []
