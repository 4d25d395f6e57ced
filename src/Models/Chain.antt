-- ===== src/Models/Chain.antt =====
-- Which models a chain holds.
use z1mak_cv_queue.Prelude.{
  Bool, List, Option, String, [], arith, eq_iff, eq_refl, false, is_empty, map, none, not, refl,
  some, str_eq, true, ◌&&◌, ◌++◌, ◌||◌, ◌∙◌, ◌∷◌, ◌≡◌,
}
use z1mak_cv_queue.Models.{
  ModelChain, ModelMeta, drop_model, id_of, insert_meta, last, load_metas, load_pool, of_type,
  resolve_model_chain, select_requested_and_fallback, sort_by_fallback_priority, type_of,
}
use z1mak_cv_queue.Modes.{Mode, is_hard_mode}
use z1mak_cv_queue.Redis.{
  ModeType, Redis, fields, hard, lite, members, mode_eq, model_ids, model_limits,
}

abbrev pub contains : String → List String → Bool
contains x [] = false
contains x (y ∷ l) = str_eq x y || contains x l

contains-append :
    (x : String) (l r : List String) → contains x (l ++ r) ≡ contains x l || contains x r
contains-append x [] r = refl
contains-append x (y ∷ l) r = ground (arith, contains-append x l r)

contains-insert :
    (x : String) (m : ModelMeta) (l : List ModelMeta)
    → contains x (map id_of (insert_meta m l)) ≡ str_eq x m.id || contains x (map id_of l)
unfolding insert_meta
contains-insert x m [] = refl
contains-insert x m (n ∷ l) = ground (arith, contains-insert x m l)

contains-sort :
    (x : String) (l : List ModelMeta)
    → contains x (map id_of (sort_by_fallback_priority l)) ≡ contains x (map id_of l)
unfolding sort_by_fallback_priority
contains-sort x [] = refl
contains-sort x (m ∷ l) =
    ground (arith, contains-insert x m (sort_by_fallback_priority l), contains-sort x l)

-- The requested model, and what is left of its pool.
contains-drop :
    (x r : String) (l : List String)
    → contains x (drop_model r l) ≡ contains x l && not (str_eq x r)
unfolding drop_model
contains-drop x r [] = refl
contains-drop x r (m ∷ l) = ground (arith, contains-drop x r l, eq_iff m r, eq_iff x m, eq_iff x r)

contains-last : (m : String) (l : List String) → contains (last m l) (m ∷ l) ≡ true
unfolding last
contains-last m [] = rw eq_refl
contains-last m (n ∷ l) = ground (arith, contains-last n l)

contains-split :
    (x m : String) (l : List String)
    → contains x (last m l ∷ drop_model (last m l) (m ∷ l)) ≡ contains x (m ∷ l)
contains-split x m l =
    ground (arith, contains-drop x (last m l) (m ∷ l), contains-last m l, eq_iff x (last m l))

-- A chain holds exactly the models of the two pools, whichever of them is empty, and there is no
-- chain only where both are.
abbrev pub chain_list : Option ModelChain → List String
chain_list none = []
chain_list (some c) = c.requested_model ∷ c.fallback_models

contains-select :
    (x : String) (preferred secondary : List String)
    → contains x (chain_list (select_requested_and_fallback preferred secondary))
      ≡ contains x preferred || contains x secondary
unfolding select_requested_and_fallback
contains-select x [] [] = refl
contains-select x [] (m ∷ l) = contains-split x m l
contains-select x (m ∷ l) secondary =
    ground
      (arith, contains-split x m l, contains-append x (drop_model (last m l) (m ∷ l)) secondary)

module _ (R : Redis) (s : R.State) where
  -- A model of the set with a hash of the given type.
  abbrev pub configured : ModeType → String → Bool
  configured t x =
      let hash = fields R s (model_limits x) in not (is_empty hash) && mode_eq (type_of hash) t

  contains-metas :
      (x : String) (t : ModeType) (ids : List String)
      → contains x (map id_of (of_type t (load_metas R ids s))) ≡ contains x ids && configured t x
  unfolding load_metas of_type
  contains-metas x t [] = refl
  contains-metas x t (id ∷ ids) = ground (arith, contains-metas x t ids, eq_iff x id)

  contains-pool :
      (x : String) (t : ModeType)
      → contains x (load_pool R t s) ≡ contains x (members R s model_ids) && configured t x
  unfolding load_pool
  contains-pool x t = contains-sort x _ ∙ contains-metas x t (members R s model_ids)

  -- The chain of a submission in hard mode holds exactly the configured models, hard and lite, and
  -- that of one in another mode exactly the configured lite models.
  contains-resolve :
      (mode : Mode) (x : String)
      → contains x (chain_list (resolve_model_chain R mode s))
        ≡ contains x (members R s model_ids)
          && (configured lite x || (is_hard_mode mode && configured hard x))
  unfolding resolve_model_chain
  contains-resolve mode x = ground (
    arith,
    contains-pool x hard,
    contains-pool x lite,
    contains-select x (load_pool R hard s) (load_pool R lite s),
    contains-select x (load_pool R lite s) [],
  )
