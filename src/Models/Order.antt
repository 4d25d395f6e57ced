-- ===== src/Models/Order.antt =====
-- The sort of the pools: it orders the models by priority and keeps all of them.
use mathlib.Core.List.{Perm}
use mathlib.Core.List.Perm
use z1mak_cv_queue.Prelude.{Bool-cases, List, [], arith, false, inl, inr, refl, true, ◌∷◌, ◌≡◌}
use z1mak_cv_queue.Js.{Number, finite, infinity, nan}
use z1mak_cv_queue.Models.{ModelMeta, before, insert_meta, sort_by_fallback_priority}

-- `b` does not come before `a`.
abbrev pub Leq : ModelMeta → ModelMeta → Type 0
Leq a b = before b.fallback_priority a.fallback_priority ≡ false

abbrev pub Heads : ModelMeta → List ModelMeta → Type 0
Heads m [] = Unit
Heads m (n ∷ l) = Leq m n

abbrev pub IsSorted : List ModelMeta → Type 0
IsSorted [] = Unit
IsSorted (m ∷ l) = Heads m l × IsSorted l

before-asym : (a b : Number) → before a b ≡ true → before b a ≡ false
unfolding before
before-asym (finite a) (finite b) h = ground arith
before-asym (finite a) infinity h = refl
before-asym (finite a) nan h = refl
before-asym infinity b h = cc
before-asym nan b h = cc

insert_meta-perm : (m : ModelMeta) (l : List ModelMeta) → Perm (insert_meta m l) (m ∷ l)
unfolding insert_meta
insert_meta-perm m [] = Perm.refl _
insert_meta-perm m (n ∷ l) = elim (Bool-cases (before n.fallback_priority m.fallback_priority)) [
  | inl e ↦ rw e (Perm.trans (Perm.cons n (insert_meta-perm m l)) (Perm.swap m n l))
  | inr e ↦ rw e (Perm.refl _)
]

insert_meta-Heads :
    (x m : ModelMeta) (l : List ModelMeta) → Leq x m → Heads x l → Heads x (insert_meta m l)
unfolding insert_meta
insert_meta-Heads x m [] h k = h
insert_meta-Heads x m (n ∷ l) h k = ground arith

insert_meta-IsSorted :
    (m : ModelMeta) (l : List ModelMeta) → IsSorted l → IsSorted (insert_meta m l)
unfolding insert_meta
insert_meta-IsSorted m [] s = (tt, tt)
insert_meta-IsSorted m (n ∷ l) s =
    elim (Bool-cases (before n.fallback_priority m.fallback_priority)) [
      | inl e ↦ rw e (
        insert_meta-Heads n m l (before-asym n.fallback_priority m.fallback_priority e) s.0,
        insert_meta-IsSorted m l s.1,
      )
      | inr e ↦ rw e (e, s)
    ]

-- Sorting a pool gives a permutation of it in which no priority stands before a smaller one.
sort-perm-IsSorted :
    (l : List ModelMeta)
    → Perm (sort_by_fallback_priority l) l × IsSorted (sort_by_fallback_priority l)
unfolding sort_by_fallback_priority
sort-perm-IsSorted [] = (Perm.refl _, tt)
sort-perm-IsSorted (m ∷ l) =
    let (p, s) = sort-perm-IsSorted l in
    (
      Perm.trans (insert_meta-perm m (sort_by_fallback_priority l)) (Perm.cons m p),
      insert_meta-IsSorted m (sort_by_fallback_priority l) s,
    )
