-- ===== src/Cron/Reload.antt =====
-- cron/reloadModelLimits.ts: the rows of the table ai_models become the set of ids and the hashes.
use mathlib.Core.List.{append-nil, append_assoc}
use z1mak_cv_queue.Prelude.{
  Assoc, Bool, List, Option, String, [], arith, eq_iff, false, if◌then◌else◌, is_empty, lookup,
  lookup-insert, none, refl, some, str_eq, sym, true, ◌++◌, ◌||◌, ◌∙◌, ◌∷◌, ◌≡◌,
}
use z1mak_cv_queue.Prelude.Int.{ℤ}
use z1mak_cv_queue.Admission.Selection.{limit_field}
use z1mak_cv_queue.Admission.Submission.{mode_text}
use z1mak_cv_queue.Errors.{first_of}
use z1mak_cv_queue.Js.{finite, print}
use z1mak_cv_queue.Js.RoundTrip.{number-print}
use z1mak_cv_queue.Models.{priority_of, type_of}
use z1mak_cv_queue.Redis.{
  ModeType, Redis, add_members, del, fields, hard, has_member, hset, insert_all, lite, members,
  model_ids, model_limits, sadd,
}
use z1mak_cv_queue.Redis.Laws.{fields-exec, redis_laws}

pub record ModelRow : Type 0 where
  pub row_id : String
  pub row_api_name : String
  pub row_rpm : ℤ
  pub row_rpd : ℤ
  pub row_type : ModeType
  pub row_priority : ℤ
  pub row_updated_at : String

unfoldable pub row_hash : ModelRow → Assoc String
row_hash r =
    ("api_name", r.row_api_name)
    ∷ ("rpm", print r.row_rpm)
    ∷ ("rpd", print r.row_rpd)
    ∷ ("type", mode_text r.row_type)
    ∷ ("fallback_priority", print r.row_priority)
    ∷ ("updated_at", r.row_updated_at)
    ∷ []

abbrev pub row_ids : List ModelRow → List String
row_ids [] = []
row_ids (r ∷ rows) = r.row_id ∷ row_ids rows

-- The last row with an id.
unfoldable pub row_of : String → List ModelRow → Option ModelRow
row_of x [] = none
row_of x (r ∷ rows) = first_of (row_of x rows) (if str_eq r.row_id x then some r else none)

-- Ids that differ, as those of a primary key do.
abbrev pub NoRepeats : List String → Type 0
NoRepeats [] = Unit
NoRepeats (x ∷ l) = (has_member x l ≡ false) × NoRepeats l

abbrev Apart : List String → List String → Type 0
Apart [] l = Unit
Apart (x ∷ new) l = (has_member x l ≡ false) × Apart new l

nothing-Apart : (new : List String) → Apart new []
nothing-Apart [] = tt
nothing-Apart (x ∷ new) = (refl, nothing-Apart new)

has_member-end :
    (x y : String) (l : List String) → has_member x (l ++ y ∷ []) ≡ (has_member x l || str_eq x y)
has_member-end x y [] = ground arith
has_member-end x y (z ∷ l) = ground (arith, has_member-end x y l)

Apart-end :
    (new l : List String) (x : String)
    → has_member x new ≡ false
    → Apart new l
    → Apart new (l ++ x ∷ [])
Apart-end [] l x h a = tt
Apart-end (y ∷ new) l x h a = (
  ground (arith, has_member-end y x l, eq_iff x y, eq_iff y x),
  Apart-end new l x (ground arith) a.1,
)

add_members-new : (new l : List String) → NoRepeats new → Apart new l → add_members new l ≡ l ++ new
add_members-new [] l d a = sym (append-nil l)
add_members-new (x ∷ new) l d a =
    rw (a.0, add_members-new new (l ++ x ∷ []) d.1 (Apart-end new l x d.0 a.1))
      (append_assoc l (x ∷ []) new)

priority_of-print :
    (h : Assoc String) (n : ℤ)
    → lookup "fallback_priority" h ≡ some (print n)
    → priority_of h ≡ finite n
unfolding priority_of
priority_of-print h n e = ground (arith, e, number-print n)

limit_field-print :
    (k : String) (h : Assoc String) (n : ℤ) → lookup k h ≡ some (print n) → limit_field k h ≡ n
unfolding limit_field
limit_field-print k h n e = ground (arith, e, number-print n)

type_of-text :
    (h : Assoc String) (m : ModeType) → lookup "type" h ≡ some (mode_text m) → type_of h ≡ m
unfolding type_of
type_of-text h hard e = ground (arith, e)
type_of-text h lite e = ground (arith, e)

module _ (R : Redis) where
  open R use {State, exec}

  unfoldable pub write_rows : List ModelRow → State → State
  write_rows [] s = s
  write_rows (r ∷ rows) s = write_rows rows (exec (model_limits r.row_id, hset (row_hash r)) s)

  unfoldable pub reload_model_limits : List ModelRow → State → State
  reload_model_limits rows s =
      let s1 = exec (model_ids, del) s in
      write_rows rows (if is_empty rows then s1 else exec (model_ids, sadd (row_ids rows)) s1)

  abbrev hash : String → State → Assoc String
  hash x s = fields R s (model_limits x)

  members-rows :
      (rows : List ModelRow) (s : State)
      → members R (write_rows rows s) model_ids ≡ members R s model_ids
  unfolding write_rows
  members-rows [] s = refl
  members-rows (r ∷ rows) s =
      members-rows rows (exec (model_limits r.row_id, hset (row_hash r)) s) ∙ simp redis_laws

  -- The fields of a row, as the hash holds them.
  abbrev Holds : Option ModelRow → Assoc String → Assoc String → Type 0
  Holds none old h = h ≡ old
  Holds (some r) old h =
      (lookup "api_name" h ≡ some r.row_api_name)
      × (lookup "rpm" h ≡ some (print r.row_rpm))
      × (lookup "rpd" h ≡ some (print r.row_rpd))
      × (lookup "type" h ≡ some (mode_text r.row_type))
      × (lookup "fallback_priority" h ≡ some (print r.row_priority))

  members-reload :
      (rows : List ModelRow) (s : State)
      → NoRepeats (row_ids rows)
      → members R (reload_model_limits rows s) model_ids ≡ row_ids rows
  unfolding reload_model_limits
  members-reload [] s d = members-rows [] (exec (model_ids, del) s) ∙ simp redis_laws
  members-reload (r ∷ rows) s d =
      let ids = row_ids (r ∷ rows) in
      let s2 = exec (model_ids, sadd ids) (exec (model_ids, del) s) in
      let added : members R s2 model_ids ≡ add_members ids [] = simp redis_laws in
      members-rows (r ∷ rows) s2 ∙ (added ∙ add_members-new ids [] d (nothing-Apart ids))

  row_hash-Holds :
      (r : ModelRow) (old m : Assoc String) → Holds (some r) old (insert_all (row_hash r) m)
  unfolding insert_all row_hash
  row_hash-Holds r old m = (
    simp lookup-insert,
    simp lookup-insert,
    simp lookup-insert,
    simp lookup-insert,
    simp lookup-insert,
  )

  first_of-Holds :
      (o : Option ModelRow) (b : Bool) (r : ModelRow) (old mid h : Assoc String)
      → Holds o mid h
      → mid ≡ (if b then insert_all (row_hash r) old else old)
      → Holds (first_of o (if b then some r else none)) old h
  first_of-Holds (some q) b r old mid h k e = k
  first_of-Holds none true r old mid h k e = rw (k, e) (row_hash-Holds r old old)
  first_of-Holds none false r old mid h k e = k ∙ e

  write_rows-Holds :
      (x : String) (rows : List ModelRow) (s : State)
      → Holds (row_of x rows) (hash x s) (hash x (write_rows rows s))
  unfolding write_rows row_of
  write_rows-Holds x [] s = refl
  write_rows-Holds x (r ∷ rows) s =
      let t = exec (model_limits r.row_id, hset (row_hash r)) s in
      first_of-Holds (row_of x rows) (str_eq r.row_id x) r (hash x s) (hash x t)
        (hash x (write_rows rows t)) (write_rows-Holds x rows t)
        (fields-exec R (model_limits r.row_id) (hset (row_hash r)) s (model_limits x))

  -- After a reload of rows whose ids differ, as those of the table do, the set of models is the list of
  -- these ids. The hash of a model of the table holds the minute limit, the day limit, the type, the
  -- priority and the API name of its row; the numbers and the type are read back as those of the row.
  pub reload_serves_table :
      (rows : List ModelRow) (s : State) (x : String) {r : ModelRow}
      → NoRepeats (row_ids rows)
      → row_of x rows ≡ some r
      → let t = reload_model_limits rows s in
        (members R t model_ids ≡ row_ids rows)
        × (limit_field "rpm" (fields R t (model_limits x)) ≡ r.row_rpm)
        × (limit_field "rpd" (fields R t (model_limits x)) ≡ r.row_rpd)
        × (type_of (fields R t (model_limits x)) ≡ r.row_type)
        × (priority_of (fields R t (model_limits x)) ≡ finite r.row_priority)
        × (lookup "api_name" (fields R t (model_limits x)) ≡ some r.row_api_name)
  unfolding reload_model_limits
  reload_serves_table rows s x {r} d e =
      let s1 = exec (model_ids, del) s in
      let s2 = if is_empty rows then s1 else exec (model_ids, sadd (row_ids rows)) s1 in
      let (api, rpm, rpd, type, priority) = rw e at (write_rows-Holds x rows s2) in
      let h = hash x (write_rows rows s2) in
      (
        members-reload rows s d,
        limit_field-print "rpm" h r.row_rpm rpm,
        limit_field-print "rpd" h r.row_rpd rpd,
        type_of-text h r.row_type type,
        priority_of-print h r.row_priority priority,
        api,
      )
