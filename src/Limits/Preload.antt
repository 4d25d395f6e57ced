-- ===== src/Limits/Preload.antt =====
-- services/userLimitsPreloader.ts: the limits of the users of the table are cached when the server
-- starts. The query is a parameter: its rows, each a user with limits, or `none` where it throws.
use z1mak_cv_queue.Prelude.{
  Assoc, Bool, List, Option, String, [], ap, arith, false, if◌then◌else◌, insert, is_empty, lookup,
  lookup-insert, none, refl, some, str_eq, true, ℕ, ◌*◌, ◌∙◌, ◌∷◌, ◌≡◌,
}
use z1mak_cv_queue.Errors.{first_of}
use z1mak_cv_queue.Limits.{
  UserLimits, bool_text, get_cached_user_limits, limit_text, limits_hash, read_hash, role_text,
}
use z1mak_cv_queue.Limits.RoundTrip.{bool-text, read_limit-text, role_of-text}
use z1mak_cv_queue.Modes.{Role}
use z1mak_cv_queue.Redis.{Redis, expire, fields, hset, insert_all, user_limits}
use z1mak_cv_queue.Redis.Laws.{fields-exec}

abbrev pub user_limits_ttl : ℕ
user_limits_ttl = 60 * 60 * 24 * 2

-- The last row of a user.
abbrev pub limits_of : String → List (String × UserLimits) → Option UserLimits
limits_of id [] = none
limits_of id ((owner, l) ∷ rows) =
    first_of (limits_of id rows) (if str_eq owner id then some l else none)

module _ (R : Redis) where
  open R use {State, exec}

  -- The commands of the pipeline.
  unfoldable pub cache_rows : List (String × UserLimits) → State → State
  unfolding limits_hash
  cache_rows [] s = s
  cache_rows ((id, l) ∷ rows) s = cache_rows rows (
      exec (user_limits id, expire user_limits_ttl) (exec (user_limits id, hset (limits_hash l)) s))

  unfoldable pub sync_user_limits_from_db : Option (List (String × UserLimits)) → State → State
  unfolding cache_rows
  sync_user_limits_from_db none s = s
  sync_user_limits_from_db (some rows) s = cache_rows rows s

-- Whatever the hash was before, it reads as the limits that were written.
abbrev Reads : UserLimits → Assoc String → Type 0
Reads l h = (is_empty h ≡ false) × ((role : Role) → read_hash role h ≡ l)

insert-is_empty : (k v : String) (h : Assoc String) → is_empty (insert k v h) ≡ false
unfolding insert
insert-is_empty k v [] = refl
insert-is_empty k v ((j, w) ∷ h) = ground arith

write-Reads : (l : UserLimits) (h : Assoc String) → Reads l (insert_all (limits_hash l) h)
unfolding limits_hash insert_all
write-Reads l h =
    let h1 = insert "hard_rpd" (limit_text l.hard_rpd) (insert "role" (role_text l.role) h) in
    let h2 = insert "lite_rpd" (limit_text l.lite_rpd) h1 in
    let h3 = insert "max_concurrency" (limit_text l.max_concurrency) h2 in
    let written = insert "unlimited" (bool_text l.unlimited) h3 in
    let role_is : lookup "role" written ≡ some (role_text l.role) = simp lookup-insert in
    let hard_is : lookup "hard_rpd" written ≡ some (limit_text l.hard_rpd) = simp lookup-insert in
    let lite_is : lookup "lite_rpd" written ≡ some (limit_text l.lite_rpd) = simp lookup-insert in
    let most_is : lookup "max_concurrency" written ≡ some (limit_text l.max_concurrency) =
      simp lookup-insert in
    let free_is : lookup "unlimited" written ≡ some (bool_text l.unlimited) = simp lookup-insert in
    (
      insert-is_empty "unlimited" (bool_text l.unlimited) h3,
      λ role.
          unfold read_hash in
          rw (role_is, hard_is, lite_is, most_is, free_is)
            (ground (
              arith,
              read_limit-text l.hard_rpd,
              read_limit-text l.lite_rpd,
              read_limit-text l.max_concurrency,
              role_of-text l.role,
              bool-text l.unlimited,
            )),
    )

-- The hash of a user after the rows, by the last row of the user.
abbrev After : Option UserLimits → Assoc String → Assoc String → Type 0
After (some l) old new = Reads l new
After none old new = new ≡ old

module _ (R : Redis) (id : String) where
  open R use {State, exec}

  abbrev hash_of : State → Assoc String
  hash_of s = fields R s (user_limits id)

  first_of-After :
      (o : Option UserLimits) (b : Bool) (l : UserLimits) (old mid new : Assoc String)
      → After o mid new
      → mid ≡ (if b then insert_all (limits_hash l) old else old)
      → After (first_of o (if b then some l else none)) old new
  first_of-After (some q) b l old mid new k e = k
  first_of-After none true l old mid new k e = rw (k, e) (write-Reads l old)
  first_of-After none false l old mid new k e = k ∙ e

  cache_rows-After :
      (rows : List (String × UserLimits)) (s : State)
      → After (limits_of id rows) (hash_of s) (hash_of (cache_rows R rows s))
  unfolding cache_rows
  cache_rows-After [] s = refl
  cache_rows-After ((owner, l) ∷ rows) s =
      let k = user_limits owner in
      let mid = exec (k, hset (limits_hash l)) s in
      let t = exec (k, expire user_limits_ttl) mid in
      first_of-After (limits_of id rows) (str_eq owner id) l (hash_of s) (hash_of t)
        (hash_of (cache_rows R rows t)) (cache_rows-After rows t)
        (ground (
          arith,
          fields-exec R k (expire user_limits_ttl) mid (user_limits id),
          fields-exec R k (hset (limits_hash l)) s (user_limits id),
        ))

  -- A user of the table is answered, once the rows are cached, from the cache: with the limits of the
  -- user's last row, whatever the hash held before, and whatever the role of the token and the database
  -- say by then; and nothing is written.
  pub preloaded_limits :
      (rows : List (String × UserLimits)) (s : State) (role : Role) (db : Option (List UserLimits))
      {l : UserLimits}
      → limits_of id rows ≡ some l
      → let t = sync_user_limits_from_db R (some rows) s in
        get_cached_user_limits R id role db t ≡ (l, t)
  unfolding sync_user_limits_from_db get_cached_user_limits
  preloaded_limits rows s role db {l} e =
      let t = cache_rows R rows s in
      let (full_hash, reads) = rw e at (cache_rows-After rows s) in
      rw full_hash (ap (λ m. (m, t)) (reads role))
