-- ===== src/Limits.antt =====
-- services/limitsCache.ts: the limits of a user, cached in Redis as a hash of texts. The query on
-- user_limits is a parameter: its rows, or `none` where it throws.
pub mod RoundTrip
pub mod Preload
use z1mak_cv_queue.Prelude.{
  Assoc, Bool, List, Option, String, [], false, if◌then◌else◌, is_empty, lookup, none, or_else,
  some, str_eq, true, truthy, ◌∷◌,
}
use z1mak_cv_queue.Prelude.Int.{pos, ℤ}
use z1mak_cv_queue.Js.{number_of, print, to_int}
use z1mak_cv_queue.Modes.{Role, admin, user}
use z1mak_cv_queue.Redis.{Redis, fields, hset, user_limits}

pub record UserLimits : Type 0 where
  pub hard_rpd : Option ℤ
  pub lite_rpd : Option ℤ
  pub max_concurrency : Option ℤ
  pub unlimited : Bool
  pub role : Role

abbrev pub default_user_limits : UserLimits
default_user_limits = record {
  hard_rpd = some (pos 1);
  lite_rpd = some (pos 4);
  max_concurrency = some (pos 2);
  unlimited = false;
  role = user;
}

abbrev pub default_admin_limits : UserLimits
default_admin_limits = record {
  hard_rpd = none;
  lite_rpd = none;
  max_concurrency = none;
  unlimited = true;
  role = admin;
}

abbrev role_text : Role → String
role_text user = "user"
role_text admin = "admin"

-- The cast `cached.role as UserLimits['role']`, at the two texts that are written.
abbrev role_of : String → Role
role_of t = if str_eq t "admin" then admin else user

-- `limit ?? ''`
pub limit_text : Option ℤ → String
limit_text none = ""
limit_text (some n) = print n

-- `cached.f ? Number(cached.f) : null`; a missing field and the empty text are both falsy.
pub read_limit : String → Option ℤ
read_limit t = if truthy t then some (to_int (number_of t)) else none

abbrev bool_text : Bool → String
bool_text true = "true"
bool_text false = "false"

limits_hash : UserLimits → Assoc String
limits_hash limits =
    ("role", role_text limits.role)
    ∷ ("hard_rpd", limit_text limits.hard_rpd)
    ∷ ("lite_rpd", limit_text limits.lite_rpd)
    ∷ ("max_concurrency", limit_text limits.max_concurrency)
    ∷ ("unlimited", bool_text limits.unlimited)
    ∷ []

abbrev field : String → Assoc String → String
field k h = or_else (lookup k h) ""

read_hash : Role → Assoc String → UserLimits
read_hash role h = record {
  role = elim (lookup "role" h) [ none ↦ role | some t ↦ role_of t ];
  hard_rpd = read_limit (field "hard_rpd" h);
  lite_rpd = read_limit (field "lite_rpd" h);
  max_concurrency = read_limit (field "max_concurrency" h);
  unlimited = str_eq (field "unlimited" h) "true";
}

abbrev default_limits : Role → UserLimits
default_limits admin = default_admin_limits
default_limits user = default_user_limits

-- The rows of the query, the first of them if it answers with any, the defaults of the role if not.
abbrev pub limits_from_db : Role → Option (List UserLimits) → UserLimits
limits_from_db role (some (row ∷ rows)) = row
limits_from_db role (some []) = default_limits role
limits_from_db role none = default_limits role

module _ (R : Redis) where
  open R use {State, exec}

  unfoldable pub persist_limits : String → UserLimits → State → State
  unfolding limits_hash
  persist_limits id limits s = exec (user_limits id, hset (limits_hash limits)) s

  unfoldable pub get_cached_user_limits :
      String → Role → Option (List UserLimits) → State → UserLimits × State
  unfolding persist_limits read_hash
  get_cached_user_limits id role db s =
      let limits = limits_from_db role db in
      if is_empty (fields R s (user_limits id))
      then (limits, persist_limits id limits s)
      else (read_hash role (fields R s (user_limits id)), s)
