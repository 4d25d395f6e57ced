-- ===== src/Limits/RoundTrip.antt =====
-- What is cached is read back: the texts of a hash lose nothing of the limits.
use z1mak_cv_queue.Prelude.{Bool, List, Option, String, false, none, refl, some, str_eq, true, ◌≡◌}
use z1mak_cv_queue.Prelude.Int.{ℤ}
use z1mak_cv_queue.Js.RoundTrip.{number-print, truthy-print}
use z1mak_cv_queue.Limits.{
  UserLimits, bool_text, get_cached_user_limits, limit_text, read_limit, role_of, role_text,
}
use z1mak_cv_queue.Modes.{Role, admin, user}
use z1mak_cv_queue.Redis.{Redis}

pub read_limit-text : (o : Option ℤ) → read_limit (limit_text o) ≡ o
unfolding read_limit limit_text
read_limit-text none = refl
read_limit-text (some n) = simp (truthy-print, number-print)

pub role_of-text : (r : Role) → role_of (role_text r) ≡ r
role_of-text user = refl
role_of-text admin = refl

pub bool-text : (b : Bool) → str_eq (bool_text b) "true" ≡ b
bool-text true = refl
bool-text false = refl

module _ (R : Redis) (id : String) (role : Role) (db : Option (List UserLimits)) (s : R.State) where
  abbrev first : UserLimits × R.State
  first = get_cached_user_limits R id role db s
