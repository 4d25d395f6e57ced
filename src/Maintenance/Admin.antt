-- ===== src/Maintenance/Admin.antt =====
-- scripts/makeAdminExisting.ts and scripts/createAdminUser.ts: an account gets the role of an admin. The
-- service of accounts, the look-up in its database and the folding of letters are arguments.
use z1mak_cv_queue.Prelude.{
  Assoc, Bool, List, Option, String, [], false, if◌then◌else◌, insert, length, lookup, ltb, none,
  or_else, some, str_eq, suc, true, truthy, zero, ℕ, ◌&&◌, ◌+◌, ◌||◌, ◌∷◌, ◌≡◌, ◌⊎◌,
}
use z1mak_cv_queue.Gemini.Provider.{normalized}
use z1mak_cv_queue.Scripts.History.Commands.{value}

pub record Account : Type 0 where
  pub account_id : String
  pub account_email : Option String
  pub app_metadata : Option (Assoc String)

-- The service: the pages of accounts, counted from 1, and what an update or a new account gives; `none`
-- is an answer with an error.
pub record Accounts (S : Type 0) : Type 0 where
  pub list_users : S → ℕ → Option (List Account)
  pub update_user : S → String → Assoc String → Option S
  pub create_user : S → String → String → Assoc String → Option (Option Account × S)

-- What a run ends with.
pub data ScriptEnd : Type 0 where
  promoted created : String → ScriptEnd
  usage : ScriptEnd  -- the help, and exit code 0
  exits : String → ScriptEnd  -- exit code 1 and what was written

-- `args.includes`
abbrev pub includes : String → List String → Bool
includes x [] = false
includes x (y ∷ l) = str_eq x y || includes x l

abbrev pub has_flag : List String → List String → Bool
has_flag [] args = false
has_flag (n ∷ names) args = includes n args || has_flag names args

-- The argument after the first occurrence of a name, if there is one that is not empty.
abbrev pub value_after : String → List String → Option String
value_after name [] = none
value_after name (x ∷ []) = none
value_after name (x ∷ (y ∷ l)) =
    let rest = value_after name (y ∷ l) in
    if str_eq x name then (if truthy y then some y else none) else rest

unfoldable pub get_arg_value : List String → List String → Option String
get_arg_value [] args = none
get_arg_value (n ∷ names) args = elim (value_after n args) [
  | some value ↦ some value
  | none ↦ get_arg_value names args
]

-- `perPage` and `maxPages`
abbrev pub per_page : ℕ
per_page = 1000

abbrev pub max_pages : ℕ
max_pages = 50

module _ {S : Type 0} (A : Accounts S) (lower trim : String → String) where
  abbrev pub matches : String → Account → Bool
  matches normalized a = str_eq (lower (or_else a.account_email "")) normalized

  unfoldable pub find_match : String → List Account → Option Account
  find_match normalized [] = none
  find_match normalized (a ∷ l) =
      let rest = find_match normalized l in if matches normalized a then some a else rest

  -- The loop over the pages, from one of them on: an answer with an error ends it, and a match, and a
  -- page that is not full. `none` is the error.
  unfoldable pub search_pages : ℕ → ℕ → S → String → Option (Option Account)
  search_pages zero page s normalized = some none
  search_pages (suc f) page s normalized = elim (A.list_users s page) [
    | none ↦ none
    | some users ↦
        let rest = search_pages f (page + 1) s normalized in
        elim (find_match normalized users) [
          | some a ↦ some (some a)
          | none ↦ if ltb (length users) per_page then some none else rest
        ]
  ]

  -- `findUserByEmailViaApi`
  unfoldable pub find_user_by_email : S → String → Option (Option Account)
  find_user_by_email s email = search_pages max_pages 1 s (lower (trim email))

  -- `{ ...currentMetadata, role: 'admin' }`
  abbrev pub admin_metadata : Account → Assoc String
  admin_metadata a = insert "role" "admin" (or_else a.app_metadata [])

  -- `updateUserById`, with the account that was found.
  unfoldable pub promote : Account → S → ScriptEnd × S
  promote a s = elim (A.update_user s a.account_id (admin_metadata a)) [
    | none ↦ (exits "Failed to promote user", s)
    | some t ↦ (promoted a.account_id, t)
  ]

  -- The part of `main` after the look-up in the database, which gives an account, or none.
  unfoldable pub make_admin : Option Account → String → S → ScriptEnd × S
  make_admin (some a) email s = promote a s
  make_admin none email s = elim (find_user_by_email s email) [
    | none ↦ (exits "Failed to promote user", s)
    | some none ↦ (exits "User not found", s)
    | some (some a) ↦ promote a s
  ]

  -- The checks at the top of the module, then `main`.
  unfoldable pub make_admin_script :
      List String → Option String → Option String → Option Account → S → ScriptEnd × S
  make_admin_script args url service_key in_database s =
      let email = get_arg_value ("--email" ∷ "-e" ∷ []) args in
      if has_flag ("--help" ∷ "-h" ∷ []) args then (usage, s) else elim email [
        | none ↦ (exits "Missing --email", s)
        | some address ↦
            if truthy (or_else url "") && truthy (or_else service_key "")
            then make_admin in_database address s
            else (exits "Missing SUPABASE_URL or SUPABASE_SERVICE_ROLE_KEY env vars", s)
      ]

  -- The script createAdminUser.ts.
  unfoldable pub create_admin : String → String → S → ScriptEnd × S
  create_admin email password s = elim (A.create_user s email password (("role", "admin") ∷ [])) [
    | none ↦ (exits "Failed to create admin user", s)
    | some (none, t) ↦ (exits "Admin user creation returned no user", t)
    | some (some a, t) ↦
        if truthy a.account_id
        then (created a.account_id, t)
        else (exits "Admin user creation returned no user", t)
  ]

  -- What a run that looks for `email` leaves: the account that it has found has the role and all else
  -- that its metadata said, or nothing has changed.
  abbrev pub PromotionEnd : Option Account → String → S → String → Type 0
  PromotionEnd in_database email s name =
      ((a : Account) × (t : S) × ((in_database ≡ some a)
          ⊎ ((in_database ≡ none) × (matches (lower (trim email)) a ≡ true)))
        × (make_admin in_database email s ≡ (promoted a.account_id, t))
        × (A.update_user s a.account_id (admin_metadata a) ≡ some t)
        × (lookup "role" (admin_metadata a) ≡ some "admin")
        × (lookup name (admin_metadata a) ≡ lookup name (or_else a.app_metadata [])))
      ⊎ ((cause : String) × (make_admin in_database email s ≡ (exits cause, s)))
