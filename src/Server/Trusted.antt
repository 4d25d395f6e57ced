-- ===== src/Server/Trusted.antt =====
-- Who reaches a handler.
-- A request of a server that knows the internal key, and for the routes of /resume with a token.
use z1mak_cv_queue.Prelude.{
  All, Bool, Bool-cases, List, Option, Option-cases, String, [], arith, eq_iff, false,
  if◌then◌else◌, inl, inr, none, not, refl, some, str_eq, true, truthy, ℕ, ◌||◌, ◌∷◌, ◌≡◌, ◌≤◌, ◌⊎◌,
}
use z1mak_cv_queue.Server.{
  Fastify, Hook, Request, Route, answered, authenticate, cors_deny, first_reply, header, health,
  hooks, internal_auth, is_resume, serve, turned_down, validates,
}

pub record IsTrusted (f : Fastify) (key : Option String) (route : Route) (r : Request)
    : Type 0 where
  pub no_browser : truthy (header r.origin) ≡ false
  pub knows_key :
      (route ≡ health) ⊎ ((truthy (header key) ≡ true) × (header r.internal_api_key ≡ header key))
  pub has_token : is_resume route ≡ true → f.jwt_error r.authorization ≡ none
  pub is_well_formed : f.is_valid route r ≡ true

first_reply-none : (l : List Hook) → first_reply l ≡ none → All (λ h. h ≡ none) l
unfolding first_reply
first_reply-none [] e = tt
first_reply-none (some reply ∷ l) e = ground arith
first_reply-none (none ∷ l) e = (refl, first_reply-none l e)

-- A hook that ends a request answers an error.
abbrev Refuses : Hook → Type 0
Refuses none = Unit
Refuses (some (code, cause)) = 400 ≤ code

Refuses-same : (h k : Hook) → h ≡ k → Refuses h → Refuses k
Refuses-same h k e r = rw (← e) r

some-Refuses :
    (h : Hook) → ((code : ℕ) (cause : String) → h ≡ some (code, cause) → 400 ≤ code) → Refuses h
some-Refuses none f = tt
some-Refuses (some (code, cause)) f = f code cause refl

if-Refuses : (b : Bool) (h k : Hook) → Refuses h → Refuses k → Refuses (if b then h else k)
if-Refuses true h k p q = p
if-Refuses false h k p q = q

first_reply-Refuses : (l : List Hook) → All Refuses l → Refuses (first_reply l)
unfolding first_reply
first_reply-Refuses [] a = tt
first_reply-Refuses (some (code, cause) ∷ l) a = a.0
first_reply-Refuses (none ∷ l) a = first_reply-Refuses l a.1

module _ (f : Fastify) (key : Option String) (route : Route) (r : Request) where
  cors_deny-Refuses : Refuses (cors_deny r)
  unfolding cors_deny
  cors_deny-Refuses =
      if-Refuses (truthy (header r.origin)) (some (403, "CORS_FORBIDDEN")) none (omega arith) tt

  authenticate-Refuses : Refuses (authenticate f r)
  unfolding authenticate
  authenticate-Refuses =
      some-Refuses (f.jwt_error r.authorization) (f.jwt_error-code r.authorization)

  validates-Refuses : Refuses (validates f route r)
  unfolding validates
  validates-Refuses =
      if-Refuses (f.is_valid route r) none (some (400, "Bad Request")) tt (omega arith)

  internal_auth-Refuses : Refuses (internal_auth key r)
  unfolding internal_auth
  internal_auth-Refuses =
      let given = header r.internal_api_key in
      if-Refuses (str_eq r.url "/health") none _ tt (
        if-Refuses (not (truthy (header key))) (some (500, "SERVER_MISCONFIGURED")) _ (omega arith)
          (if-Refuses (not (truthy given) || not (str_eq given (header key)))
            (some (401, "UNAUTHORIZED_INTERNAL_REQUEST")) none (omega arith) tt))

  hooks-Refuses : All Refuses (hooks f key route r)
  unfolding hooks
  hooks-Refuses = (
    cors_deny-Refuses,
    (
      if-Refuses (is_resume route) (authenticate f r) none authenticate-Refuses tt,
      (validates-Refuses, (internal_auth-Refuses, tt)),
    ),
  )

  internal_auth-passes :
      f.route_of r ≡ some route
      → internal_auth key r ≡ none
      → (route ≡ health) ⊎ ((truthy (header key) ≡ true) × (header r.internal_api_key ≡ header key))
  unfolding internal_auth
  internal_auth-passes at e = elim (Bool-cases (str_eq r.url "/health")) [
    | inl same ↦ inl (f.health_url r route ((eq_iff r.url "/health").0 same) at)
    | inr other ↦ inr (ground (arith, eq_iff (header r.internal_api_key) (header key)))
  ]

  hooks-IsTrusted :
      f.route_of r ≡ some route → first_reply (hooks f key route r) ≡ none → IsTrusted f key route r
  unfolding hooks cors_deny authenticate validates
  hooks-IsTrusted at e =
      let (cors, (auth, (valid, (internal, end)))) = first_reply-none (hooks f key route r) e in
      record {
        no_browser = ground arith;
        knows_key = internal_auth-passes at internal;
        has_token = λ h. ground arith;
        is_well_formed = ground arith;
      }

  -- A request that meets a route either reaches its handler, and then it does not come from a browser, it
  -- has the internal key, unless the route is that of the health check, its token is verified where
  -- the route is one of /resume, and it fits the schema of the route; or it is answered an error, and the
  -- state is what it was.
  pub strangers_change_nothing :
      {A S : Type 0}
      → (handler : Route → Request → S → A × S) (s : S) → f.route_of r ≡ some route
      → (IsTrusted f key route r
          × (serve f key handler route r s
              ≡ (answered ((handler route r s).0), (handler route r s).1)))
        ⊎ ((code : ℕ) × (cause : String) × (400 ≤ code)
            × (serve f key handler route r s ≡ (turned_down code cause, s)))
  unfolding serve
  strangers_change_nothing handler s at = elim (Option-cases (first_reply (hooks f key route r))) [
    | inl e ↦ inl (hooks-IsTrusted at e, rw (serve, e) refl)
    | inr ((code, cause), e) ↦
        let high =
          Refuses-same _ (some (code, cause)) e
            (first_reply-Refuses (hooks f key route r) hooks-Refuses) in
        inr (code, cause, high, rw (serve, e) refl)
  ]
