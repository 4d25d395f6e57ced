-- ===== src/Server.antt =====
-- server/app.ts with plugins/corsDeny.ts, plugins/internalAuth.ts and plugins/auth.ts: what a request
-- passes before its handler runs. The handlers are an argument.
pub mod Trusted
pub mod Health
use z1mak_cv_queue.Prelude.{
  Bool, List, Option, String, [], false, if◌then◌else◌, none, not, or_else, some, str_eq, true,
  truthy, ℕ, ◌||◌, ◌∷◌, ◌≡◌, ◌≤◌,
}

-- The routes that are registered.
pub data Route : Type 0 where
  analyze stream result status recent : Route  -- under /resume
  worker_concurrency update_models_limits : Route  -- under /admin
  health : Route

-- What the hooks read of a request; a header that is not there is `none`.
pub record Request : Type 0 where
  pub method : String
  pub url : String
  pub origin : Option String
  pub internal_api_key : Option String  -- x-internal-api-key
  pub authorization : Option String

pub data Response (A : Type 0) : Type 0 where
  answered : A → Response A  -- what the handler answers
  turned_down : ℕ → String → Response A

-- Fastify with its JWT plugin and the schemas of the routes. Documented behaviour: a request for the
-- url /health meets the route that is registered for that url, or none; an error is answered with a
-- code of an error.
pub record Fastify : Type 0 where
  pub route_of : Request → Option Route
  -- The answer to the error of `request.jwtVerify()` on a header, or none where it verifies.
  pub jwt_error : Option String → Option (ℕ × String)
  pub jwt_error-code :
      (h : Option String) (code : ℕ) (cause : String)
      → jwt_error h ≡ some (code, cause)
      → 400 ≤ code
  pub is_valid : Route → Request → Bool
  pub health_url :
      (r : Request) (route : Route) → r.url ≡ "/health" → route_of r ≡ some route → route ≡ health

abbrev pub header : Option String → String
header h = or_else h ""

-- A hook that sends a reply ends the request.
abbrev pub Hook : Type 0
Hook = Option (ℕ × String)

unfoldable pub cors_deny : Request → Hook
cors_deny r = if truthy (header r.origin) then some (403, "CORS_FORBIDDEN") else none

unfoldable pub internal_auth : Option String → Request → Hook
internal_auth key r =
    if str_eq r.url "/health"
    then none
    else if not (truthy (header key))
    then some (500, "SERVER_MISCONFIGURED")
    else if not (truthy (header r.internal_api_key))
        || not (str_eq (header r.internal_api_key) (header key))
    then some (401, "UNAUTHORIZED_INTERNAL_REQUEST")
    else none

-- `fastify.authenticate`, whose error Fastify answers.
unfoldable pub authenticate : Fastify → Request → Hook
authenticate f r = f.jwt_error r.authorization

-- The hook of resumeRoutes holds for the routes of that plugin only.
unfoldable pub is_resume : Route → Bool
is_resume worker_concurrency = false
is_resume update_models_limits = false
is_resume health = false
is_resume _ = true

-- Fastify validates between its onRequest and its preHandler hooks.
unfoldable pub validates : Fastify → Route → Request → Hook
validates f route r = if f.is_valid route r then none else some (400, "Bad Request")

-- The hooks in the order in which Fastify runs them.
unfoldable pub hooks : Fastify → Option String → Route → Request → List Hook
hooks f key route r =
    cors_deny r
    ∷ (if is_resume route then authenticate f r else none)
    ∷ validates f route r
    ∷ internal_auth key r
    ∷ []

unfoldable pub first_reply : List Hook → Hook
first_reply [] = none
first_reply (some reply ∷ l) = some reply
first_reply (none ∷ l) = first_reply l

-- A request that meets a route. The second state is that of the program.
unfoldable pub serve :
    {A S : Type 0}
    → Fastify
    → Option String
    → (Route → Request → S → A × S)
    → Route
    → Request
    → S
    → Response A × S
serve f key handler route r s = elim (first_reply (hooks f key route r)) [
  | some (code, cause) ↦ (turned_down code cause, s)
  | none ↦ let (a, t) = handler route r s in (answered a, t)
]
