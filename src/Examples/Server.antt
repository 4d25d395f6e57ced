-- ===== src/Examples/Server.antt =====
-- A server with an internal key.
use z1mak_cv_queue.Prelude.{
  Bool, Option, String, arith, eq_iff, if◌then◌else◌, none, refl, some, str_eq, true, ℕ, ◌+◌, ◌≡◌,
  ◌≤◌, ◌⊎◌,
}
use z1mak_cv_queue.Server.{
  Fastify, Hook, Request, Route, answered, cors_deny, first_reply, health, hooks, internal_auth,
  is_resume, serve, turned_down, update_models_limits, validates,
}
use z1mak_cv_queue.Server.Trusted.{IsTrusted, strangers_change_nothing}

abbrev post_route : String → Option Route
post_route url =
    if str_eq url "/admin/update-models-limits" then some update_models_limits else none

abbrev routing : Request → Option Route
routing r =
    if str_eq r.url "/health"
    then (if str_eq r.method "GET" then some health else none)
    else post_route r.url

routing-health :
    (r : Request) (route : Route) → r.url ≡ "/health" → routing r ≡ some route → route ≡ health
routing-health r route e at = ground (arith, eq_iff r.url "/health")

abbrev unauthorized : Hook
unauthorized = some (401, "Unauthorized")

unauthorized-code : (code : ℕ) (cause : String) → unauthorized ≡ some (code, cause) → 400 ≤ code
unauthorized-code code cause e = ground arith

abbrev fastify : Fastify
fastify = record {
  route_of = routing;
  jwt_error = λ token. unauthorized;
  jwt_error-code = λ h. unauthorized-code;
  is_valid = λ route r. true;
  health_url = routing-health;
}

-- The handler counts its calls.
abbrev counting : Route → Request → ℕ → Bool × ℕ
counting route r n = (true, n + 1)

abbrev update : Option String → Request
update key = record {
  method = "POST";
  url = "/admin/update-models-limits";
  origin = none;
  internal_api_key = key;
  authorization = none;
}

update_with_key :
    serve fastify (some "secret") counting update_models_limits (update (some "secret")) 0
    ≡ (answered true, 1)
unfolding serve hooks cors_deny is_resume validates internal_auth first_reply
update_with_key = refl

update_without_key :
    serve fastify (some "secret") counting update_models_limits (update none) 0
    ≡ (turned_down 401 "UNAUTHORIZED_INTERNAL_REQUEST", 0)
unfolding serve hooks cors_deny is_resume validates internal_auth first_reply
update_without_key = refl

strangers_change_nothing_example :
    (IsTrusted fastify (some "secret") update_models_limits (update none)
      × (serve fastify (some "secret") counting update_models_limits (update none) 0
          ≡ (answered true, 1)))
    ⊎ ((code : ℕ) × (cause : String) × (400 ≤ code)
        × (serve fastify (some "secret") counting update_models_limits (update none) 0
            ≡ (turned_down code cause, 0)))
strangers_change_nothing_example =
    strangers_change_nothing fastify (some "secret") update_models_limits (update none) counting 0
      refl
