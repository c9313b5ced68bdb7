-- ===== src/Gateway/Router.antt =====
-- `LightAgentGateway::handle`: which requests it answers, how, and what it counts.
use light_agent_gateway.Common.{
  ◌≡◌, ◌≢◌, refl, ◌⊎◌, ◌++◌, Bool, true, false, ◌&&◌, Option, none, some, if◌then◌else◌, arith,
}
use light_agent_gateway.Common.Bytes.{
  Bytes, codes, bytes_eq, bytes_eq_iff, is_prefix, is_prefix-append,
}
use light_agent_gateway.Gateway.{
  Method, get, post, head, unsupported, Request, Response, Counters, Environment, increment,
  starts_with, handle, route, not_found, method_not_allowed, health, metrics, chat,
}

abbrev pub is_some {ℓ} : {A : Type ℓ} → Option A → Bool
is_some none = false
is_some (some a) = true

abbrev pub is_chat_post : Request → Bool
is_chat_post r =
    bytes_eq r.path (codes "/api/chat")
    && elim r.method [ get ↦ false | post ↦ true | head ↦ false | unsupported ↦ false ]

routes_differ :
    (codes "/api/health" ≢ codes "/api/metrics")
    × (codes "/api/health" ≢ codes "/api/chat")
    × (codes "/api/metrics" ≢ codes "/api/chat")
unfolding codes
routes_differ = (λ e. cc, λ e. cc, λ e. cc)

-- A request is answered exactly when its path begins with "/api/"; it is then counted once as an API
-- request, and once as a chat request exactly when it is a POST of "/api/chat". Any other request
-- leaves both counters alone.
pub handle_counts :
    (env : Environment) (k : Counters) (r : Request)
    → let (k', reply) = handle env k r in
      (is_some reply ≡ starts_with r.path (codes "/api/"))
      × (k'.api_requests ≡ (
          if starts_with r.path (codes "/api/") then increment k.api_requests else k.api_requests))
      × (k'.chat_requests ≡ (
          if starts_with r.path (codes "/api/") && is_chat_post r
          then increment k.chat_requests
          else k.chat_requests))
unfolding handle chat
handle_counts env k r = ground (
  arith,
  routes_differ,
  bytes_eq_iff r.path (codes "/api/health"),
  bytes_eq_iff r.path (codes "/api/metrics"),
  bytes_eq_iff r.path (codes "/api/chat"),
)

abbrev pub IsRoute : Bytes → Type 0
IsRoute path =
    (path ≡ codes "/api/health") ⊎ (path ≡ codes "/api/metrics") ⊎ (path ≡ codes "/api/chat")

abbrev pub counted : Counters → Counters
counted k = record k { api_requests = increment k.api_requests }

-- Every path below "/api/" that is none of the three routes, with any method, is answered by the same
-- 404, and counted as an API request only.
handle-not_found :
    (env : Environment) (k : Counters) (method : Method) (rest body : Bytes)
    → ¬ IsRoute (codes "/api/" ++ rest)
    → handle env k (record { method = method; path = codes "/api/" ++ rest; body = body })
      ≡ (counted k, some not_found)
unfolding handle starts_with
handle-not_found env k method rest body h =
    let path : Bytes = codes "/api/" ++ rest in
    ground (
      arith,
      is_prefix-append (codes "/api/") rest,
      bytes_eq_iff path (codes "/api/health"),
      bytes_eq_iff path (codes "/api/metrics"),
      bytes_eq_iff path (codes "/api/chat"),
    )

-- The routes with the methods that each one serves, as the project's documentation lists them.
pub data Route : Type 0 where
  to_health to_metrics to_chat : Route

abbrev pub path_of : Route → Bytes
path_of to_health = codes "/api/health"
path_of to_metrics = codes "/api/metrics"
path_of to_chat = codes "/api/chat"

abbrev pub serves : Route → Method → Bool
serves to_health get = true
serves to_health head = true
serves to_metrics get = true
serves to_metrics head = true
serves to_chat post = true
serves _ _ = false

abbrev pub allow_of : Route → Bytes
allow_of to_chat = codes "POST"
allow_of _ = codes "GET, HEAD"

abbrev pub perform : Route → Environment → Counters → Request → Counters × Response
perform to_health env k r = (k, health env)
perform to_metrics env k r = (k, metrics env k)
perform to_chat env k r = chat k r

-- A request for one of the three routes is counted as an API request. A method that the route serves
-- gets its handler's reply, which sees the counters as they then are; any other method gets the 405
-- that names the methods served, and reaches no handler.
pub handle_routes :
    (env : Environment) (k : Counters) (method : Method) (body : Bytes) (route : Route)
    → let r : Request = record { method = method; path = path_of route; body = body } in
      handle env k r ≡ (
        if serves route method
        then ((perform route env (counted k) r).0, some (perform route env (counted k) r).1)
        else (counted k, some (method_not_allowed (allow_of route))))
unfolding handle starts_with is_prefix bytes_eq codes
handle_routes env k get body to_health = refl
handle_routes env k get body _ = refl
handle_routes env k post body to_health = refl
handle_routes env k post body _ = refl
handle_routes env k head body to_health = refl
handle_routes env k head body _ = refl
handle_routes env k unsupported body to_health = refl
handle_routes env k unsupported body _ = refl

-- GET and HEAD of one path get the same reply and count the same.
pub handle_get_head :
    (env : Environment) (k : Counters) (path body : Bytes)
    → handle env k (record { method = get; path = path; body = body })
      ≡ handle env k (record { method = head; path = path; body = body })
unfolding handle route
handle_get_head env k path body = ground arith
