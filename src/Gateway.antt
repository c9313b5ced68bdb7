-- ===== src/Gateway.antt =====
-- LightAgentGateway.h and LightAgentGateway.cpp: the API routes. The process-wide counters
-- are passed from call to call; the environment variables, the working directory and the uptime that
-- a call sees are an argument.
pub mod Json
pub mod Router
pub mod Replies
mod Tests
use light_agent_gateway.Common.{
  ℕ, ◌+◌, ◌%◌, ◌^◌, Bool, true, false, ◌&&◌, not, Option, none, some, List, [], ◌∷◌, ◌++◌, ◌==◌,
  if◌then◌else◌,
}
use light_agent_gateway.Common.Bytes.{Bytes, codes, bytes_eq, is_prefix}
use light_agent_gateway.Common.Decimal.{to_string}

pub data Method : Type 0 where
  get post head unsupported : Method

pub record Request : Type 0 where
  pub method : Method
  pub path : Bytes
  pub body : Bytes

pub record Response : Type 0 where
  pub status_code : ℕ
  pub reason : Bytes
  pub content_type : Bytes
  pub body : Bytes

-- `gApiRequests` and `gChatRequests`.
pub record Counters : Type 0 where
  pub api_requests : ℕ
  pub chat_requests : ℕ

-- `std::getenv`, `std::filesystem::current_path()` and the seconds since `kStartedAt`.
pub record Environment : Type 0 where
  pub getenv : Bytes → Option Bytes
  pub current_path : Bytes
  pub uptime : ℕ

-- `++` on an `unsigned long long`.
abbrev pub increment : ℕ → ℕ
increment n = (n + 1) % 2 ^ 64

unfoldable pub starts_with : Bytes → Bytes → Bool
starts_with value prefix = is_prefix prefix value

pub escape_char : ℕ → Bytes
escape_char ch =
    if ch == b'\\'
    then b'\\' ∷ b'\\' ∷ []
    else if ch == b'"'
    then b'\\' ∷ b'"' ∷ []
    else if ch == b'\n'
    then b'\\' ∷ b'n' ∷ []
    else if ch == b'\r'
    then b'\\' ∷ b'r' ∷ []
    else if ch == b'\t'
    then b'\\' ∷ b't' ∷ []
    else ch ∷ []

pub json_escape : Bytes → Bytes
json_escape [] = []
json_escape (ch ∷ value) = escape_char ch ++ json_escape value

-- An empty variable counts as unset.
non_empty : Option Bytes → Option Bytes
non_empty none = none
non_empty (some []) = none
non_empty (some (c ∷ s)) = some (c ∷ s)

pub getenv_string : Environment → Bytes → Option Bytes
unfolding non_empty
getenv_string env name = non_empty (env.getenv name)

abbrev pub json_type : Bytes
json_type = codes "application/json; charset=utf-8"

abbrev pub json_response : ℕ → Bytes → Bytes → Response
json_response status_code reason body = record {
  status_code = status_code;
  reason = reason;
  content_type = json_type;
  body = body;
}

pub method_not_allowed : Bytes → Response
method_not_allowed allow =
    json_response 405 (codes "Method Not Allowed")
      (codes "{\"error\":\"method_not_allowed\",\"allow\":\"" ++ (allow ++ codes "\"}"))

abbrev value_or : Option Bytes → Bytes → Bytes
value_or none d = d
value_or (some v) d = v

abbrev has_value : Option Bytes → Bool
has_value none = false
has_value (some v) = true

abbrev pub health_head : Bytes
health_head =
    codes
      "{\"status\":\"ok\",\"service\":\"LightAgent Gateway\",\"stage\":\"phase-1\",\"provider\":\""

abbrev pub health_key : Bytes
health_key = codes "\",\"gemini_api_key_configured\":"

abbrev pub health_root : Bytes
health_root = codes ",\"fallback_provider\":\"ollama\",\"static_root\":\""

pub health : Environment → Response
unfolding getenv_string
health env = json_response 200 (codes "OK") (
    health_head
    ++ (json_escape (value_or (getenv_string env (codes "LIGHTAGENT_PROVIDER")) (codes "mock"))
        ++ (health_key
            ++ ((if has_value (getenv_string env (codes "GEMINI_API_KEY"))
                  then codes "true"
                  else codes "false")
                ++ (health_root ++ (json_escape env.current_path ++ codes "\"}"))))))

-- The map's entries in the order of their names.
pub metrics : Environment → Counters → Response
metrics env k = json_response 200 (codes "OK") (
    codes "{\"service\":\"LightAgent Gateway\",\"uptime_seconds\":"
    ++ (to_string env.uptime
        ++ (codes ",\"api_requests_total\":"
            ++ (to_string k.api_requests
                ++ (codes ",\"chat_requests_total\":"
                    ++ (to_string k.chat_requests ++ codes "}"))))))

abbrev pub chat_head : Bytes
chat_head =
    codes
      "{\"id\":\"mock-chat-1\",\"object\":\"chat.completion\",\"provider\":\"mock\",\"model\":\"mock-lightagent-phase1\","
    ++ (codes "\"answer\":\"This is a mock answer from LightAgent Gateway. "
        ++ codes "Gemini and Ollama integration is not enabled in phase 1.\",\"received_body\":\"")

pub chat : Counters → Request → Counters × Response
chat k request = (
  record k { chat_requests = increment k.chat_requests },
  json_response 200 (codes "OK") (chat_head ++ (json_escape request.body ++ codes "\"}")),
)

abbrev is_get_or_head : Method → Bool
is_get_or_head get = true
is_get_or_head head = true
is_get_or_head _ = false

abbrev is_post : Method → Bool
is_post post = true
is_post _ = false

abbrev pub not_found : Response
not_found = json_response 404 (codes "Not Found") (codes "{\"error\":\"api_route_not_found\"}")

abbrev answered : Counters × Response → Counters × Option Response
answered (k, r) = (k, some r)

-- The routes behind the test of the prefix, at which the API counter has gone up.
route : Environment → Counters → Request → Counters × Option Response
route env k request =
    if bytes_eq request.path (codes "/api/health")
    then (if not (is_get_or_head request.method)
        then (k, some (method_not_allowed (codes "GET, HEAD")))
        else (k, some (health env)))
    else if bytes_eq request.path (codes "/api/metrics")
    then (if not (is_get_or_head request.method)
        then (k, some (method_not_allowed (codes "GET, HEAD")))
        else (k, some (metrics env k)))
    else if bytes_eq request.path (codes "/api/chat")
    then (if not (is_post request.method)
        then (k, some (method_not_allowed (codes "POST")))
        else answered (chat k request))
    else (k, some not_found)

pub handle : Environment → Counters → Request → Counters × Option Response
unfolding route
handle env k request =
    if not (starts_with request.path (codes "/api/"))
    then (k, none)
    else route env (record k { api_requests = increment k.api_requests }) request
