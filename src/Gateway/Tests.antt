-- ===== src/Gateway/Tests.antt =====
-- Concrete requests for the theorems about the gateway.
use light_agent_gateway.Common.{
  ◌≡◌, ◌&&◌, none, some, [], ◌∷◌, ◌++◌, if◌then◌else◌, arith, length, drop,
}
use light_agent_gateway.Common.Bytes.{Bytes, codes}
use light_agent_gateway.Gateway.{
  post, Request, Counters, Environment, increment, starts_with, handle, json_escape, chat,
  chat_head,
}
use light_agent_gateway.Gateway.Json.{read_string, read_string-json_escape}
use light_agent_gateway.Gateway.Router.{handle_counts, is_some, is_chat_post}
use light_agent_gateway.Gateway.Replies.{chat_received_body}

abbrev bare : Environment
bare = record { getenv = λ name. none; current_path = codes "/srv"; uptime = 7 }

abbrev some_served : Counters
some_served = record { api_requests = 4; chat_requests = 1 }

abbrev quoted : Bytes
quoted = b'"' ∷ b'a' ∷ b'\\' ∷ b'\n' ∷ []

abbrev question : Request
question = record { method = post; path = codes "/api/chat"; body = quoted }

handle_counts_example :
    let (k', reply) = handle bare some_served question in
    (is_some reply ≡ starts_with question.path (codes "/api/"))
    × (k'.api_requests ≡ (
        if starts_with question.path (codes "/api/")
        then increment some_served.api_requests
        else some_served.api_requests))
    × (k'.chat_requests ≡ (
        if starts_with question.path (codes "/api/") && is_chat_post question
        then increment some_served.chat_requests
        else some_served.chat_requests))
handle_counts_example = handle_counts bare some_served question

read_string-json_escape_example :
    read_string (json_escape quoted ++ b'"' ∷ b'}' ∷ []) ≡ some (quoted, b'}' ∷ [])
read_string-json_escape_example = read_string-json_escape quoted (b'}' ∷ []) (ground arith)

chat_received_body_example :
    ((chat some_served question).1.status_code ≡ 200)
    × ((chat some_served question).0
        ≡ record some_served { chat_requests = increment some_served.chat_requests })
    × (read_string (drop (length chat_head) (chat some_served question).1.body)
        ≡ some (question.body, codes "}"))
chat_received_body_example = chat_received_body some_served question (ground arith)
