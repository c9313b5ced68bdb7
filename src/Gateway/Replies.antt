-- ===== src/Gateway/Replies.antt =====
-- The JSON bodies that the handlers build, seen by a reader of JSON strings.
use light_agent_gateway.Common.{◌≡◌, refl, some, ◌∷◌, All, length, drop, drop_left}
use light_agent_gateway.Common.Bytes.{codes}
use light_agent_gateway.Gateway.Json.{IsCovered, read_string, read_string-json_escape}
use light_agent_gateway.Gateway.{Request, Counters, chat, chat_head, increment}

closing_brace : codes "\"}" ≡ b'"' ∷ codes "}"
unfolding codes
closing_brace = refl

-- The reply to a chat request has status 200 and counts the request; a JSON reader placed behind the
-- opening quote of its last field finds there exactly the bytes of the request's body, whatever text
-- they hold, and behind them only the closing brace. The body has no control character but newline,
-- return and tab.
pub chat_received_body :
    (k : Counters) (r : Request)
    → All IsCovered r.body
    → ((chat k r).1.status_code ≡ 200)
      × ((chat k r).0 ≡ record k { chat_requests = increment k.chat_requests })
      × (read_string (drop (length chat_head) (chat k r).1.body) ≡ some (r.body, codes "}"))
unfolding chat
chat_received_body k r h = (
  refl,
  refl,
  rw (drop_left (length chat_head) chat_head _ refl, closing_brace)
      (read_string-json_escape r.body (codes "}") h),
)
