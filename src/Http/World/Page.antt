-- ===== src/Http/World/Page.antt =====
-- `handleError` on a socket that takes what it is given.
use light_agent_gateway.Common.{
  ℕ, ◌≡◌, ◌≤◌, ◌<◌, ap, ◌∙◌, List, ◌∷◌, ◌++◌, length, arith, append_assoc,
}
use light_agent_gateway.Common.Bytes.{Bytes, codes}
use light_agent_gateway.Io.{WriteEvent, accepted, Socket, writen}
use light_agent_gateway.Io.Whole.{writen-whole}
use light_agent_gateway.Http.World.{World, handle_error, error_header, error_body}

-- The page that `handleError` sends.
abbrev pub error_page : ℕ → Bytes → Bytes
error_page err_num short_msg =
    error_header err_num (b' ' ∷ short_msg) ++ error_body err_num (b' ' ∷ short_msg)

-- A socket that takes the two parts of the page whole.
pub record TakesPage (ws : List WriteEvent) (err_num : ℕ) (short_msg : Bytes) : Type 0 where
  pub first : ℕ
  pub second : ℕ
  pub others : List WriteEvent
  pub takes : ws ≡ accepted first ∷ accepted second ∷ others
  pub header_fits : length (error_header err_num (b' ' ∷ short_msg)) ≤ first
  pub body_fits : length (error_body err_num (b' ' ∷ short_msg)) ≤ second

some_header : (err_num : ℕ) (msg : Bytes) → 0 < length (error_header err_num msg)
unfolding error_header codes
some_header err_num msg = omega arith

some_body : (err_num : ℕ) (msg : Bytes) → 0 < length (error_body err_num msg)
unfolding error_body codes
some_body err_num msg = omega arith

pub handle_error-page :
    (w : World) (err_num : ℕ) (short_msg : Bytes)
    → TakesPage w.socket.writes err_num short_msg
    → (handle_error w err_num short_msg).socket.sent ≡ w.socket.sent ++ error_page err_num short_msg
unfolding handle_error
handle_error-page w err_num short_msg t =
    let msg : Bytes = b' ' ∷ short_msg in
    let header = error_header err_num msg in
    let body = error_body err_num msg in
    let s = (writen w.socket header).1 in
    let e =
      writen-whole w.socket header t.first (accepted t.second ∷ t.others) t.takes
        (some_header err_num msg) t.header_fits in
    let f =
      writen-whole s body t.second t.others (ap (λ (k : Socket). k.writes) e)
        (some_body err_num msg) t.body_fits in
    ap (λ (k : Socket). k.sent) f
    ∙ ap (λ (k : Socket). k.sent ++ body) e
    ∙ append_assoc w.socket.sent header body
