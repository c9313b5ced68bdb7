-- ===== src/Http/World/Fits.antt =====
-- `handleError` and its buffer of 4096 bytes.
use light_agent_gateway.Common.{ℕ, ◌+◌, ◌≤◌, ◌<◌, length, length-append, arith}
use light_agent_gateway.Common.Bytes.{Bytes, codes}
use light_agent_gateway.Common.Decimal.{length-to_string}
use light_agent_gateway.Http.World.{error_body, error_header}

length-error_body :
    (err_num : ℕ) (msg : Bytes)
    → err_num < 1000
    → length (error_body err_num msg) ≤ length msg + 200
unfolding error_body codes
length-error_body err_num msg h = omega (arith, length-append {0}, length-to_string 2 err_num h)

-- Where the status has three digits at most and the message is shorter than 3800 bytes, the header and the page
-- of `handleError` fit its buffer with the zero that `sprintf` writes behind them.
pub error_fits :
    (err_num : ℕ) (msg : Bytes)
    → err_num < 1000
    → length msg < 3800
    → (length (error_header err_num msg) < 4096) × (length (error_body err_num msg) < 4096)
unfolding error_header codes
error_fits err_num msg h l =
    let body = length-error_body err_num msg h in
    (
      omega (
        arith,
        length-append {0},
        length-to_string 2 err_num h,
        length-to_string 3 (length (error_body err_num msg)) (omega (arith, body, l)),
        l,
      ),
      omega (arith, body, l),
    )
