-- ===== src/Http.antt =====
-- HttpData.h: the state of one HTTP connection, in HttpData.cpp read, parsed and answered by the
-- children.
pub mod HeaderMap
pub mod RequestLine
pub mod Headers
pub mod Lookup
pub mod Mime
pub mod Favicon
pub mod World
pub mod Analysis
pub mod Serving
pub mod Connection
mod Tests
use light_agent_gateway.Common.{ℕ, Bool, Option, List}
use light_agent_gateway.Common.Bytes.{Bytes}

pub data ProcessState : Type 0 where
  parse_uri_state parse_headers_state recv_body_state analysis_state finish_state : ProcessState

pub data UriState : Type 0 where
  uri_again uri_error uri_success : UriState

pub data HeaderState : Type 0 where
  header_success header_again header_error : HeaderState

pub data AnalysisState : Type 0 where
  analysis_success analysis_error : AnalysisState

pub data ParseState : Type 0 where
  h_start h_key h_colon h_spaces_after_colon h_value h_cr h_lf h_end_cr h_end_lf : ParseState

pub data ConnectionState : Type 0 where
  h_connected h_disconnecting h_disconnected : ConnectionState

pub data HttpMethod : Type 0 where
  method_post method_get method_head : HttpMethod

pub data HttpVersion : Type 0 where
  http_10 http_11 : HttpVersion

-- `HttpData` with its descriptor as a number; `timer` is the number of the node that `timer_`
-- points to. The channel and the socket are kept beside it.
pub record HttpData : Type 0 where
  pub fd : ℕ
  pub in_buffer : Bytes
  pub out_buffer : Bytes
  pub error : Bool
  pub connection_state : ConnectionState
  pub method : HttpMethod
  pub http_version : HttpVersion
  pub file_name : Bytes
  pub path : Bytes
  pub now_read_pos : ℕ
  pub state : ProcessState
  pub h_state : ParseState
  pub keep_alive : Bool
  pub headers : List (Bytes × Bytes)
  pub timer : Option ℕ

-- What a function of the class gives: a value, or behaviour that the language leaves undefined (a read
-- outside a buffer), or no value yet when the fuel of a loop has run out.
pub data Run {ℓ} (A : Type ℓ) : Type ℓ where
  done : A → Run A
  undefined exhausted : Run A
