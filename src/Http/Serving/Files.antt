-- ===== src/Http/Serving/Files.antt =====
-- `handleRead` on a whole GET request for a file, from the bytes to the reply.
use light_agent_gateway.Common.{
  ℕ, suc, ◌≡◌, refl, subst, sym, true, false, ◌&&◌, Option, some, List, ◌∷◌, ◌++◌, if◌then◌else◌,
  length, leb, append_assoc,
}
use light_agent_gateway.Common.Bytes.{Bytes, codes, is_prefix, bytes_eq}
use light_agent_gateway.Io.{ReadEvent, read_again}
use light_agent_gateway.Io.Writing.{NoneFails}
use light_agent_gateway.Io.Reading.{Burst}
use light_agent_gateway.Http.{HttpVersion, method_get, finish_state, done}
use light_agent_gateway.Http.Lookup.{is_keep_alive_requested}
use light_agent_gateway.Http.World.{World}
use light_agent_gateway.Http.Analysis.{
  Host, analysis_request, serve_file, send_file, file_header, file_type, kept_alive,
}
use light_agent_gateway.Http.Serving.Exchange.{IsAnswer, Exchanged}
use light_agent_gateway.Http.Serving.Parsing.{
  waiting, Field, Head, IsHead, head_text, parsed, handle_read-Exchanged,
}
use light_agent_gateway.Http.Serving.{
  stage_body, stage_analysis, behind_headers, handle_read, non_empty,
}

-- The head of a GET. The name is not empty.
abbrev pub get_head : ℕ → Bytes → Option Bytes → HttpVersion → Field → List Field → Head
get_head c name query version f fs = record {
  method = method_get;
  name = c ∷ name;
  query = query;
  version = version;
  first = f;
  others = fs;
}

-- A name that the server looks for in the file system, and finds.
pub record IsFile (host : Host) (name : Bytes) (size : ℕ) (file : Bytes) : Type 0 where
  pub not_api : (leb 4 (length name) && is_prefix (codes "api/") name) ≡ false
  pub not_hello : bytes_eq name (codes "hello") ≡ false
  pub not_favicon : bytes_eq name (codes "favicon.ico") ≡ false
  pub found : host.stat name ≡ some size
  pub opens : host.open_file name ≡ true
  pub mapped : host.mmap name size ≡ some file

abbrev with_file : World → ℕ → Bytes → World
with_file v size file = record v {
  http = record (kept_alive v.http) {
    out_buffer =
        (v.http.out_buffer ++ file_header v.http (file_type v.http.file_name) size) ++ file;
    state = finish_state;
  };
}

stage_body-file :
    (host : Host) (w : World) (c : ℕ) (name : Bytes) (query : Option Bytes) (version : HttpVersion)
    (f : Field) (fs : List Field) (rest : Bytes) (later : List ReadEvent) (size : ℕ) (file : Bytes)
    → IsFile host (c ∷ name) size file
    → let v = parsed w (get_head c name query version f fs) rest later in
      stage_body host (behind_headers v) ≡ with_file v size file
unfolding stage_body stage_analysis analysis_request serve_file send_file file_header
    is_keep_alive_requested
stage_body-file host w c name query version f fs rest later size file i =
    rw
      (
        analysis_request, i.not_api, serve_file, i.not_hello, i.not_favicon, i.found, send_file,
        i.opens, i.mapped,
      )
      refl

-- A well-formed GET with at least one field, with or without a query, reaches a connection that waits for
-- a request; its first bytes may have been read before, and the others come in any number of reads of
-- any sizes, with anything behind it; its target's name, taken as it stands, is neither below api/ nor
-- "hello" nor "favicon.ico", and names a file that the server finds, opens and maps; and no write
-- fails. Then `handleRead` sends, behind what was to be sent before, the header with the file's size
-- and the type of its suffix, and the file's bytes: what went out and what still waits are exactly
-- that, in order, whatever the sizes of the writes. The counters stay; what followed the request is
-- left as the input, with which `handleRead` is called again unless it is empty; and the connection
-- waits for the next request, with no header of this one. A name that begins with '/' or goes up by
-- ".." is no exception.
pub handle_read-FileSent :
    (fuel : ℕ) (host : Host) (w : World) (c : ℕ) (name : Bytes) (query : Option Bytes)
    (version : HttpVersion) (f : Field) (fs : List Field) (rest buffered : Bytes)
    {es : List ReadEvent} {bytes : Bytes} (later : List ReadEvent) (size : ℕ) (file : Bytes)
    → let q = get_head c name query version f fs in
      IsHead q
      → IsFile host (c ∷ name) size file
      → Burst es bytes
      → buffered ++ bytes ≡ head_text q rest
      → NoneFails w.socket.writes
      → (w' : World) × (handle_read (suc fuel) host (waiting w buffered (es ++ read_again ∷ later))
          ≡ (if non_empty rest then handle_read fuel host w' else done w'))
        × Exchanged w w.counters
            (file_header (parsed w q rest later).http (file_type (c ∷ name)) size ++ file)
            rest
            later
            w'
handle_read-FileSent fuel host w c name query version f fs rest buffered later size file p i b t n =
    let q = get_head c name query version f fs in
    let v = parsed w q rest later in
    handle_read-Exchanged fuel host w q rest buffered later p b t n (
      subst (IsAnswer w w.counters _ rest later)
        (sym (stage_body-file host w c name query version f fs rest later size file i))
        (record {
          finished = refl;
          no_error = refl;
          connected = refl;
          same_socket = refl;
          output =
              append_assoc w.http.out_buffer (file_header v.http (file_type (c ∷ name)) size) file;
          counted = refl;
          input_left = refl;
        }))
