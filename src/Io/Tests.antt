-- ===== src/Io/Tests.antt =====
-- Concrete runs of the loops round `read` and `write`.
use light_agent_gateway.Common.{List, [], ◌∷◌}
use light_agent_gateway.Common.Bytes.{Bytes}
use light_agent_gateway.Io.{
  ReadEvent, received, accepted, write_again, write_interrupted, Socket, writen_string,
}
use light_agent_gateway.Io.Writing.{writen_string-conserves, Conserves}

abbrev half_open : Socket
half_open = record {
  reads = [];
  writes = accepted 2 ∷ write_interrupted ∷ accepted 1 ∷ write_again ∷ [];
  sent = b'a' ∷ [];
}

writen_string-conserves_example :
    Conserves half_open
      (b'b' ∷ b'c' ∷ b'd' ∷ b'e' ∷ [])
      (writen_string half_open (b'b' ∷ b'c' ∷ b'd' ∷ b'e' ∷ []))
writen_string-conserves_example = writen_string-conserves half_open (b'b' ∷ b'c' ∷ b'd' ∷ b'e' ∷ [])

abbrev stored : Bytes
stored = b'o' ∷ []

abbrev three_bytes : List ReadEvent
three_bytes = received (b'p' ∷ b'q' ∷ b'r' ∷ []) ∷ []
