-- ===== src/Frames.antt =====
-- src/oep_client/frames.py: length-prefixed frames on a byte stream. What `_fill` reads from the stream is a
-- list of chunks, each what one call has read; when it is used up, the deadline has passed.
pub mod Chunks
pub mod RoundTrip
mod Examples
use oep_client_python.Prelude.{
  ℕ, ◌+◌, ◌*◌, not, ◌||◌, List, [], ◌∷◌, ◌++◌, ltb, leb, ◌==◌, length, take, drop, if◌then◌else◌,
}
use oep_client_python.Try.{Try, ok, raise, value_error, ◌>>=◌, ◌>>◌, require}
use oep_client_python.Bytes.{Bytes, pack_field}

-- The chunk that `send_many` writes.
unfoldable pub send_many : ℕ → List Bytes → Try Bytes
send_many max_frame [] = ok []
send_many max_frame (message ∷ messages) = do
  require (not (length message == 0 || ltb max_frame (length message))) value_error
  head ← pack_field 2 (length message)
  more ← send_many max_frame messages
  ok (head ++ (message ++ more))

-- What the bytes in the buffer hold: a message and what is behind it, a length that cannot be right and
-- what is behind it, or a part of a frame, each with the keepalives before it gone.
pub data Parsed : Type 0 where
  message : Bytes → Bytes → Parsed
  impossible : Bytes → Parsed
  part : Bytes → Parsed

unfoldable pub parse : ℕ → Bytes → Parsed
parse max_frame [] = part []
parse max_frame (low ∷ []) = part (low ∷ [])
parse max_frame (low ∷ high ∷ rest) =
    let size = low + 256 * high in
    let skipped = parse max_frame rest in
    if size == 0
    then skipped
    else if ltb max_frame size
    then impossible (low ∷ high ∷ rest)
    else if leb size (length rest)
    then message (take size rest) (drop size rest)
    else part (low ∷ high ∷ rest)

-- What `recv` returns or raises.
pub data Received : Type 0 where
  got : Bytes → Received
  nothing : Received
  framing_lost : Received

-- recv on a stream that keeps its boundaries, or on one whose frame has not stalled when the deadline passes:
-- the result, the buffer, and what is still to be read.
unfoldable pub recv : ℕ → Bytes → List Bytes → Received × Bytes × List Bytes
recv max_frame buffer [] = elim (parse max_frame buffer) [
  | message m rest ↦ (got m, rest, [])
  | impossible kept ↦ (framing_lost, kept, [])
  | part kept ↦ (nothing, kept, [])
]
recv max_frame buffer (chunk ∷ chunks) = elim (parse max_frame buffer) [
  | message m rest ↦ (got m, rest, chunk ∷ chunks)
  | impossible kept ↦ (framing_lost, kept, chunk ∷ chunks)
  | part kept ↦ recv max_frame (kept ++ chunk) chunks
]
