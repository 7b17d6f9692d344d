-- ===== src/Frames/Examples.antt =====
-- Frames cut in odd places, and the theorems at them.
use oep_client_python.Prelude.{◌≡◌, refl, List, [], ◌∷◌, map}
use oep_client_python.Try.{ok, raise, value_error}
use oep_client_python.Bytes.{Bytes}
use oep_client_python.Frames.{send_many, parse, got, nothing, framing_lost, recv}
use oep_client_python.Frames.RoundTrip.{recv_each, recv_each-send_many}

abbrev messages : List Bytes
messages = (7 ∷ 8 ∷ 9 ∷ []) ∷ (5 ∷ []) ∷ []

abbrev on_the_wire : Bytes
on_the_wire = 3 ∷ 0 ∷ 7 ∷ 8 ∷ 9 ∷ 1 ∷ 0 ∷ 5 ∷ []

sent_messages : send_many 64 messages ≡ ok on_the_wire
unfolding send_many
sent_messages = refl

too_long : send_many 2 messages ≡ raise value_error
unfolding send_many
too_long = refl

-- A length above max_frame, behind a keepalive.
lost : (recv 64 [] ((0 ∷ 0 ∷ 65 ∷ []) ∷ (0 ∷ []) ∷ [])).0 ≡ framing_lost
unfolding recv parse
lost = refl

-- The deadline passes inside a frame: what has come is kept.
not_yet : recv 64 [] ((3 ∷ 0 ∷ 7 ∷ []) ∷ []) ≡ (nothing, 3 ∷ 0 ∷ 7 ∷ [], [])
unfolding recv parse
not_yet = refl

recv_each-send_many_example :
    recv_each 64 2 [] ((3 ∷ []) ∷ (0 ∷ 7 ∷ 8 ∷ []) ∷ [] ∷ (9 ∷ 1 ∷ 0 ∷ 5 ∷ []) ∷ [])
    ≡ map got messages
recv_each-send_many_example =
    recv_each-send_many 64 messages on_the_wire
      ((3 ∷ []) ∷ (0 ∷ 7 ∷ 8 ∷ []) ∷ [] ∷ (9 ∷ 1 ∷ 0 ∷ 5 ∷ []) ∷ []) sent_messages refl
