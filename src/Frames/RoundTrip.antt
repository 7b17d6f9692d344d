-- ===== src/Frames/RoundTrip.antt =====
-- What `send_many` writes is received message by message, whatever the stream does to it but lose bytes.
use oep_client_python.Prelude.{
  ℕ, zero, suc, ◌/◌, ◌%◌, ◌<◌, ◌≤◌, ◌≡◌, refl, ap, ◌∙◌, inl, inr, List, [], ◌∷◌, ◌++◌, map, arith,
  ltb, ◌==◌, length, Bool-cases, not, ◌||◌,
}
use oep_client_python.Try.{ok, value_error, require, >>=-eq_ok}
use oep_client_python.Bytes.{Bytes, pack_field}
use oep_client_python.Frames.{send_many, Received, got, recv}
use oep_client_python.Frames.Chunks.{concat, framed, Receives, recv-framed}

-- Calls of `recv`, one after the other.
unfoldable pub recv_each : ℕ → ℕ → Bytes → List Bytes → List Received
recv_each max_frame zero buffer chunks = []
recv_each max_frame (suc n) buffer chunks =
    let (received, rest, left) = recv max_frame buffer chunks in
    received ∷ recv_each max_frame n rest left

head_bytes :
    (n : ℕ) (head : Bytes)
    → pack_field 2 n ≡ ok head
    → (n < 65536) × (head ≡ n % 256 ∷ n / 256 ∷ [])
head_bytes n head e = elim (Bool-cases (ltb n 65536)) [
  | inl fits ↦
      let lt : n < 65536 = ground (arith, fits) in
      let same : n / 256 % 256 ≡ n / 256 = omega (arith, lt) in (lt, ground (arith, e, fits, same))
  | inr over ↦ absurd (ground (arith, e, over))
]

send_many-framed :
    (max_frame : ℕ) (m : Bytes) (ms : List Bytes) (bytes : Bytes)
    → send_many max_frame (m ∷ ms) ≡ ok bytes
    → (0 < length m)
      × (length m ≤ max_frame)
      × ((more : Bytes) × (send_many max_frame ms ≡ ok more) × (bytes ≡ framed m ++ more))
unfolding send_many
send_many-framed max_frame m ms bytes e =
    elim (Bool-cases (not (length m == 0 || ltb max_frame (length m)))) [
      | inl right ↦
          let (_, _, e1) =
            >>=-eq_ok (require (not (length m == 0 || ltb max_frame (length m))) value_error) _ e in
          let (head, packed, e2) = >>=-eq_ok (pack_field 2 (length m)) _ e1 in
          let (more, sent, e3) = >>=-eq_ok (send_many max_frame ms) _ e2 in
          let (lt, h) = head_bytes (length m) head packed in
          (ground (arith, right), ground (arith, right), (more, sent, cc (e3, h)))
      | inr wrong ↦ absurd (ground (arith, e, wrong))
    ]

recv_each-send_many_from :
    (max_frame : ℕ) (messages : List Bytes) (bytes buffer : Bytes) (chunks : List Bytes)
    → send_many max_frame messages ≡ ok bytes
    → buffer ++ concat chunks ≡ bytes
    → recv_each max_frame (length messages) buffer chunks ≡ map got messages
unfolding recv_each Receives
recv_each-send_many_from max_frame [] bytes buffer chunks sent e = refl
recv_each-send_many_from max_frame (m ∷ ms) bytes buffer chunks sent e =
    let (above, le, (more, sent', b)) = send_many-framed max_frame m ms bytes sent in
    let (rest, left, r, same) = recv-framed max_frame m more above le chunks 0 buffer (e ∙ b) in
    rw (r, recv_each)
      (ap (λ t. got m ∷ t) (recv_each-send_many_from max_frame ms more rest left sent' same))

-- Whatever pieces the stream is read in, the messages that `send_many` wrote are received, all of them, whole
-- and in order.
pub recv_each-send_many :
    (max_frame : ℕ) (messages : List Bytes) (bytes : Bytes) (chunks : List Bytes)
    → send_many max_frame messages ≡ ok bytes
    → concat chunks ≡ bytes
    → recv_each max_frame (length messages) [] chunks ≡ map got messages
recv_each-send_many max_frame messages bytes chunks sent e =
    recv_each-send_many_from max_frame messages bytes [] chunks sent e
