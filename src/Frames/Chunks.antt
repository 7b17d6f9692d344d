-- ===== src/Frames/Chunks.antt =====
-- The messages that are sent are received, however the stream cuts their bytes into reads.
use oep_client_python.Prelude.{
  ℕ, zero, suc, ◌+◌, ◌*◌, ◌/◌, ◌%◌, ◌<◌, ◌≤◌, ◌≡◌, refl, ap, ◌∙◌, inl, inr, List, [], ◌∷◌, ◌++◌,
  arith, leb, length, take, drop, append_assoc, length-append, Bool-cases,
}
use oep_client_python.Bytes.{Bytes}
use oep_client_python.Frames.{message, part, parse, got, recv}

abbrev pub concat : List Bytes → Bytes
concat [] = []
concat (xs ∷ xss) = xs ++ concat xss

-- A frame: the message's length in two bytes, and the message.
abbrev pub framed : Bytes → Bytes
framed m = length m % 256 ∷ length m / 256 ∷ m

abbrev pub keepalives : ℕ → Bytes
keepalives zero = []
keepalives (suc k) = 0 ∷ 0 ∷ keepalives k

parse-framed_enough :
    (max_frame low high : ℕ) (rest m : Bytes)
    → 0 < length m
    → length m ≤ max_frame
    → low ≡ length m % 256
    → high ≡ length m / 256
    → length m ≤ length rest
    → parse max_frame (low ∷ high ∷ rest) ≡ message (take (length m) rest) (drop (length m) rest)
unfolding parse
parse-framed_enough max_frame low high rest m above le l h enough =
    let e : low + 256 * high ≡ length m = omega (arith, l, h) in
    ground (arith, e, above, le, enough)

parse-framed_part :
    (max_frame low high : ℕ) (rest m : Bytes)
    → 0 < length m
    → length m ≤ max_frame
    → low ≡ length m % 256
    → high ≡ length m / 256
    → length rest < length m
    → parse max_frame (low ∷ high ∷ rest) ≡ part (low ∷ high ∷ rest)
unfolding parse
parse-framed_part max_frame low high rest m above le l h short =
    let e : low + 256 * high ≡ length m = omega (arith, l, h) in ground (arith, e, above, le, short)

head-eq : {a b : ℕ} {xs ys : Bytes} → a ∷ xs ≡ b ∷ ys → (a ≡ b) × (xs ≡ ys)
head-eq e = (cc (e), cc (e))

-- The cut of one list into a part and what follows, against another cut of it.
split_cut :
    (rest more m tail : Bytes)
    → rest ++ more ≡ m ++ tail
    → length m ≤ length rest
    → (take (length m) rest ≡ m) × (drop (length m) rest ++ more ≡ tail)
split_cut rest more [] tail e le = (refl, e)
split_cut [] more (x ∷ m) tail e le = absurd (omega (arith, le))
split_cut (y ∷ rest) more (x ∷ m) tail e le =
    let (a, b) = split_cut rest more m tail (cc (e)) (omega (arith, le)) in
    let h : y ≡ x = cc (e) in (cc (h, a), b)

recv-part :
    (max_frame : ℕ) (buffer kept chunk : Bytes) (chunks : List Bytes)
    → parse max_frame buffer ≡ part kept
    → recv max_frame buffer (chunk ∷ chunks) ≡ recv max_frame (kept ++ chunk) chunks
unfolding recv
recv-part max_frame buffer kept chunk chunks e = rw (e, recv) refl

recv-message :
    (max_frame : ℕ) (buffer m rest : Bytes) (chunks : List Bytes)
    → parse max_frame buffer ≡ message m rest
    → recv max_frame buffer chunks ≡ (got m, rest, chunks)
unfolding recv
recv-message max_frame buffer m rest [] e = rw (e, recv) refl
recv-message max_frame buffer m rest (chunk ∷ chunks) e = rw (e, recv) refl

recv_skips :
    (max_frame : ℕ) (rest : Bytes) (chunks : List Bytes)
    → recv max_frame (0 ∷ 0 ∷ rest) chunks ≡ recv max_frame rest chunks
unfolding recv parse
recv_skips max_frame rest [] = refl
recv_skips max_frame rest (chunk ∷ chunks) = refl

unfoldable pub Receives : ℕ → Bytes → Bytes → List Bytes → Bytes → Type 0
Receives max_frame m buffer chunks more =
    (rest : Bytes) × (left : List Bytes) × (recv max_frame buffer chunks ≡ (got m, rest, left))
    × (rest ++ concat left ≡ more)

parse_none : (max_frame : ℕ) → parse max_frame [] ≡ part []
unfolding parse
parse_none max_frame = refl

parse_one : (max_frame low : ℕ) → parse max_frame (low ∷ []) ≡ part (low ∷ [])
unfolding parse
parse_one max_frame low = refl

recv_whole :
    (max_frame : ℕ) (m more : Bytes) (low high : ℕ) (rest : Bytes) (chunks : List Bytes)
    → 0 < length m
    → length m ≤ max_frame
    → low ≡ length m % 256
    → high ≡ length m / 256
    → rest ++ concat chunks ≡ m ++ more
    → length m ≤ length rest
    → Receives max_frame m (low ∷ high ∷ rest) chunks more
unfolding Receives
recv_whole max_frame m more low high rest chunks above le l h e enough =
    let (t, d) = split_cut rest (concat chunks) m more e enough in
    let p = parse-framed_enough max_frame low high rest m above le l h enough in
    (
      drop (length m) rest,
      chunks,
      recv-message max_frame (low ∷ high ∷ rest) m (drop (length m) rest) chunks
          (p ∙ ap (λ x. message x (drop (length m) rest)) t),
      d,
    )

lengths : (rest m tail : Bytes) → rest ++ [] ≡ m ++ tail → length m ≤ length rest
lengths rest m tail e = omega (arith, ap length e, length-append rest [], length-append m tail)

three_bytes :
    (k : ℕ) (m more : Bytes) → 0 < length m → 2 < length (keepalives k ++ (framed m ++ more))
three_bytes zero m more above = omega (arith, length-append m more, above)
three_bytes (suc k) m more above = omega (arith, three_bytes k m more above)

-- The frame of a message of 1 to max_frame bytes, keepalives before it, is received whatever the cut of its bytes into what is in the buffer and
-- what is read; what follows it stays.
pub recv-framed :
    (max_frame : ℕ) (m more : Bytes)
    → 0 < length m
    → length m ≤ max_frame
    → (chunks : List Bytes) (k : ℕ) (buffer : Bytes)
    → buffer ++ concat chunks ≡ keepalives k ++ (framed m ++ more)
    → Receives max_frame m buffer chunks more
unfolding Receives
recv-framed max_frame m more above le chunks (suc k) (low ∷ high ∷ rest) e =
    let l : low ≡ 0 = cc (e) in
    let h : high ≡ 0 = cc (e) in
    rw (l, h, recv_skips max_frame rest chunks)
      (recv-framed max_frame m more above le chunks k rest (cc (e)))
recv-framed max_frame m more above le [] zero (low ∷ high ∷ rest) e =
    recv_whole max_frame m more low high rest [] above le (cc (e)) (cc (e)) (cc (e))
      (lengths rest m more (cc (e)))
recv-framed max_frame m more above le (chunk ∷ chunks) zero (low ∷ high ∷ rest) e =
    elim (Bool-cases (leb (length m) (length rest))) [
      | inl enough ↦
          recv_whole max_frame m more low high rest (chunk ∷ chunks) above le (cc (e)) (cc (e))
            (cc (e)) (ground (arith, enough))
      | inr short ↦
          let p =
            parse-framed_part max_frame low high rest m above le (cc (e)) (cc (e))
              (ground (arith, short)) in
          rw (recv-part max_frame (low ∷ high ∷ rest) (low ∷ high ∷ rest) chunk chunks p) (
            recv-framed max_frame m more above le chunks zero (low ∷ high ∷ (rest ++ chunk))
              (rw (append_assoc rest chunk (concat chunks)) e))
    ]
recv-framed max_frame m more above le [] k [] e =
    absurd (omega (arith, ap length e, three_bytes k m more above))
recv-framed max_frame m more above le (chunk ∷ chunks) k [] e =
    rw (recv-part max_frame [] [] chunk chunks (parse_none max_frame))
      (recv-framed max_frame m more above le chunks k chunk e)
recv-framed max_frame m more above le [] k (low ∷ []) e =
    absurd (omega (arith, ap length e, three_bytes k m more above))
recv-framed max_frame m more above le (chunk ∷ chunks) k (low ∷ []) e =
    rw (recv-part max_frame (low ∷ []) (low ∷ []) chunk chunks (parse_one max_frame low))
      (recv-framed max_frame m more above le chunks k (low ∷ chunk) e)
