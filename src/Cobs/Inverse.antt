-- ===== src/Cobs/Inverse.antt =====
-- The loops of COBS: every input is encoded, its code string has no zero byte, and decoding the string
-- gives the input.
use oep_client_python.Prelude.{
  ℕ, zero, suc, ◌+◌, ◌-◌, ◌<◌, ◌≤◌, ◌≡◌, ◌≢◌, inl, inr, refl, sym, ap, subst, ◌∙◌, not, true, false,
  [], ◌∷◌, ◌++◌, append-nil, arith, length, length-append, take-append, drop-append, All,
  All-append, Bool-cases, List-cases, ◌==◌, ◌||◌, if◌then◌else◌, ltb,
}
use oep_client_python.Try.{Error, ok, raise}
use oep_client_python.Bytes.{Bytes}
use oep_client_python.Cobs.{block, encode_loop, is_empty, decode_loop}
use oep_client_python.Cobs.Block.{block_split, block_nonzero, block_stop}

-- The zero that `decode_loop` puts back behind a block of a length.
abbrev gap : ℕ → Bytes → Bytes
unfolding is_empty
gap n after = if n + 1 == 0xff || is_empty after then [] else 0 ∷ []

code_in_range : (n m : ℕ) → n ≤ m → not (n + 1 == 0 || ltb m n) ≡ true
code_in_range n m h = ground arith

-- One round of `decode_loop` on the bytes of a block behind its code.
decode_block :
    (fuel : ℕ) (taken after out : Bytes)
    → decode_loop fuel after ≡ ok out
    → decode_loop (suc fuel) ((length taken + 1) ∷ (taken ++ after))
      ≡ ok (taken ++ (gap (length taken) after ++ out))
unfolding decode_loop
decode_block fuel taken after out e =
    let code : length taken + 1 - 1 ≡ length taken = omega arith in
    let room : not (length taken + 1 == 0 || ltb (length (taken ++ after)) (length taken)) ≡ true =
      code_in_range (length taken) (length (taken ++ after))
        (omega (arith, length-append taken after)) in
    rw (code, room, drop-append, take-append, e) refl

-- The first block of an input.
abbrev pub taken : Bytes → Bytes
taken rest = (block 254 rest).0

module _ (fuel : ℕ) (rest : Bytes) where
  pub encode_last :
      (block 254 rest).1 ≡ []
      → encode_loop (suc fuel) rest ≡ ok ((length (taken rest) + 1) ∷ taken rest)
  unfolding encode_loop
  encode_last e = rw (e, encode_loop)

  pub encode_more :
      (b : ℕ) (bs out : Bytes)
      → (block 254 rest).1 ≡ b ∷ bs
      → encode_loop fuel (if length (taken rest) + 1 == 0xff then b ∷ bs else bs) ≡ ok out
      → encode_loop (suc fuel) rest ≡ ok ((length (taken rest) + 1) ∷ (taken rest ++ out))
  unfolding encode_loop
  encode_more b bs out e h = rw (e, encode_loop, h)

pub encode_stop :
    (fuel b : ℕ) (rest bs : Bytes) (x : Error)
    → (block 254 rest).1 ≡ b ∷ bs
    → encode_loop fuel (if length (taken rest) + 1 == 0xff then b ∷ bs else bs) ≡ raise x
    → encode_loop (suc fuel) rest ≡ raise x
unfolding encode_loop
encode_stop fuel b rest bs x e h = rw (e, encode_loop, h)

gap_full : (n : ℕ) (after : Bytes) → (n + 1 == 0xff) ≡ true → gap n after ≡ []
unfolding is_empty
gap_full n after e = rw e

gap_last : (n : ℕ) → gap n [] ≡ []
unfolding is_empty
gap_last n = ground arith

gap_zero : (n : ℕ) (after : Bytes) → (n + 1 == 0xff) ≡ false → after ≢ [] → gap n after ≡ 0 ∷ []
unfolding is_empty
gap_zero n [] e h = absurd (h refl)
gap_zero n (b ∷ bs) e h = rw e (ground arith)

-- A code string that decodes to `out` with any fuel that its length allows.
unfoldable pub Decodes : Bytes → Bytes → Type 0
Decodes raw out = (more : ℕ) → length raw ≤ more → decode_loop more raw ≡ ok out

Decodes-nil : Decodes [] []
unfolding decode_loop Decodes
Decodes-nil zero h = refl
Decodes-nil (suc more) h = refl

Decodes-block :
    (taken after out : Bytes)
    → Decodes after out
    → Decodes ((length taken + 1) ∷ (taken ++ after)) (taken ++ (gap (length taken) after ++ out))
unfolding Decodes
Decodes-block taken after out h zero enough = absurd (omega arith)
Decodes-block taken after out h (suc more) enough =
    decode_block more taken after out (h more (omega (arith, length-append taken after)))

-- What encoding gives for an input: a code string that decodes to it and has no zero.
pub record Encodes (fuel : ℕ) (rest out : Bytes) : Type 0 where
  pub encoded : encode_loop fuel rest ≡ ok out
  pub filled : out ≢ []
  pub no_zero : All (λ b. b ≢ 0) out
  pub decodes : Decodes out rest

Encodes-last :
    (fuel : ℕ) (rest : Bytes)
    → (block 254 rest).1 ≡ []
    → Encodes (suc fuel) rest ((length (taken rest) + 1) ∷ taken rest)
Encodes-last fuel rest e =
    let whole : taken rest ≡ rest =
      sym (append-nil (taken rest)) ∙ rw e at (block_split 254 rest) in
    let plain : taken rest ++ (gap (length (taken rest)) [] ++ []) ≡ rest =
      rw (gap_last (length (taken rest)), append-nil) whole in
    record {
      encoded = encode_last fuel rest e;
      filled = λ p. cc;
      no_zero = (omega arith, block_nonzero 254 rest);
      decodes =
          subst (λ r. Decodes ((length (taken rest) + 1) ∷ r) rest) (append-nil (taken rest))
            (subst (λ r. Decodes ((length (taken rest) + 1) ∷ (taken rest ++ [])) r) plain
              (Decodes-block (taken rest) [] [] Decodes-nil));
    }

Encodes-more :
    (fuel b : ℕ) (rest bs next out : Bytes)
    → (block 254 rest).1 ≡ b ∷ bs
    → (if length (taken rest) + 1 == 0xff then b ∷ bs else bs) ≡ next
    → Encodes fuel next out
    → taken rest ++ (gap (length (taken rest)) out ++ next) ≡ rest
    → Encodes (suc fuel) rest ((length (taken rest) + 1) ∷ (taken rest ++ out))
Encodes-more fuel b rest bs next out e chosen h whole = record {
  encoded = encode_more fuel rest b bs out e (rw chosen h.encoded);
  filled = λ p. cc;
  no_zero =
      (omega arith, All-append (λ b. b ≢ 0) (taken rest) out (block_nonzero 254 rest) h.no_zero);
  decodes =
      subst (λ r. Decodes ((length (taken rest) + 1) ∷ (taken rest ++ out)) r) whole
        (Decodes-block (taken rest) out next h.decodes);
}

-- What stands behind the first block is shorter than the input by the block.
pub length_after :
    (rest after : Bytes)
    → (block 254 rest).1 ≡ after
    → length (taken rest) + length after ≡ length rest
length_after rest after e =
    rw (← e) (sym (length-append (taken rest) _) ∙ ap length (block_split 254 rest))

abbrev pub Rounds : ℕ → Type 0
Rounds fuel = (next : Bytes) → length next < fuel → (out : Bytes) × Encodes fuel next out

Encodes-full :
    (fuel b : ℕ) (rest bs : Bytes)
    → Rounds fuel
    → (block 254 rest).1 ≡ b ∷ bs
    → (length (taken rest) + 1 == 0xff) ≡ true
    → length rest < suc fuel
    → (out : Bytes) × Encodes (suc fuel) rest out
Encodes-full fuel b rest bs rounds e full h =
    let (out, encodes) = rounds (b ∷ bs) (ground (arith, length_after rest (b ∷ bs) e)) in
    (
      (length (taken rest) + 1) ∷ (taken rest ++ out),
      Encodes-more fuel b rest bs (b ∷ bs) out e (rw full) encodes
          (rw (gap_full (length (taken rest)) out full, ← e) (block_split 254 rest)),
    )

Encodes-zero :
    (fuel : ℕ) (rest bs : Bytes)
    → Rounds fuel
    → (block 254 rest).1 ≡ 0 ∷ bs
    → (length (taken rest) + 1 == 0xff) ≡ false
    → length rest < suc fuel
    → (out : Bytes) × Encodes (suc fuel) rest out
Encodes-zero fuel rest bs rounds e open_ h =
    let (out, encodes) = rounds bs (omega (arith, length_after rest (0 ∷ bs) e)) in
    (
      (length (taken rest) + 1) ∷ (taken rest ++ out),
      Encodes-more fuel 0 rest bs bs out e (rw open_) encodes (
          rw (gap_zero (length (taken rest)) out open_ encodes.filled, ← e) (block_split 254 rest)),
    )

code_full : (n : ℕ) → n ≡ 254 → (n + 1 == 0xff) ≡ true
code_full n e = ground arith

-- Encoding ends on every input, and its result decodes to the input and has no zero.
pub encode_loop-Encodes : (fuel : ℕ) → Rounds fuel
encode_loop-Encodes zero rest h = absurd (omega arith)
encode_loop-Encodes (suc fuel) rest h = elim (List-cases (block 254 rest).1) [
  | inl e ↦ ((length (taken rest) + 1) ∷ taken rest, Encodes-last fuel rest e)
  | inr (b, bs, e) ↦ elim (Bool-cases (length (taken rest) + 1 == 0xff)) [
    | inl full ↦ Encodes-full fuel b rest bs (encode_loop-Encodes fuel) e full h
    | inr open_ ↦ elim (block_stop 254 rest) [
      | inl none_left ↦ cc
      | inr (inl full) ↦ cc (code_full (length (taken rest)) full)
      | inr (inr (xs, zero_next)) ↦
          Encodes-zero fuel rest xs (encode_loop-Encodes fuel) zero_next open_ h
    ]
  ]
]
