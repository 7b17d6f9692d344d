-- ===== src/Catalog/Bitmap/Members.antt =====
-- Which numbers stand in a bitmap: `has` of what `bitmap_to_channels` lists, and the bits that the
-- writing of a set leaves.
use native.Mathlib.Nat.{zero-div, pow-le-pow_right}
use oep_client_python.Prelude.{
  subst, sym, inl, inr, Bool-cases, ℕ, zero, suc, ◌+◌, ◌-◌, ◌*◌, ◌/◌, ◌%◌, ◌^◌, ◌<◌, ◌≤◌, ◌≡◌, refl,
  ◌&&◌, ◌||◌, List, [], ◌∷◌, ◌++◌, arith, ltb, leb, ◌==◌, length, length-set, get_or, set,
  replicate, All, bit_or, if◌then◌else◌,
}
use oep_client_python.Bytes.{Bytes, IsByte}
use oep_client_python.Bits.Or.{digit-bit_or, bit_or-lt}
use oep_client_python.Catalog.SortedSet.{has, has-append, Ascending, Ascending-lower}
use oep_client_python.Catalog.Bitmap.{put_bit, put_bits, byte_channels, bitmap_to_channels}

-- Bit k of a bitmap, 0 past its end.
abbrev pub bit_at : Bytes → ℕ → ℕ
bit_at bits k = get_or bits (k / 8) 0 / 2 ^ (k % 8) % 2

bit_at_low : (byte : ℕ) (bits : Bytes) (k : ℕ) → k < 8 → bit_at (byte ∷ bits) k ≡ byte / 2 ^ k % 2
bit_at_low byte bits k h =
    let i : k / 8 ≡ 0 = omega arith in let j : k % 8 ≡ k = omega arith in rw (i, j)

bit_at_high : (byte : ℕ) (bits : Bytes) (k : ℕ) → bit_at (byte ∷ bits) (8 + k) ≡ bit_at bits k
bit_at_high byte bits k =
    let i : (8 + k) / 8 ≡ suc (k / 8) = omega arith in
    let j : (8 + k) % 8 ≡ k % 8 = omega arith in rw (i, j)

has-byte_channels :
    (first byte n b x : ℕ)
    → has x (byte_channels first byte n b)
      ≡ (leb (first + b) x && ltb x (first + b + n) && byte / 2 ^ (x - first) % 2 == 1)
unfolding byte_channels
has-byte_channels first byte zero b x = ground arith
has-byte_channels first byte (suc n) b x = ground (arith, has-byte_channels first byte n (suc b) x)

byte_channels-Ascending :
    (first byte n b : ℕ) (rest : List ℕ)
    → Ascending (first + b + n) rest
    → Ascending (first + b) (byte_channels first byte n b ++ rest)
unfolding byte_channels
byte_channels-Ascending first byte zero b rest a =
    Ascending-lower (first + b + 0) (first + b) rest (omega arith) a
byte_channels-Ascending first byte (suc n) b rest a =
    let more : Ascending (first + suc b) (byte_channels first byte n (suc b) ++ rest) =
      byte_channels-Ascending first byte n (suc b) rest
        (Ascending-lower _ _ rest (omega arith) a) in
    let lower = Ascending-lower (first + suc b) (first + b) _ (omega arith) more in
    ground (arith, more, lower)

pub bitmap_to_channels-Ascending :
    (base : ℕ) (bits : Bytes) → Ascending base (bitmap_to_channels base bits)
unfolding bitmap_to_channels
bitmap_to_channels-Ascending base [] = tt
bitmap_to_channels-Ascending base (byte ∷ bits) = Ascending-lower (base + 0) base _ (omega arith) (
    byte_channels-Ascending base byte 8 0 _ (
      Ascending-lower (base + 8) (base + 0 + 8) _ (omega arith)
        (bitmap_to_channels-Ascending (base + 8) bits)))

pub has-bitmap_to_channels :
    (base : ℕ) (bits : Bytes) (x : ℕ)
    → has x (bitmap_to_channels base bits) ≡ (leb base x && bit_at bits (x - base) == 1)
unfolding bitmap_to_channels
has-bitmap_to_channels base [] x = rw (zero-div (2 ^ ((x - base) % 8))) (ground arith)
has-bitmap_to_channels base (byte ∷ bits) x =
    let below = bit_at_low byte bits (x - base) in
    let above : base + 8 ≤ x → bit_at (byte ∷ bits) (x - base) ≡ bit_at bits (x - (base + 8)) = λ h.
      let e : x - base ≡ 8 + (x - (base + 8)) = omega arith in
      rw e (bit_at_high byte bits (x - (base + 8))) in
    rw
      (
        has-append x (byte_channels base byte 8 0) (bitmap_to_channels (base + 8) bits),
        has-byte_channels base byte 8 0 x,
        has-bitmap_to_channels (base + 8) bits x,
      )
      (ground (arith, below, above))

get_or-set :
    (bits : Bytes) (i j v : ℕ)
    → i < length bits
    → get_or (set bits i v) j 0 ≡ (if j == i then v else get_or bits j 0)
get_or-set [] i j v h = absurd (omega arith)
get_or-set (b ∷ bits) zero zero v h = refl
get_or-set (b ∷ bits) zero (suc j) v h = ground arith
get_or-set (b ∷ bits) (suc i) zero v h = ground arith
get_or-set (b ∷ bits) (suc i) (suc j) v h = ground (arith, get_or-set bits i j v)

bit_at-put_bit :
    (base x : ℕ) (bits : Bytes) (k : ℕ)
    → base ≤ x
    → x - base < 8 * length bits
    → bit_at (put_bit base x bits) k ≡ (if base + k == x then 1 else bit_at bits k)
unfolding put_bit
bit_at-put_bit base x bits k h fits =
    let i = (x - base) / 8 in
    let m = (x - base) % 8 in
    let old = get_or bits i 0 in
    let written = get_or-set bits i (k / 8) (bit_or old (2 ^ m)) (omega arith) in
    rw written (elim (Bool-cases (k / 8 == i)) [
      | inl same ↦
          let e : k / 8 ≡ i = ground arith in
          rw (same, digit-bit_or old m (k % 8), e) (ground arith)
      | inr other ↦ rw other (ground arith)
    ])

length-put_bit : (base x : ℕ) (bits : Bytes) → length (put_bit base x bits) ≡ length bits
unfolding put_bit
length-put_bit base x bits = length-set bits ((x - base) / 8) _

pub length-put_bits :
    (base : ℕ) (xs : List ℕ) (bits : Bytes) → length (put_bits base xs bits) ≡ length bits
unfolding put_bits
length-put_bits base [] bits = refl
length-put_bits base (x ∷ xs) bits =
    rw (length-put_bits base xs (put_bit base x bits)) (length-put_bit base x bits)

-- A bitmap with the members of `xs` written into it has their bits and the bits it had.
pub bit_at-put_bits :
    (base : ℕ) (xs : List ℕ) (bits : Bytes) (k : ℕ)
    → All (λ x. (base ≤ x) × (x - base < 8 * length bits)) xs
    → (bit_at (put_bits base xs bits) k == 1) ≡ (has (base + k) xs || bit_at bits k == 1)
unfolding put_bits
bit_at-put_bits base [] bits k h = refl
bit_at-put_bits base (x ∷ xs) bits k h =
    let fit =
      subst (λ n. All (λ y. (base ≤ y) × (y - base < 8 * n)) xs) (sym (length-put_bit base x bits))
        h.1 in
    let one = bit_at-put_bit base x bits k h.0.0 h.0.1 in
    rw (bit_at-put_bits base xs (put_bit base x bits) k fit, one) (ground arith)

abbrev pub zeros : ℕ → Bytes
zeros n = replicate n 0

get_or-replicate : (n k : ℕ) → get_or {A = ℕ} (zeros n) k 0 ≡ 0
get_or-replicate zero k = refl
get_or-replicate (suc n) zero = refl
get_or-replicate (suc n) (suc k) = get_or-replicate n k

pub bit_at-replicate : (n k : ℕ) → bit_at (zeros n) k ≡ 0
bit_at-replicate n k = rw (get_or-replicate n (k / 8), zero-div (2 ^ (k % 8)))

set-IsByte : (bits : Bytes) (i v : ℕ) → All IsByte bits → v < 256 → All IsByte (set bits i v)
set-IsByte [] i v h p = tt
set-IsByte (b ∷ bits) zero v h p = (p, h.1)
set-IsByte (b ∷ bits) (suc i) v h p = (h.0, set-IsByte bits i v h.1 p)

get_or-IsByte : (bits : Bytes) (i : ℕ) → All IsByte bits → get_or bits i 0 < 256
get_or-IsByte [] i h = omega arith
get_or-IsByte (b ∷ bits) zero h = h.0
get_or-IsByte (b ∷ bits) (suc i) h = get_or-IsByte bits i h.1

pub replicate-IsByte : (n : ℕ) → All IsByte (zeros n)
replicate-IsByte zero = tt
replicate-IsByte (suc n) = (omega arith, replicate-IsByte n)

pub put_bits-IsByte :
    (base : ℕ) (xs : List ℕ) (bits : Bytes) → All IsByte bits → All IsByte (put_bits base xs bits)
unfolding put_bits put_bit
put_bits-IsByte base [] bits h = h
put_bits-IsByte base (x ∷ xs) bits h =
    let i = (x - base) / 8 in
    let m = (x - base) % 8 in
    let le : 2 ^ m ≤ 2 ^ 7 = pow-le-pow_right (omega arith) {j = 7} (omega arith) in
    let small : 2 ^ m < 256 = omega (arith, le) in
    let byte = bit_or-lt 8 (get_or bits i 0) (2 ^ m) (get_or-IsByte bits i h) small in
    put_bits-IsByte base xs _ (set-IsByte bits i _ h byte)
