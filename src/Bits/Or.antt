-- ===== src/Bits/Or.antt =====
-- Laws of `bit_or` at variables, from the recursion on binary digits that the operation stands for.
use Prim.Native.Nat.{digits, bit_or-bitwise}
use native.Mathlib.Nat.{pow-suc, div-div-eq-div-mul, mul_comm}
use oep_client_python.Prelude.{
  subst, ℕ, zero, suc, ◌+◌, ◌*◌, ◌/◌, ◌%◌, ◌^◌, ◌<◌, ◌≤◌, ◌≡◌, refl, arith, bit_or, max, ◌==◌,
  if◌then◌else◌,
}

abbrev or_digits : ℕ → ℕ → ℕ → ℕ
or_digits n a b = digits (λ b. b) max n a b

or_digits_fuel : (n m a b : ℕ) → a ≤ n → a ≤ m → or_digits n a b ≡ or_digits m a b
or_digits_fuel zero zero a b p q = refl
or_digits_fuel zero (suc m) zero b p q = refl
or_digits_fuel zero (suc m) (suc a) b p q = absurd (omega arith)
or_digits_fuel (suc n) zero zero b p q = refl
or_digits_fuel (suc n) zero (suc a) b p q = absurd (omega arith)
or_digits_fuel (suc n) (suc m) zero b p q = refl
or_digits_fuel (suc n) (suc m) (suc a) b p q =
    omega (arith, or_digits_fuel n m (suc a / 2) (b / 2) (omega arith) (omega arith))

-- The lowest digit and the others.
pub bit_or_step : (a b : ℕ) → bit_or a b ≡ bit_or (a / 2) (b / 2) * 2 + max (a % 2) (b % 2)
bit_or_step zero b = omega (arith, bit_or-bitwise 0 b, bit_or-bitwise 0 (b / 2))
bit_or_step (suc a) b = omega (
  arith,
  bit_or-bitwise (suc a) b,
  bit_or-bitwise (suc a / 2) (b / 2),
  or_digits_fuel a (suc a / 2) (suc a / 2) (b / 2) (omega arith) (omega arith),
)

or_zero_fuel : (n a : ℕ) → a ≤ n → bit_or a 0 ≡ a
or_zero_fuel zero zero h = refl
or_zero_fuel zero (suc a) h = absurd (omega arith)
or_zero_fuel (suc n) zero h = refl
or_zero_fuel (suc n) (suc a) h =
    omega (arith, bit_or_step (suc a) 0, or_zero_fuel n (suc a / 2) (omega arith))

div_pow_suc : (a j : ℕ) → a / 2 ^ suc j ≡ a / 2 / 2 ^ j
div_pow_suc a j = rw (div-div-eq-div-mul a 2 (2 ^ j), pow-suc 2 j, mul_comm (2 ^ j) 2) refl

-- `a | 1 << k` has digit k, and the other digits of a.
pub digit-bit_or :
    (a k j : ℕ) → bit_or a (2 ^ k) / 2 ^ j % 2 ≡ (if j == k then 1 else a / 2 ^ j % 2)
digit-bit_or a zero zero = omega (arith, bit_or_step a 1)
digit-bit_or a zero (suc j) =
    let half : bit_or a 1 / 2 ≡ a / 2 =
      omega (arith, bit_or_step a 1, or_zero_fuel (a / 2) (a / 2) (omega arith)) in
    rw (div_pow_suc (bit_or a 1) j, div_pow_suc a j, half) (ground arith)
digit-bit_or a (suc k) zero = ground (arith, bit_or_step a (2 ^ suc k), pow-suc 2 k)
digit-bit_or a (suc k) (suc j) =
    let half : bit_or a (2 ^ suc k) / 2 ≡ bit_or (a / 2) (2 ^ k) =
      let p : 2 ^ suc k / 2 ≡ 2 ^ k = omega (arith, pow-suc 2 k) in
      subst (λ t. bit_or a (2 ^ suc k) / 2 ≡ bit_or (a / 2) t) p
        (omega (arith, bit_or_step a (2 ^ suc k))) in
    rw (div_pow_suc (bit_or a (2 ^ suc k)) j, div_pow_suc a j, half, digit-bit_or (a / 2) k j)
      (ground arith)

pub bit_or-lt : (n a b : ℕ) → a < 2 ^ n → b < 2 ^ n → bit_or a b < 2 ^ n
bit_or-lt zero zero zero p q = omega (arith, or_zero_fuel 0 0)
bit_or-lt zero zero (suc b) p q = absurd (omega arith)
bit_or-lt zero (suc a) b p q = absurd (omega arith)
bit_or-lt (suc n) a b p q =
    let two = pow-suc 2 n in
    omega (
      arith,
      two,
      bit_or_step a b,
      bit_or-lt n (a / 2) (b / 2) (omega (arith, two)) (omega (arith, two)),
    )
