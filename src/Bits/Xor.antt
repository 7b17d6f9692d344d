-- ===== src/Bits/Xor.antt =====
-- Laws of `bit_xor` at variables, from the recursion on binary digits that the operation stands for.
use Prim.Native.Nat.{digits, differ, bit_xor-bitwise}
use native.Mathlib.Nat.{pow-suc}
use oep_client_python.Prelude.{
  ℕ, zero, suc, ◌+◌, ◌*◌, ◌/◌, ◌%◌, ◌^◌, ◌<◌, ◌≤◌, ◌≡◌, refl, arith, bit_xor,
}

abbrev xor_digits : ℕ → ℕ → ℕ → ℕ
xor_digits n a b = digits (λ b. b) differ n a b

xor_digits_fuel : (n m a b : ℕ) → a ≤ n → a ≤ m → xor_digits n a b ≡ xor_digits m a b
xor_digits_fuel zero zero a b p q = refl
xor_digits_fuel zero (suc m) zero b p q = refl
xor_digits_fuel zero (suc m) (suc a) b p q = absurd (omega arith)
xor_digits_fuel (suc n) zero zero b p q = refl
xor_digits_fuel (suc n) zero (suc a) b p q = absurd (omega arith)
xor_digits_fuel (suc n) (suc m) zero b p q = refl
xor_digits_fuel (suc n) (suc m) (suc a) b p q =
    omega (arith, xor_digits_fuel n m (suc a / 2) (b / 2) (omega arith) (omega arith))

-- The lowest digit and the others.
pub bit_xor_step : (a b : ℕ) → bit_xor a b ≡ bit_xor (a / 2) (b / 2) * 2 + differ (a % 2) (b % 2)
bit_xor_step zero b = omega (arith, bit_xor-bitwise 0 b, bit_xor-bitwise 0 (b / 2))
bit_xor_step (suc a) b = omega (
  arith,
  bit_xor-bitwise (suc a) b,
  bit_xor-bitwise (suc a / 2) (b / 2),
  xor_digits_fuel a (suc a / 2) (suc a / 2) (b / 2) (omega arith) (omega arith),
)

differ_lt : (p q : ℕ) → p < 2 → q < 2 → differ p q < 2
differ_lt zero q hp hq = hq
differ_lt (suc zero) zero hp hq = omega arith
differ_lt (suc zero) (suc zero) hp hq = omega arith
differ_lt (suc zero) (suc (suc q)) hp hq = absurd (omega arith)
differ_lt (suc (suc p)) q hp hq = absurd (omega arith)

differ_comm : (p q : ℕ) → differ p q ≡ differ q p
differ_comm zero zero = refl
differ_comm zero (suc q) = refl
differ_comm (suc p) zero = refl
differ_comm (suc p) (suc q) = differ_comm p q

differ_injective : (p q r : ℕ) → p < 2 → q < 2 → r < 2 → differ p q ≡ differ p r → q ≡ r
differ_injective zero q r hp hq hr e = e
differ_injective (suc zero) zero zero hp hq hr e = refl
differ_injective (suc zero) zero (suc zero) hp hq hr e = absurd (omega arith)
differ_injective (suc zero) (suc zero) zero hp hq hr e = absurd (omega arith)
differ_injective (suc zero) (suc zero) (suc zero) hp hq hr e = refl
differ_injective (suc zero) zero (suc (suc r)) hp hq hr e = absurd (omega arith)
differ_injective (suc zero) (suc zero) (suc (suc r)) hp hq hr e = absurd (omega arith)
differ_injective (suc zero) (suc (suc q)) r hp hq hr e = absurd (omega arith)
differ_injective (suc (suc p)) q r hp hq hr e = absurd (omega arith)

xor_comm_fuel : (n a b : ℕ) → a + b ≤ n → bit_xor a b ≡ bit_xor b a
xor_comm_fuel zero zero zero h = refl
xor_comm_fuel zero (suc a) b h = absurd (omega arith)
xor_comm_fuel zero zero (suc b) h = absurd (omega arith)
xor_comm_fuel (suc n) a b h = omega (
  arith,
  bit_xor_step a b,
  bit_xor_step b a,
  differ_comm (a % 2) (b % 2),
  xor_comm_fuel n (a / 2) (b / 2) (omega arith),
)

pub bit_xor_comm : (a b : ℕ) → bit_xor a b ≡ bit_xor b a
bit_xor_comm a b = xor_comm_fuel (a + b) a b (omega arith)

xor_injective_fuel : (n a x y : ℕ) → a + x + y ≤ n → bit_xor a x ≡ bit_xor a y → x ≡ y
xor_injective_fuel zero a x y h e = omega arith
xor_injective_fuel (suc n) a x y h e =
    let lx = differ_lt (a % 2) (x % 2) (omega arith) (omega arith) in
    let ly = differ_lt (a % 2) (y % 2) (omega arith) (omega arith) in
    let low : differ (a % 2) (x % 2) ≡ differ (a % 2) (y % 2) =
      omega (arith, bit_xor_step a x, bit_xor_step a y) in
    let high : bit_xor (a / 2) (x / 2) ≡ bit_xor (a / 2) (y / 2) =
      omega (arith, bit_xor_step a x, bit_xor_step a y) in
    let same : x % 2 ≡ y % 2 =
      differ_injective (a % 2) (x % 2) (y % 2) (omega arith) (omega arith) (omega arith) low in
    let halves = xor_injective_fuel n (a / 2) (x / 2) (y / 2) (omega arith) high in omega arith

-- Exclusive or with one number tells the others apart.
pub bit_xor_injective : (a x y : ℕ) → bit_xor a x ≡ bit_xor a y → x ≡ y
bit_xor_injective a x y = xor_injective_fuel (a + x + y) a x y (omega arith)

pub bit_xor_injective_left : (a x y : ℕ) → bit_xor x a ≡ bit_xor y a → x ≡ y
bit_xor_injective_left a x y e = bit_xor_injective a x y (rw (bit_xor_comm a x, bit_xor_comm a y) e)

pub bit_xor_lt : (k a b : ℕ) → a < 2 ^ k → b < 2 ^ k → bit_xor a b < 2 ^ k
bit_xor_lt zero zero zero ha hb = omega arith
bit_xor_lt zero (suc a) b ha hb = absurd (omega arith)
bit_xor_lt zero zero (suc b) ha hb = absurd (omega arith)
bit_xor_lt (suc k) a b ha hb =
    let space = pow-suc 2 k in
    omega (
      arith,
      bit_xor_step a b,
      differ_lt (a % 2) (b % 2) (omega arith) (omega arith),
      bit_xor_lt k (a / 2) (b / 2) (omega arith) (omega arith),
    )
