-- ===== src/Bits.antt =====
-- Masks of one byte as arithmetic, each a table checked by evaluation.
pub mod Or
pub mod Xor
use oep_client_python.Prelude.{
  ℕ, zero, suc, ◌+◌, ◌%◌, ◌<◌, ◌≡◌, refl, Bool, true, ◌&&◌, arith, ◌==◌, bit_and, bit_or,
}

-- Two functions agree below a bound; run it on small bounds only.
unfoldable pub agree_below : (ℕ → ℕ) → (ℕ → ℕ) → ℕ → Bool
agree_below f g zero = true
agree_below f g (suc n) = f n == g n && agree_below f g n

pub agree_below→eq : (f g : ℕ → ℕ) (n i : ℕ) → agree_below f g n ≡ true → i < n → f i ≡ g i
unfolding agree_below
agree_below→eq f g zero i e h = absurd (omega arith)
agree_below→eq f g (suc n) i e h = ground (arith, agree_below→eq f g n i)

pub and_127 : (b : ℕ) → b < 256 → bit_and b 0x7f ≡ b % 128
unfolding agree_below
and_127 b = agree_below→eq (λ n. bit_and n 0x7f) (λ n. n % 128) 256 b refl

pub or_128 : (b : ℕ) → b < 256 → bit_or b 0x80 ≡ b % 128 + 128
unfolding agree_below
or_128 b = agree_below→eq (λ n. bit_or n 0x80) (λ n. n % 128 + 128) 256 b refl

pub or_zero : (b : ℕ) → b < 256 → bit_or b 0 ≡ b
unfolding agree_below
or_zero b = agree_below→eq (λ n. bit_or n 0) (λ n. n) 256 b refl
