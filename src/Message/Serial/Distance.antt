-- ===== src/Message/Serial/Distance.antt =====
-- Serials as the low bits of positions that only grow: the wrapped difference of two positions not too
-- far apart is their true difference.
use oep_client_python.Prelude.{
  ℕ, zero, suc, ◌+◌, ◌-◌, ◌*◌, ◌%◌, ◌^◌, ◌<◌, ◌≤◌, ◌≡◌, refl, sym, ap, ◌∙◌, ◌⊎◌, inl, inr, Bool,
  true, Option, none, some, arith, pos, negsuc,
}
use native.Mathlib.Nat.{
  pow-suc, mod-eq_of_lt, mod-lt, mod-mod, mod-add-mod, add-mod-mod, mod-eq-sub-mod, add-mod_right,
}
use native.Mathlib.Decide.{dec_lt}
use oep_client_python.Message.Serial.{wrapped_diff, serial_diff, serials_lost}

module _ (m r d : ℕ) (in_range : r < m) (close : d < m) where
  mod_sum : ((r + d) % m ≡ r + d) × (r + d < m) ⊎ ((r + d) % m + m ≡ r + d) × (m ≤ r + d)
  mod_sum = elim (dec_lt (r + d) m) [
    | yes lt ↦ inl (mod-eq_of_lt lt, lt)
    | no ge ↦
        let le : m ≤ r + d = omega arith in
        let low : r + d - m < m = omega arith in
        inr (omega (arith, mod-eq-sub-mod le, mod-eq_of_lt low), le)
  ]

  mod_forward : ((r + d) % m + m - r) % m ≡ d
  mod_forward = elim mod_sum [
    | inl (e, lt) ↦ rw e (
        let same : r + d + m - r ≡ d + m = omega arith in
        rw (same, add-mod_right d m) (mod-eq_of_lt close))
    | inr (e, le) ↦ let same : (r + d) % m + m - r ≡ d = omega arith in rw same (mod-eq_of_lt close)
  ]

  mod_backward : 0 < d → (r + m - (r + d) % m) % m ≡ m - d
  mod_backward moved = elim mod_sum [
    | inl (e, lt) ↦
        rw e
          (let same : r + m - (r + d) ≡ m - d = omega arith in rw same (mod-eq_of_lt (omega arith)))
    | inr (e, le) ↦
        let same : r + m - (r + d) % m ≡ m - d + m = omega arith in
        rw (same, add-mod_right (m - d) m) (mod-eq_of_lt (omega arith))
  ]

module _ (p d bits : ℕ) (close : d < 2 ^ bits) where
  wrapped_diff_forward : wrapped_diff ((p + d) % 2 ^ bits) (p % 2 ^ bits) bits ≡ d
  unfolding wrapped_diff
  wrapped_diff_forward =
      rw (mod-mod, mod-mod, ← mod-add-mod p (2 ^ bits) d)
        (mod_forward (2 ^ bits) (p % 2 ^ bits) d (mod-lt p (omega arith)) close)

  wrapped_diff_backward :
      0 < d → wrapped_diff (p % 2 ^ bits) ((p + d) % 2 ^ bits) bits ≡ 2 ^ bits - d
  unfolding wrapped_diff
  wrapped_diff_backward moved =
      rw (mod-mod, mod-mod, ← mod-add-mod p (2 ^ bits) d)
        (mod_backward (2 ^ bits) (p % 2 ^ bits) d (mod-lt p (omega arith)) close moved)

-- Two positions less than half the space apart, the second not behind the first: the wrapped
-- difference of their low bits is the distance, and from the second back to the first its negation.
pub serial_diff_near :
    (p d k : ℕ)
    → d < 2 ^ k
    → (serial_diff ((p + d) % 2 ^ suc k) (p % 2 ^ suc k) (suc k) ≡ pos d)
      × (0 < d → serial_diff (p % 2 ^ suc k) ((p + d) % 2 ^ suc k) (suc k) ≡ negsuc (d - 1))
unfolding serial_diff
serial_diff_near p d k near =
    let space : 2 ^ suc k ≡ 2 ^ k * 2 = pow-suc 2 k in
    let half : suc k - 1 ≡ k = omega arith in
    let close : d < 2 ^ suc k = omega arith in
    (
      ground (arith, wrapped_diff_forward p d (suc k) close),
      λ moved. ground (arith, wrapped_diff_backward p d (suc k) close moved),
    )

-- The elements lost between two pages of one stream: with the last serial read that of position p and
-- the next page's first that of position p + 1 + lost, in a space of 2 ^ bits serials of which the jump is
-- less than a quarter, the count is `lost`.
pub serials_lost_exact :
    (p lost k : ℕ)
    → lost + 1 < 2 ^ k
    → serials_lost
        (some (p % 2 ^ suc (suc k)))
        ((p + (lost + 1)) % 2 ^ suc (suc k))
        true
        (suc (suc k))
      ≡ some lost
unfolding serials_lost
serials_lost_exact p lost k near =
    let half : 2 ^ suc k ≡ 2 ^ k * 2 = pow-suc 2 k in
    let quarter : suc (suc k) - 2 ≡ k = omega arith in
    let d = (serial_diff_near p (lost + 1) (suc k) (omega arith)).0 in
    rw (d, quarter) (ground arith)

two_pow_pos : (n : ℕ) → 0 < 2 ^ n
two_pow_pos zero = omega arith
two_pow_pos (suc n) = omega (arith, two_pow_pos n, pow-suc 2 n)

wrapped_diff_sound :
    (first a bits : ℕ) → (a + wrapped_diff first a bits) % 2 ^ bits ≡ first % 2 ^ bits
unfolding wrapped_diff
wrapped_diff_sound first a bits =
    let m : ℕ = 2 ^ bits in
    let r = a % m in
    let f = first % m in
    let low : r < m = mod-lt a (two_pow_pos bits) in
    let whole : r + (f + m - r) ≡ f + m = omega arith in
    sym (mod-add-mod a m ((f + m - r) % m))
    ∙ add-mod-mod r (f + m - r) m
    ∙ ap (λ t. t % m) whole
    ∙ add-mod_right f m
    ∙ mod-mod first m

-- What `serials_lost` counts is there: an answer n is given only for the same stream, and then the next page's
-- first serial is the last one and n + 1 further, a jump of less than a quarter of the space.
pub serials_lost_sound :
    (last : Option ℕ) (first n bits : ℕ) (same_stream : Bool)
    → serials_lost last first same_stream bits ≡ some n
    → (same_stream ≡ true)
      × (n + 1 < 2 ^ (bits - 2))
      × ((a : ℕ) × (last ≡ some a) × ((a + (n + 1)) % 2 ^ bits ≡ first % 2 ^ bits))
unfolding serials_lost
serials_lost_sound none first n bits same_stream e = cc
serials_lost_sound (some a) first n bits same_stream e =
    let d = wrapped_diff first a bits in
    let e' : (same_stream ≡ true) × (0 < d) × (d < 2 ^ (bits - 2)) × (n ≡ d - 1) = ground arith in
    let same : a + (n + 1) ≡ a + d = omega (arith, e'.1, e'.3) in
    (e'.0, omega (arith, e'.1, e'.2, e'.3), (a, refl, rw same (wrapped_diff_sound first a bits)))
