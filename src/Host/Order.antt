-- ===== src/Host/Order.antt =====
-- Traces of requests in which a session's corrs go on in order.
use oep_client_python.Prelude.{
  ℕ, ◌<◌, ◌≡◌, refl, true, false, List, [], ◌∷◌, ◌++◌, arith, ◌==◌, if◌then◌else◌,
}
use oep_client_python.VirtualCore.Record.{corr_distance}

-- Each corr sent with the session's id is ahead of the session's one before, as the probe asks.
unfoldable pub InOrder : ℕ → ℕ → List (ℕ × ℕ) → Type 0
InOrder sid last [] = Unit
InOrder sid last ((s, c) ∷ out) =
    (s ≡ sid → (0 < corr_distance c last) × (corr_distance c last < 0x8000))
    × InOrder sid (if s == sid then c else last) out

-- The session's last corr in a trace.
unfoldable pub last_in : ℕ → ℕ → List (ℕ × ℕ) → ℕ
last_in sid last [] = last
last_in sid last ((s, c) ∷ out) = last_in sid (if s == sid then c else last) out

pub InOrder-append :
    (sid last : ℕ) (xs ys : List (ℕ × ℕ))
    → InOrder sid last xs
    → InOrder sid (last_in sid last xs) ys
    → InOrder sid last (xs ++ ys)
unfolding InOrder last_in
InOrder-append sid last [] ys h k = k
InOrder-append sid last ((s, c) ∷ xs) ys (here, h) k =
    (here, InOrder-append sid (if s == sid then c else last) xs ys h k)

pub last_in-append :
    (sid last : ℕ) (xs ys : List (ℕ × ℕ))
    → last_in sid last (xs ++ ys) ≡ last_in sid (last_in sid last xs) ys
unfolding last_in
last_in-append sid last [] ys = refl
last_in-append sid last ((s, c) ∷ xs) ys = last_in-append sid (if s == sid then c else last) xs ys

pub InOrder-none : (sid last : ℕ) → InOrder sid last []
unfolding InOrder
InOrder-none sid last = tt

pub last_in_none : (sid last : ℕ) → last_in sid last [] ≡ last
unfolding last_in
last_in_none sid last = refl

pub InOrder-here :
    (sid last c : ℕ) (out : List (ℕ × ℕ))
    → 0 < corr_distance c last
    → corr_distance c last < 0x8000
    → InOrder sid c out
    → InOrder sid last ((sid, c) ∷ out)
unfolding InOrder
InOrder-here sid last c out low high h =
    let same : (sid == sid) ≡ true = ground arith in ((λ e. (low, high)), rw same h)

pub last_in_here :
    (sid last c : ℕ) (out : List (ℕ × ℕ)) → last_in sid last ((sid, c) ∷ out) ≡ last_in sid c out
unfolding last_in
last_in_here sid last c out = let same : (sid == sid) ≡ true = ground arith in rw same refl

pub InOrder-sessionless :
    (sid last c : ℕ) (out : List (ℕ × ℕ))
    → 0 < sid
    → InOrder sid last out
    → InOrder sid last ((0, c) ∷ out)
unfolding InOrder
InOrder-sessionless sid last c out above h =
    let other : (0 == sid) ≡ false = ground (arith, above) in
    ((λ e. absurd (omega (arith, e, above))), rw other h)

pub last_in_sessionless :
    (sid last c : ℕ) (out : List (ℕ × ℕ))
    → 0 < sid
    → last_in sid last ((0, c) ∷ out) ≡ last_in sid last out
unfolding last_in
last_in_sessionless sid last c out above =
    let other : (0 == sid) ≡ false = ground (arith, above) in rw other refl
