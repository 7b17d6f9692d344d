-- ===== src/KeptSession/Reserve.antt =====
-- The corr in the file is ahead of every corr the host has sent, by less than half the space.
use oep_client_python.Prelude.{
  ℕ, ◌+◌, ◌<◌, ◌≤◌, ◌≡◌, refl, ◌⊎◌, inl, inr, ◌&&◌, some, arith, ltb, Bool-cases,
}
use oep_client_python.VirtualCore.Record.{corr_distance}
use oep_client_python.KeptSession.{Kept, ahead, reserve_after, opened, sent, previous}

abbrev pub IsCorr : ℕ → Type 0
IsCorr corr = (0 < corr) × (corr < 0x10000)

-- The session's id and a corr ahead of `corr` are in the file, at most the reserved block away.
unfoldable pub IsReserved : ℕ → ℕ → Kept → Type 0
IsReserved sid corr k =
    (k.sid ≡ some sid)
    × ((to : ℕ) × (k.reserved ≡ some to)
        × (k.file ≡ some (sid, to))
        × IsCorr to
        × (0 < corr_distance to corr)
        × (corr_distance to corr ≤ 1025))

pub corr_distance-ahead :
    (corr n : ℕ)
    → IsCorr corr
    → n < 0xffff
    → (n ≤ corr_distance (ahead corr n) corr) × (corr_distance (ahead corr n) corr ≤ n + 1)
unfolding corr_distance ahead
corr_distance-ahead corr n (low, high) lt = (omega arith, omega arith)

ahead-IsCorr : (corr n : ℕ) → IsCorr (ahead corr n)
unfolding ahead
ahead-IsCorr corr n = (omega arith, omega arith)

reserve_after-IsReserved :
    (sid corr : ℕ) (k : Kept)
    → IsCorr corr
    → k.sid ≡ some sid
    → IsReserved sid corr (reserve_after sid corr k)
unfolding reserve_after IsReserved
reserve_after-IsReserved sid corr k c e =
    let (low, high) = corr_distance-ahead corr 1024 c (omega arith) in
    (
      e,
      (
        ahead corr 1024,
        refl,
        refl,
        ahead-IsCorr corr 1024,
        omega (arith, low),
        omega (arith, high),
      ),
    )

sent_cases :
    (sid to next : ℕ) (k : Kept)
    → k.sid ≡ some sid
    → k.reserved ≡ some to
    → ((0 < corr_distance to next) × (corr_distance to next < 0x8000) × (sent next k ≡ k))
      ⊎ (sent next k ≡ reserve_after sid next k)
unfolding sent
sent_cases sid to next k e r =
    elim (Bool-cases (ltb 0 (corr_distance to next) && ltb (corr_distance to next) 0x8000)) [
      | inl near ↦ inl (ground (arith, near), ground (arith, near), ground (arith, e, r, near))
      | inr far ↦ inr (ground (arith, e, r, far))
    ]

distance_left :
    (to corr next : ℕ)
    → IsCorr to
    → IsCorr corr
    → IsCorr next
    → 0 < corr_distance next corr
    → corr_distance next corr ≤ 2
    → 0 < corr_distance to corr
    → corr_distance to corr ≤ 1025
    → corr_distance to next < 0x8000
    → corr_distance to next ≤ 1025
unfolding corr_distance
distance_left to corr next (t1, t2) (c1, c2) (n1, n2) above le low high near = omega arith

-- Where the file holds the open session's id and a corr ahead of the last one sent, and a request goes out
-- with the corr after that (1 on, or 2 around the end of the cycle), the file holds again the open session's id and a corr ahead of the one sent, by at most the reserved block and 1.
pub sent-IsReserved :
    (sid corr next : ℕ) (k : Kept)
    → IsCorr corr
    → IsCorr next
    → 0 < corr_distance next corr
    → corr_distance next corr ≤ 2
    → IsReserved sid corr k
    → IsReserved sid next (sent next k)
unfolding IsReserved
sent-IsReserved sid corr next k c n above le (e, (to, r, f, t, low, high)) =
    elim (sent_cases sid to next k e r) [
      | inl (more, near, keep) ↦
          rw keep (e, (to, r, f, t, more, distance_left to corr next t c n above le low high near))
      | inr again ↦ rw again (reserve_after-IsReserved sid next k n e)
    ]

pub opened-IsReserved :
    (sid corr : ℕ) (k : Kept) → IsCorr corr → IsReserved sid corr (opened sid corr k)
unfolding opened
opened-IsReserved sid corr k c =
    reserve_after-IsReserved sid corr (record k { sid = some sid }) c refl

previous_found :
    (sid corr : ℕ) (k : Kept)
    → 0 < sid
    → IsCorr corr
    → k.file ≡ some (sid, corr)
    → previous k ≡ some (sid, corr)
unfolding previous
previous_found sid corr k s (c, high) f = ground (arith, s, c, f)

distance_on :
    (to corr on : ℕ)
    → IsCorr to
    → IsCorr corr
    → IsCorr on
    → 0 < corr_distance to corr
    → corr_distance to corr ≤ 1025
    → corr_distance on to ≤ 1000
    → (0 < corr_distance on corr) × (corr_distance on corr < 0x8000)
unfolding corr_distance
distance_on to corr on (t1, t2) (c1, c2) (n1, n2) low high le = (omega arith, omega arith)

-- Where the file holds a session's id (not 0) and a corr reserved ahead of the last one sent, the next run
-- finds that session, and the corrs it goes on with, up to a thousand of them, are ahead of the last one
-- that run sent by less than half the space.
pub previous-IsReserved :
    (sid corr n : ℕ) (k : Kept)
    → 0 < sid
    → IsCorr corr
    → n < 1000
    → IsReserved sid corr k
    → (to : ℕ) × (previous k ≡ some (sid, to))
      × (0 < corr_distance (ahead to n) corr)
      × (corr_distance (ahead to n) corr < 0x8000)
unfolding IsReserved
previous-IsReserved sid corr n k s c lt (e, (to, r, f, t, low, high)) =
    let (from, up) = corr_distance-ahead to n t (omega arith) in
    let (near, far) =
      distance_on to corr (ahead to n) t c (ahead-IsCorr to n) low high (omega (arith, up)) in
    (to, previous_found sid to k s t f, near, far)
