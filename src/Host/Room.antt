-- ===== src/Host/Room.antt =====
-- The corrs a host sends with a session's id are each ahead of the session's one before, by less than half
-- the space, whatever it sends outside the session in between.
use oep_client_python.Prelude.{
  ℕ, zero, suc, ◌+◌, ◌%◌, ◌<◌, ◌≡◌, refl, ◌∙◌, ◌⊎◌, inl, inr, Bool, true, false, none, some, List,
  [], ◌∷◌, arith, ltb, Bool-cases, if◌then◌else◌,
}
use oep_client_python.VirtualCore.Record.{corr_distance}
use oep_client_python.KeptSession.Reserve.{IsCorr}
use oep_client_python.Host.{
  Host, step, steps, note_corr, last_corr, next_corr, short_of_room, session_room, send_all,
}
use oep_client_python.Host.Order.{
  InOrder, last_in, InOrder-none, last_in_none, InOrder-here, last_in_here, InOrder-sessionless,
  last_in_sessionless,
}

-- The session is open, `last` is the last corr sent with it, and the next corr is ahead of that.
unfoldable pub IsReady : ℕ → ℕ → Host → Type 0
IsReady sid last h =
    (h.session ≡ some sid)
    × (last_corr sid h.sid_corr ≡ some last)
    × (h.corr < 0x10000)
    × IsCorr last
    × (0 < corr_distance (step h.corr) last)
    × (corr_distance (step h.corr) last < 0x8000)

steps_closed : (n corr : ℕ) → steps (suc n) corr ≡ (corr + n) % 0xffff + 1
unfolding steps step
steps_closed zero corr = omega arith
steps_closed (suc n) corr = steps_closed n (corr % 0xffff + 1) ∙ omega arith

pub step-steps : (n corr : ℕ) → step (steps n corr) ≡ steps (suc n) corr
unfolding steps
step-steps zero corr = refl
step-steps (suc n) corr = step-steps n (step corr)

pub steps-lt : (n corr : ℕ) → corr < 0x10000 → steps n corr < 0x10000
unfolding steps step
steps-lt zero corr h = h
steps-lt (suc n) corr h = steps-lt n (corr % 0xffff + 1) (omega arith)

step-IsCorr : (corr : ℕ) → IsCorr (step corr)
unfolding step
step-IsCorr corr = (omega arith, omega arith)

last_corr-note_corr :
    (sid corr : ℕ) (table : List (ℕ × ℕ)) → last_corr sid (note_corr sid corr table) ≡ some corr
unfolding last_corr note_corr
last_corr-note_corr sid corr [] = ground arith
last_corr-note_corr sid corr ((s, c) ∷ table) = ground (arith, last_corr-note_corr sid corr table)

-- Further corrs stay ahead of one that the first of them is ahead of.
pub distance-steps :
    (n corr last : ℕ)
    → corr < 0x10000
    → IsCorr last
    → 0 < corr_distance (step corr) last
    → corr_distance (step corr) last < 0x8000
    → n < 0x7000
    → 0 < corr_distance (steps (suc n) corr) last
unfolding corr_distance step
distance-steps n corr last c (l1, l2) low high lt = rw (steps_closed n corr) (omega arith)

distance_after :
    (n last : ℕ)
    → IsCorr last
    → n < 0x7000
    → (0 < corr_distance (steps (suc n) last) last)
      × (corr_distance (steps (suc n) last) last < 0x8000)
unfolding corr_distance
distance_after n last (l1, l2) lt = rw (steps_closed n last) (omega arith, omega arith)

next_corr-IsReady :
    (sid last : ℕ) (h : Host)
    → 0 < sid
    → IsReady sid last h
    → IsReady sid (step h.corr) (next_corr sid h)
unfolding next_corr IsReady step steps
next_corr-IsReady sid last h above (s, l, c, lc, low, high) =
    let (near, far) = distance_after 0 (step h.corr) (step-IsCorr h.corr) (omega arith) in
    (
      s,
      ground (arith, above, last_corr-note_corr sid (step h.corr) h.sid_corr),
      (step-IsCorr h.corr).1,
      step-IsCorr h.corr,
      near,
      far,
    )

IsReady-distance :
    (sid last : ℕ) (h : Host)
    → IsReady sid last h
    → (0 < corr_distance (step h.corr) last) × (corr_distance (step h.corr) last < 0x8000)
unfolding IsReady
IsReady-distance sid last h (_, _, _, _, low, high) = (low, high)

-- Requests of the session, one after the other.
pub send_all-IsReady :
    (sid last n : ℕ) (h : Host)
    → 0 < sid
    → IsReady sid last h
    → InOrder sid last (send_all sid n h).0
      × IsReady sid (last_in sid last (send_all sid n h).0) (send_all sid n h).1
unfolding send_all next_corr
send_all-IsReady sid last zero h above ready =
    (InOrder-none sid last, rw (last_in_none sid last) ready)
send_all-IsReady sid last (suc n) h above ready =
    let next = next_corr-IsReady sid last h above ready in
    let (order, rest) = send_all-IsReady sid (step h.corr) n (next_corr sid h) above next in
    let (low, high) = IsReady-distance sid last h ready in
    (
      InOrder-here sid last (step h.corr) (send_all sid n (next_corr sid h)).0 low high order,
      rw (last_in_here sid last (step h.corr) (send_all sid n (next_corr sid h)).0) rest,
    )

-- Requests outside the session leave its last corr.
pub send_all_free :
    (sid last n : ℕ) (h : Host)
    → 0 < sid
    → InOrder sid last (send_all 0 n h).0
      × (last_in sid last (send_all 0 n h).0 ≡ last)
      × ((send_all 0 n h).1.session ≡ h.session)
      × ((send_all 0 n h).1.sid_corr ≡ h.sid_corr)
      × ((send_all 0 n h).1.corr ≡ steps n h.corr)
unfolding send_all next_corr steps
send_all_free sid last zero h above =
    (InOrder-none sid last, last_in_none sid last, refl, refl, refl)
send_all_free sid last (suc n) h above =
    let (order, same, s, t, c) = send_all_free sid last n (next_corr 0 h) above in
    let out = (send_all 0 n (next_corr 0 h)).0 in
    (
      InOrder-sessionless sid last (step h.corr) out above order,
      last_in_sessionless sid last (step h.corr) out above ∙ same,
      s,
      t,
      c,
    )

-- What `_session_room` leaves: room for n requests outside the session and the session's next one.
abbrev pub HasRoom : ℕ → ℕ → ℕ → Host → Type 0
HasRoom n sid last h = IsReady sid last h × (corr_distance (steps (suc n) h.corr) last < 0x8000)

short_of_room_cases :
    (n sid last : ℕ) (h : Host)
    → IsReady sid last h
    → ((short_of_room n h ≡ none) × (corr_distance (steps (suc n) h.corr) last < 0x8000))
      ⊎ (short_of_room n h ≡ some sid)
unfolding short_of_room IsReady
short_of_room_cases n sid last h (s, l, _, _, _, _) =
    elim (Bool-cases (ltb (corr_distance (steps (suc n) h.corr) last) 0x8000)) [
      | inl near ↦ inl (ground (arith, s, l, near), ground (arith, near))
      | inr far ↦ inr (ground (arith, s, l, far))
    ]

no_keepalive :
    (gone : Bool) (n : ℕ) (h : Host) → short_of_room n h ≡ none → session_room gone n h ≡ ([], h)
unfolding session_room
no_keepalive gone n h e = ground (arith, e)

keepalive_first :
    (gone : Bool) (n sid : ℕ) (h : Host)
    → short_of_room n h ≡ some sid
    → session_room gone n h ≡ (
      (sid, step h.corr) ∷ [],
      if gone then (record (next_corr sid h) { session = none }) else next_corr sid h,
    )
unfolding session_room next_corr
keepalive_first gone n sid h e = rw (e, session_room) refl

kept_alive-HasRoom :
    (gone : Bool) (n sid last : ℕ) (h : Host)
    → 0 < sid
    → n < 0x7000
    → IsReady sid last h
    → let after = if gone then (record (next_corr sid h) { session = none }) else next_corr sid h in
      HasRoom n sid (step h.corr) after ⊎ (after.session ≡ none)
unfolding next_corr
kept_alive-HasRoom true n sid last h above lt ready = inr refl
kept_alive-HasRoom false n sid last h above lt ready = inl (
  next_corr-IsReady sid last h above ready,
  (distance_after n (step h.corr) (step-IsCorr h.corr) lt).1,
)

pub session_room-HasRoom :
    (gone : Bool) (sid last n : ℕ) (h : Host)
    → 0 < sid
    → n < 0x7000
    → IsReady sid last h
    → InOrder sid last (session_room gone n h).0
      × (HasRoom n sid (last_in sid last (session_room gone n h).0) (session_room gone n h).1
          ⊎ ((session_room gone n h).1.session ≡ none))
session_room-HasRoom gone sid last n h above lt ready =
    elim (short_of_room_cases n sid last h ready) [
      | inl (e, near) ↦
          rw (no_keepalive gone n h e, last_in_none sid last)
            (InOrder-none sid last, inl (ready, near))
      | inr e ↦
          let (low, high) = IsReady-distance sid last h ready in
          let order =
            InOrder-here sid last (step h.corr) [] low high (InOrder-none sid (step h.corr)) in
          rw
            (
              keepalive_first gone n sid h e,
              last_in_here sid last (step h.corr) [],
              last_in_none sid (step h.corr),
            )
            (order, kept_alive-HasRoom gone n sid last h above lt ready)
    ]
