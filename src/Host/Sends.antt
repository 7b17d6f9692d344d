-- ===== src/Host/Sends.antt =====
-- Whatever a host sends in and outside its session, the session's corrs go on in order.
use oep_client_python.Prelude.{
  ℕ, ◌<◌, ◌≡◌, refl, ◌∙◌, ◌⊎◌, inl, inr, Bool, true, false, none, List, [], ◌∷◌, ◌++◌, arith, ◌==◌,
  All,
}
use oep_client_python.Host.{Host, session_room, send_all, session_for, short_of_room, send}
use oep_client_python.Host.Order.{
  InOrder, last_in, InOrder-append, last_in-append, InOrder-none, last_in_none,
}
use oep_client_python.Host.Room.{
  IsReady, HasRoom, session_room-HasRoom, send_all-IsReady, send_all_free, step-steps,
  distance-steps, steps-lt,
}

-- One `request` or `pipeline` after the other: whether it is sent in the session, whether a keepalive that
-- goes first finds the session gone, and the number of its requests.
unfoldable pub send_each : List (Bool × (Bool × ℕ)) → Host → List (ℕ × ℕ) × Host
send_each [] h = ([], h)
send_each ((locked, (gone, n)) ∷ more) h =
    let (out, after) = send locked gone n h in
    let (rest, last) = send_each more after in (out ++ rest, last)

Keeps : ℕ → ℕ → List (ℕ × ℕ) × Host → Type 0
Keeps sid last (out, after) =
    InOrder sid last out × (IsReady sid (last_in sid last out) after ⊎ (after.session ≡ none))

send_all_free-Keeps :
    (sid last n : ℕ) (h : Host)
    → 0 < sid
    → n < 0x7000
    → HasRoom n sid last h ⊎ (h.session ≡ none)
    → Keeps sid last (send_all 0 n h)
unfolding Keeps IsReady
send_all_free-Keeps sid last n h above lt (inr e) =
    let (order, same, s, t, c) = send_all_free sid last n h above in (order, inr (s ∙ e))
send_all_free-Keeps sid last n h above lt (inl ((s0, l, b, lc, low, high), near)) =
    let (order, same, s, t, c) = send_all_free sid last n h above in
    let far = distance-steps n h.corr last b lc low high lt in
    (
      order,
      inl (rw (same, c, step-steps n h.corr) (s ∙ s0, rw t l, steps-lt n h.corr b, lc, far, near)),
    )

Keeps-append :
    (sid last : ℕ) (xs ys : List (ℕ × ℕ)) (after : Host)
    → InOrder sid last xs
    → Keeps sid (last_in sid last xs) (ys, after)
    → Keeps sid last (xs ++ ys, after)
unfolding Keeps
Keeps-append sid last xs ys after h (order, rest) =
    (InOrder-append sid last xs ys h order, rw (last_in-append sid last xs ys) rest)

send_inside :
    (locked gone : Bool) (sid n : ℕ) (h : Host)
    → 0 < sid
    → session_for locked h ≡ sid
    → send locked gone n h ≡ send_all sid n h
unfolding send
send_inside locked gone sid n h above e =
    let other : (sid == 0) ≡ false = ground (arith, above) in rw (e, other, send) refl

send_outside :
    (locked gone : Bool) (n : ℕ) (h : Host)
    → session_for locked h ≡ 0
    → send locked gone n h ≡ (
      (session_room gone n h).0 ++ (send_all 0 n (session_room gone n h).1).0,
      (send_all 0 n (session_room gone n h).1).1,
    )
unfolding send
send_outside locked gone n h e = rw (e, send) refl

session_for_cases :
    (locked : Bool) (sid last : ℕ) (h : Host)
    → IsReady sid last h
    → (session_for locked h ≡ sid) ⊎ (session_for locked h ≡ 0)
unfolding session_for IsReady
session_for_cases true sid last h (e, _, _, _, _, _) = inl (ground (arith, e))
session_for_cases false sid last h ready = inr refl

no_session_id : (locked : Bool) (h : Host) → h.session ≡ none → session_for locked h ≡ 0
unfolding session_for
no_session_id true h e = ground (arith, e)
no_session_id false h e = refl

no_keepalive_outside :
    (gone : Bool) (n : ℕ) (h : Host) → h.session ≡ none → session_room gone n h ≡ ([], h)
unfolding session_room short_of_room
no_keepalive_outside gone n h e = ground (arith, e)

send_all-Keeps :
    (sid last n : ℕ) (h : Host) → 0 < sid → IsReady sid last h → Keeps sid last (send_all sid n h)
unfolding Keeps
send_all-Keeps sid last n h above ready =
    let (order, rest) = send_all-IsReady sid last n h above ready in (order, inl rest)

send-Keeps :
    (locked gone : Bool) (sid last n : ℕ) (h : Host)
    → 0 < sid
    → n < 0x7000
    → IsReady sid last h ⊎ (h.session ≡ none)
    → Keeps sid last (send locked gone n h)
send-Keeps locked gone sid last n h above lt (inr e) =
    rw (send_outside locked gone n h (no_session_id locked h e), no_keepalive_outside gone n h e)
      (send_all_free-Keeps sid last n h above lt (inr e))
send-Keeps locked gone sid last n h above lt (inl ready) =
    elim (session_for_cases locked sid last h ready) [
      | inl e ↦
          rw (send_inside locked gone sid n h above e) (send_all-Keeps sid last n h above ready)
      | inr e ↦
          let (order, room) = session_room-HasRoom gone sid last n h above lt ready in
          let roomy = (session_room gone n h).1 in
          let last' = last_in sid last (session_room gone n h).0 in
          rw (send_outside locked gone n h e) (
            Keeps-append sid last (session_room gone n h).0 (send_all 0 n roomy).0
              (send_all 0 n roomy).1 order (send_all_free-Keeps sid last' n roomy above lt room))
    ]

nothing-Keeps :
    (sid last : ℕ) (h : Host) → IsReady sid last h ⊎ (h.session ≡ none) → Keeps sid last ([], h)
unfolding Keeps
nothing-Keeps sid last h ready = (InOrder-none sid last, rw (last_in_none sid last) ready)

opened_Keeps :
    (sid last : ℕ) (sent : List (ℕ × ℕ) × Host)
    → Keeps sid last sent
    → InOrder sid last sent.0
      × (IsReady sid (last_in sid last sent.0) sent.1 ⊎ (sent.1.session ≡ none))
unfolding Keeps
opened_Keeps sid last sent k = k

send_each-Keeps :
    (sid last : ℕ) (sends : List (Bool × (Bool × ℕ))) (h : Host)
    → 0 < sid
    → All (λ s. s.1.1 < 0x7000) sends
    → IsReady sid last h ⊎ (h.session ≡ none)
    → Keeps sid last (send_each sends h)
unfolding send_each
send_each-Keeps sid last [] h above few ready = nothing-Keeps sid last h ready
send_each-Keeps sid last ((locked, (gone, n)) ∷ sends) h above (lt, few) ready =
    let (order, after) =
      opened_Keeps sid last (send locked gone n h)
        (send-Keeps locked gone sid last n h above lt ready) in
    let one = send locked gone n h in
    let rest = send_each-Keeps sid (last_in sid last one.0) sends one.1 above few after in
    Keeps-append sid last one.0 (send_each sends one.1).0 (send_each sends one.1).1 order rest

-- A host with an open session, whose next corr is ahead of the session's last one by less than half the
-- space, sends requests and pipelines (each of fewer than 0x7000 requests) in any order, in the session and
-- outside it; the keepalives that this needs go out by themselves, and any of them may find the session gone.
-- Then each request of the session has a corr ahead of the session's one before by less than half the space:
-- the corrs that a probe takes for new ones.
pub send_each-InOrder :
    (sid last : ℕ) (sends : List (Bool × (Bool × ℕ))) (h : Host)
    → 0 < sid
    → All (λ s. s.1.1 < 0x7000) sends
    → IsReady sid last h
    → InOrder sid last (send_each sends h).0
unfolding Keeps
send_each-InOrder sid last sends h above few ready =
    (send_each-Keeps sid last sends h above few (inl ready)).0
