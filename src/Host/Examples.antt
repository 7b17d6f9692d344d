-- ===== src/Host/Examples.antt =====
-- A host near the end of the corrs, and its theorems at concrete sends.
use oep_client_python.Prelude.{ℕ, ◌≡◌, refl, Bool, true, false, none, some, List, [], ◌∷◌, arith}
use oep_client_python.VirtualCore.Record.{corr_distance}
use oep_client_python.Host.{
  Host, step, next_corr, note_corr, last_corr, short_of_room, session_room, send_all, session_for,
  send,
}
use oep_client_python.Host.Order.{InOrder}
use oep_client_python.Host.Room.{IsReady}
use oep_client_python.Host.Sends.{send_each, send_each-InOrder}

abbrev near_end : Host
near_end = record { corr = 65534; session = some 5; sid_corr = (5, 32769) ∷ []; kept = none }

abbrev sends : List (Bool × (Bool × ℕ))
sends = (false, (false, 1)) ∷ (true, (false, 1)) ∷ (false, (false, 2)) ∷ []

all_of_it : ℕ
unfolding send_each send session_for send_all session_room short_of_room next_corr note_corr
    last_corr step corr_distance IsReady
all_of_it = 0

-- The corr after 65535 is 1; the keepalive goes first, since the session's next corr would be too far on.
sent_near_end : (send_each sends near_end).0 ≡ (5, 65535) ∷ (0, 1) ∷ (5, 2) ∷ (0, 3) ∷ (0, 4) ∷ []
unfolding all_of_it
sent_near_end = refl

near_end-IsReady : IsReady 5 32769 near_end
unfolding all_of_it
near_end-IsReady = (refl, refl, omega arith, (omega arith, omega arith), omega arith, omega arith)

send_each-InOrder_example : InOrder 5 32769 (send_each sends near_end).0
send_each-InOrder_example =
    send_each-InOrder 5 32769 sends near_end (omega arith)
      (omega arith, (omega arith, (omega arith, tt))) near_end-IsReady
