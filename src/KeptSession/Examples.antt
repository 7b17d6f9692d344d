-- ===== src/KeptSession/Examples.antt =====
-- A kept session near the end of its reserved corrs, and the theorems at it.
use oep_client_python.Prelude.{ℕ, ◌<◌, ◌≡◌, refl, none, some, arith}
use oep_client_python.VirtualCore.Record.{corr_distance}
use oep_client_python.KeptSession.{Kept, ahead, opened, sent, previous}
use oep_client_python.KeptSession.Reserve.{
  IsReserved, opened-IsReserved, sent-IsReserved, previous-IsReserved,
}

abbrev empty : Kept
empty = record { sid = none; reserved = none; file = none }

-- Opened with corr 65000: the corr in the file is past the end of the cycle.
abbrev kept : Kept
kept = opened 5 65000 empty

kept_file : kept.file ≡ some (5, 489)
unfolding opened ahead
kept_file = refl

kept-IsReserved : IsReserved 5 65000 kept
kept-IsReserved = opened-IsReserved 5 65000 empty (omega arith, omega arith)

next-distance : corr_distance 65001 65000 ≡ 1
unfolding corr_distance
next-distance = refl

sent-IsReserved_example : IsReserved 5 65001 (sent 65001 kept)
sent-IsReserved_example =
    sent-IsReserved 5 65000 65001 kept (omega arith, omega arith) (omega arith, omega arith)
      (omega (arith, next-distance)) (omega (arith, next-distance)) kept-IsReserved

previous-IsReserved_example :
    (to : ℕ) × (previous kept ≡ some (5, to))
    × (0 < corr_distance (ahead to 2) 65000)
    × (corr_distance (ahead to 2) 65000 < 0x8000)
previous-IsReserved_example =
    previous-IsReserved 5 65000 2 kept (omega arith) (omega arith, omega arith) (omega arith)
      kept-IsReserved
