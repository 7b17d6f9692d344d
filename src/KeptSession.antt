-- ===== src/KeptSession.antt =====
-- src/oep_client/kept_session.py: the session id and the corr that a host keeps in a file for its next run.
-- The file is the pair that its text spells, or none when it is empty.
pub mod Reserve
mod Examples
use oep_client_python.Prelude.{
  ℕ, ◌+◌, ◌-◌, ◌%◌, Bool, not, ◌&&◌, Option, none, some, ltb, ◌==◌, if◌then◌else◌,
}
use oep_client_python.VirtualCore.Record.{corr_distance}

abbrev pub reserve : ℕ
reserve = 1024

-- (corr - 1 + n) % 0xFFFF + 1, where Python's % of a negative number is not negative
unfoldable pub ahead : ℕ → ℕ → ℕ
ahead corr n = (corr + 0xfffe + n) % 0xffff + 1

-- KeptSession's fields that change while it has the file.
pub record Kept : Type 0 where
  pub sid : Option ℕ
  pub reserved : Option ℕ
  pub file : Option (ℕ × ℕ)

-- `_reserve`; the id it writes is the one of the open session.
unfoldable pub reserve_after : ℕ → ℕ → Kept → Kept
reserve_after sid corr k = record k {
  reserved = some (ahead corr reserve);
  file = some (sid, ahead corr reserve);
}

unfoldable pub opened : ℕ → ℕ → Kept → Kept
unfolding reserve_after
opened sid corr k = reserve_after sid corr (record k { sid = some sid })

unfoldable pub sent : ℕ → Kept → Kept
unfolding reserve_after
sent corr k = elim k.sid [
  | none ↦ k
  | some sid ↦ elim k.reserved [
    | none ↦ k
    | some to ↦
        let left = corr_distance to corr in
        if not (ltb 0 left && ltb left 0x8000) then reserve_after sid corr k else k
  ]
]

unfoldable pub ended : Kept → Kept
ended k = record k { sid = none; reserved = none; file = none }

-- `before_open`: the session of the run before, and the corr to go on after, when the file has both; an id
-- or a corr of 0 counts as none.
unfoldable pub previous : Kept → Option (ℕ × ℕ)
previous k = elim k.file [
  | none ↦ none
  | some (sid, corr) ↦ if not (sid == 0) && not (corr == 0) then some (sid, corr) else none
]
