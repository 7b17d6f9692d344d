-- ===== src/Host.antt =====
-- src/oep_client/host.py: the corrs that a host gives its requests, one counter for every session id it
-- sends, and the keepalive that goes first when the session's next corr would be too far ahead.
mod Order
mod Room
pub mod Sends
mod Examples
use oep_client_python.Prelude.{
  ℕ, zero, suc, ◌+◌, ◌-◌, ◌%◌, Bool, true, false, not, Option, none, some, List, [], ◌∷◌, ◌++◌, ltb,
  ◌==◌, if◌then◌else◌,
}
use oep_client_python.VirtualCore.Record.{corr_distance}
use oep_client_python.KeptSession.{Kept, sent}

-- Host's `_corr`, `session`, `_sid_corr` and `kept`.
pub record Host : Type 0 where
  pub corr : ℕ
  pub session : Option ℕ
  pub sid_corr : List (ℕ × ℕ)
  pub kept : Option Kept

unfoldable pub step : ℕ → ℕ
step corr = corr % 0xffff + 1

-- self._sid_corr[sid] = corr, and its get
unfoldable pub note_corr : ℕ → ℕ → List (ℕ × ℕ) → List (ℕ × ℕ)
note_corr sid corr [] = (sid, corr) ∷ []
note_corr sid corr ((s, c) ∷ table) =
    let rest = note_corr sid corr table in if s == sid then (s, corr) ∷ table else (s, c) ∷ rest

unfoldable pub last_corr : ℕ → List (ℕ × ℕ) → Option ℕ
last_corr sid [] = none
last_corr sid ((s, c) ∷ table) = if s == sid then some c else last_corr sid table

unfoldable pub next_corr : ℕ → Host → Host
next_corr sid h =
    let corr = step h.corr in
    record h {
      corr = corr;
      sid_corr = if not (sid == 0) then note_corr sid corr h.sid_corr else h.sid_corr;
      kept = (elim h.kept [ none ↦ none | some k ↦ some (sent corr k) ]);
    }

-- for _ in range(n): nxt = nxt % 0xFFFF + 1
unfoldable pub steps : ℕ → ℕ → ℕ
steps zero corr = corr
steps (suc n) corr = steps n (step corr)

-- Whether `_session_room` sends a keepalive: the session whose it is.
unfoldable pub short_of_room : ℕ → Host → Option ℕ
unfolding steps
short_of_room n h = elim h.session [
  | none ↦ none
  | some sid ↦ elim (last_corr sid h.sid_corr) [
    | none ↦ none
    | some last ↦ if ltb (corr_distance (steps (suc n) h.corr) last) 0x8000 then none else some sid
  ]
]

-- `_session_room`: the keepalive's answer says whether the session is gone (rejected no_session). The
-- requests that go out, each its session id and its corr, and the host after them.
unfoldable pub session_room : Bool → ℕ → Host → List (ℕ × ℕ) × Host
session_room gone n h = elim (short_of_room n h) [
  | none ↦ ([], h)
  | some sid ↦
      let kept_alive = next_corr sid h in
      (
        (sid, kept_alive.corr) ∷ [],
        if gone then record kept_alive { session = none } else kept_alive,
      )
]

-- The corrs of `pipeline`'s requests.
unfoldable pub send_all : ℕ → ℕ → Host → List (ℕ × ℕ) × Host
send_all sid zero h = ([], h)
send_all sid (suc n) h =
    let one = next_corr sid h in
    let (out, after) = send_all sid n one in ((sid, one.corr) ∷ out, after)

-- `_session_for`, after a confirm
unfoldable pub session_for : Bool → Host → ℕ
session_for locked h = if locked then (elim h.session [ none ↦ 0 | some sid ↦ sid ]) else 0

-- What `request` (one) and `pipeline` (any number) send.
unfoldable pub send : Bool → Bool → ℕ → Host → List (ℕ × ℕ) × Host
unfolding session_for
send locked gone n h =
    let sid = session_for locked h in
    let (first, ready) = if sid == 0 then session_room gone n h else ([], h) in
    let (out, after) = send_all sid n ready in (first ++ out, after)
