-- ===== src/VirtualCore/Resend.antt =====
-- A request sent again later: what may lie between leaves the record of answered requests as it is.
use oep_client_python.Prelude.{
  ℕ, ◌<◌, ◌≤◌, ◌≡◌, ◌≢◌, refl, ◌∙◌, Bool, true, false, Option, some, ◌==◌, length,
}
use oep_client_python.Bytes.{Bytes}
use oep_client_python.VirtualCore.State.{Endpoint, Times, Core, same_id, tick}
use oep_client_python.VirtualCore.Record.{sid_of}
use oep_client_python.VirtualCore.Handle.{handle}
use oep_client_python.VirtualCore.Invariant.{IsCore}
use oep_client_python.VirtualCore.Lock.{is_forced, handle_other}
use oep_client_python.VirtualCore.Replay.{
  begun, last-tick, cache-tick, high-tick, header_answer-same, handle_again, handle-Recorded,
}

-- From a core to a later one, with any number of these in between: the clock, which may end the lease and with
-- it the session, and requests of other sessions, or of none, while a session holds the lock.
pub data Later (utf8 : Bytes → Bool) (ep : Endpoint) : Core → Core → Type 0 where
  at_once : {c : Core} → Later utf8 ep c c
  ticks : {c d : Core} (now : ℕ) → Later utf8 ep (tick now c) d → Later utf8 ep c d
  of_others :
      {c d : Core} (t : Times) (transport : ℕ) (admission : Option ℕ) (request : Bytes) (s : ℕ)
      → IsCore ep c
      → c.holder ≡ some s
      → t.started < c.deadline
      → sid_of request ≢ s
      → is_forced request ≡ false
      → Later utf8 ep (handle utf8 ep t transport admission request c).1 d
      → Later utf8 ep c d

-- The record of answered requests is the same.
record SameRecord (c d : Core) : Type 0 where
  last : d.last ≡ c.last
  cache : d.cache ≡ c.cache
  high : d.high ≡ c.high

SameRecord-trans : (c d e : Core) → SameRecord c d → SameRecord d e → SameRecord c e
SameRecord-trans c d e h k = record {
  last = k.last ∙ h.last;
  cache = k.cache ∙ h.cache;
  high = k.high ∙ h.high;
}

SameRecord-Later :
    (utf8 : Bytes → Bool) (ep : Endpoint) (c d : Core) → Later utf8 ep c d → SameRecord c d
SameRecord-Later utf8 ep c d at_once = record { last = refl; cache = refl; high = refl }
SameRecord-Later utf8 ep c d (ticks now rest) =
    SameRecord-trans c (tick now c) d
      (record { last = last-tick now c; cache = cache-tick now c; high = high-tick now c })
      (SameRecord-Later utf8 ep (tick now c) d rest)
SameRecord-Later utf8 ep c d
      (of_others t transport admission request s h held runs other gentle rest) =
    let after = (handle utf8 ep t transport admission request c).1 in
    let same = handle_other utf8 ep t transport admission request c s h held runs other gentle in
    SameRecord-trans c after d
      (record { last = rw same refl; cache = rw same refl; high = rw same refl })
      (SameRecord-Later utf8 ep after d rest)

-- A request of the session last opened that is sent again, with any admission, gets the same answer, and nothing
-- but the lock's expiry by the clock happens to the state: the request does not run twice. Between the two may
-- lie any time, the end of the session by its lease, and any requests of other sessions or of none that come
-- while a session holds the lock, an open with force aside, but no other request of the session. The request
-- and its answer are no longer than the endpoint remembers.
pub handle_resend :
    (utf8 : Bytes → Bool) (ep : Endpoint) (t t' : Times) (transport transport' : ℕ)
    (admission admission' : Option ℕ) (request answer : Bytes) (c c1 c2 : Core)
    → handle utf8 ep t transport admission request c ≡ (some answer, c1)
    → (sid_of request == 0) ≡ false
    → same_id (sid_of request) c1.last ≡ true
    → length request ≤ ep.remember_max
    → length answer ≤ ep.remember_max
    → Later utf8 ep c1 c2
    → handle utf8 ep t' transport' admission' request c2 ≡ (some answer, begun t' c2)
handle_resend utf8 ep t t' transport transport' admission admission' request answer c c1 c2 e
      nonzero same short short' later =
    let (form, found) =
      handle-Recorded utf8 ep t transport admission request answer c c1 e nonzero same short
        short' in
    let kept = SameRecord-Later utf8 ep c1 c2 later in
    handle_again utf8 ep t' transport' admission' request answer c2 form
      (header_answer-same request c2 c1 kept.last kept.cache kept.high ∙ found)
