-- ===== src/VirtualCore/Replay.antt =====
-- A request sent again: the record answers it as before, and nothing but the clock's tick happens.
use oep_client_python.Prelude.{
  ℕ, ◌≤◌, ◌≡◌, refl, ap, ◌∙◌, inl, inr, Bool, true, false, not, ◌||◌, Option, none, some, List,
  arith, ltb, ◌==◌, length, Option-cases, Bool-cases,
}
use oep_client_python.Bytes.{Bytes, field}
use oep_client_python.Message.Tlv.Extensions.{bytes_eq_iff}
use oep_client_python.VirtualCore.State.{
  initial, Endpoint, Times, Entry, Core, same_id, release, tick,
}
use oep_client_python.VirtualCore.Record.{corr_of, sid_of, lookup, remembered, replay}
use oep_client_python.VirtualCore.Handle.{header_answer, execute, handle}
use oep_client_python.VirtualCore.Remember.{Fresh, entry_of, execute-Recorded}

-- The header's checks read the record alone.
abbrev record_only : Option ℕ → List (ℕ × Entry) → ℕ → Core
record_only last cache high = record initial { last = last; cache = cache; high = high }

header_answer_record :
    (request : Bytes) (c : Core)
    → header_answer request c ≡ header_answer request (record_only c.last c.cache c.high)
unfolding header_answer replay
header_answer_record request c = refl

pub header_answer-same :
    (request : Bytes) (c d : Core)
    → c.last ≡ d.last
    → c.cache ≡ d.cache
    → c.high ≡ d.high
    → header_answer request c ≡ header_answer request d
header_answer-same request c d last cache high =
    cc (header_answer_record request c, header_answer_record request d)

module _ (now : ℕ) (c : Core) where
  pub last-tick : (tick now c).last ≡ c.last
  unfolding tick release
  last-tick = ground arith

  pub cache-tick : (tick now c).cache ≡ c.cache
  unfolding tick release
  cache-tick = ground arith

  pub high-tick : (tick now c).high ≡ c.high
  unfolding tick release
  high-tick = ground arith

-- The state in which a request is checked.
abbrev pub begun : Times → Core → Core
begun t c = tick t.started (record c { renewal = none })

header_answer-begun :
    (request : Bytes) (t : Times) (c : Core)
    → header_answer request (begun t c) ≡ header_answer request c
header_answer-begun request t c =
    let c' = record c { renewal = none } in
    header_answer-same request (begun t c) c (last-tick t.started c') (cache-tick t.started c')
      (high-tick t.started c')

pub handle_again :
    (utf8 : Bytes → Bool) (ep : Endpoint) (t : Times) (transport : ℕ) (admission : Option ℕ)
    (request answer : Bytes) (c : Core)
    → ltb (length request) 10 || not (field request 0 1 == 1) ≡ false
    → header_answer request c ≡ some answer
    → handle utf8 ep t transport admission request c ≡ (some answer, begun t c)
unfolding handle
handle_again utf8 ep t transport admission request answer c form e =
    let e' = header_answer-begun request t c ∙ e in rw (form, e', handle) refl

-- Where the record has the request and its answer, and both are short enough to be kept, the header's
-- checks answer it again.
header_answer_again :
    (ep : Endpoint) (request answer : Bytes) (c d : Core)
    → header_answer request c ≡ none
    → (sid_of request == 0) ≡ false
    → same_id (sid_of request) d.last ≡ true
    → lookup (corr_of request) d.cache ≡ some (entry_of ep request answer)
    → length request ≤ ep.remember_max
    → length answer ≤ ep.remember_max
    → header_answer request d ≡ some answer
unfolding header_answer replay remembered
header_answer_again ep request answer c d before nonzero same found short short' =
    ground (arith, bytes_eq_iff request request)

Fresh-header_answer :
    (request : Bytes) (c : Core)
    → header_answer request c ≡ none
    → (sid_of request == 0) ≡ false
    → Fresh request c
unfolding header_answer replay
Fresh-header_answer request c e nonzero same = ground arith

-- A request of the session last opened, and its answer, are in the record after it.
pub handle-Recorded :
    (utf8 : Bytes → Bool) (ep : Endpoint) (t : Times) (transport : ℕ) (admission : Option ℕ)
    (request answer : Bytes) (c c1 : Core)
    → handle utf8 ep t transport admission request c ≡ (some answer, c1)
    → (sid_of request == 0) ≡ false
    → same_id (sid_of request) c1.last ≡ true
    → length request ≤ ep.remember_max
    → length answer ≤ ep.remember_max
    → ((ltb (length request) 10 || not (field request 0 1 == 1)) ≡ false)
      × (header_answer request c1 ≡ some answer)
unfolding handle
handle-Recorded utf8 ep t transport admission request answer c c1 e nonzero same short short' =
    elim (Bool-cases (ltb (length request) 10 || not (field request 0 1 == 1))) [
      | inl no_request ↦ cc (rw (no_request, handle) at e)
      | inr form ↦ elim (Option-cases (header_answer request (begun t c))) [
        | inr (a, early) ↦ let first = rw (form, early, handle) at e in (form, cc (first, early))
        | inl ran ↦
            let first = rw (form, ran, handle) at e in
            let done = execute utf8 ep t transport admission request (begun t c) in
            let fresh = Fresh-header_answer request (begun t c) ran nonzero in
            let after : done.1 ≡ c1 = ap (λ p. p.1) first in
            let same' : same_id (sid_of request) done.1.last ≡ true = rw after same in
            let found =
              execute-Recorded utf8 ep t transport admission request (begun t c) fresh nonzero
                same' in
            let answered : done.0 ≡ answer = cc (first) in
            (
              form,
              header_answer_again ep request answer (begun t c) c1 ran nonzero same
                  (cc (found, after, answered)) short short',
            )
      ]
    ]
