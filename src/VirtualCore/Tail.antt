-- ===== src/VirtualCore/Tail.antt =====
-- src/oep_client/virtual_core.py: `tail`, the TLVs behind a request's fixed part. Its dict holds at most the
-- owner, which is read where the operation is open.
use oep_client_python.Prelude.{
  ℕ, zero, suc, ◌+◌, Bool, true, false, not, ◌&&◌, ◌||◌, Option, none, some, [], ◌∷◌, ltb, leb,
  ◌==◌, length, take, drop, bit_and, if◌then◌else◌,
}
use oep_client_python.Bytes.{Bytes, field}
use oep_client_python.Registry.{tag_named_extension, malformed, unsupported}
use oep_client_python.VirtualCore.State.{Verdict, accept, reject, ◌>>=◌}

-- One round of the loop: the owner after it, and the data that is left. `utf8` says whether
-- bytes.decode('utf-8') succeeds.
unfoldable pub tail_one :
    (Bytes → Bool) → Bool → Bytes → Option Bytes → Verdict (Option Bytes × Bytes)
tail_one utf8 owner rest first =
    let tag = field rest 0 1 in
    let size = field rest 1 2 in
    let body = drop 3 rest in
    let value = take size body in
    let key = bit_and tag 127 in
    let found : Bool = (elim first [ none ↦ false | some v ↦ true ]) in
    if ltb (length rest) 3
    then reject malformed []
    else if key == 0 || ltb (length body) size
    then reject malformed []
    else if key == tag_named_extension
        && (length value == 0 || ltb (length value) (field value 0 1 + 1))
    then reject malformed []
    else if owner && key == 1
    then (if not (leb 1 size && leb size 32) || found
        then reject malformed []
        else if not (utf8 value)
        then reject malformed []
        else accept (some value, drop size body))
    else if not (bit_and tag 128 == 0)
    then reject unsupported (tag ∷ [])
    else accept (first, drop size body)

-- Every round takes three bytes at least; `length` rounds are enough, and the reason 0,
-- which is none of the protocol's, stands for a round more.
unfoldable pub tail_loop : (Bytes → Bool) → Bool → ℕ → Bytes → Option Bytes → Verdict (Option Bytes)
unfolding tail_one
tail_loop utf8 owner fuel [] first = accept first
tail_loop utf8 owner zero (b ∷ bs) first = reject 0 []
tail_loop utf8 owner (suc fuel) (b ∷ bs) first = do
  (first', rest) ← tail_one utf8 owner (b ∷ bs) first
  tail_loop utf8 owner fuel rest first'

unfoldable pub tail : (Bytes → Bool) → Bytes → Bool → Verdict (Option Bytes)
unfolding tail_loop
tail utf8 rest owner = tail_loop utf8 owner (length rest) rest none
