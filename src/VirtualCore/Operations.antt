-- ===== src/VirtualCore/Operations.antt =====
-- src/oep_client/virtual_core.py: the eight operations of fn 0, each from the state, the request's session
-- and its payload to a value and the state after it, or to a refusal, which leaves the state.
use oep_client_python.Prelude.{
  ℕ, ◌+◌, ◌-◌, Bool, true, false, not, ◌&&◌, ◌||◌, Option, none, some, List, [], ◌∷◌, ◌++◌, ltb,
  leb, ◌==◌, length, take, drop, min, max, if◌then◌else◌,
}
use oep_client_python.Bytes.{Bytes, field, le_bytes}
use oep_client_python.Registry.{
  malformed, unknown_function, unsupported, confirm_request, confirm_result,
}
use oep_client_python.Message.Tlv.{bytes_eq}
use oep_client_python.VirtualCore.State.{
  Endpoint, Times, Core, Verdict, accept, reject, ◌>>=◌, core_tlv, is_some, same_id, release,
}

-- FIXED, the sizes of the fixed parts of OPS; none is an op that is not there.
unfoldable pub fixed_size : ℕ → Option ℕ
fixed_size op =
    if op == 1
    then some 6
    else if op == 2
    then some 2
    else if op == 3
    then some 4
    else if op == 4
    then some 0
    else if op == 16
    then some 5
    else if op == 17
    then some 0
    else if op == 18
    then some 0
    else if op == 19
    then some 0
    else none

-- op in FREE
unfoldable pub is_free : ℕ → Bool
is_free op = op == 1 || op == 2 || op == 3 || op == 4 || op == 19

unfoldable pub confirm : Endpoint → ℕ → Bytes → Verdict Bytes
unfolding core_tlv
confirm ep transport payload =
    let minimum = field payload 4 1 in
    let maximum = field payload 5 1 in
    if not (bytes_eq (take 4 payload) confirm_request) || ltb maximum minimum
    then reject malformed []
    else if not (leb minimum 1 && leb 1 maximum)
    then reject unsupported (0 ∷ core_tlv 1 (1 ∷ 1 ∷ []))
    else accept (
        confirm_result
        ++ (1
            ∷ (le_bytes 2 ep.max_frame
                ++ (le_bytes 4 ep.window
                    ++ (le_bytes 1 ep.max_inflight
                        ++ (le_bytes 4 ep.boot_id ++ core_tlv 1 (transport ∷ [])))))))

-- The rows of a describe page: while a row is left and fits, it goes on the page.
unfoldable pub page_loop : ℕ → List Bytes → Bytes → Bytes × List Bytes
page_loop max_frame [] page = (page, [])
page_loop max_frame (row ∷ rows) page =
    let more = page_loop max_frame rows (page ++ row) in
    if leb (length page + length row + 6) max_frame then more else (page, row ∷ rows)

-- Whether rows are left, and the page.
unfoldable pub describe_page : Endpoint → ℕ → Bytes
unfolding page_loop
describe_page ep first =
    let (page, left) = page_loop ep.max_frame (drop first ep.static_rows) [] in
    (if length left == 0 then 0 else 1) ∷ page

unfoldable pub describe : Endpoint → Bytes → Verdict Bytes
unfolding describe_page
describe ep payload =
    if field payload 0 2 == 0
    then accept (describe_page ep (field payload 2 2))
    else reject unknown_function []

-- min(60000, max(1000, lease or ep.lease_default_ms))
unfoldable pub lease_of : Endpoint → ℕ → ℕ
lease_of ep asked = min 60000 (max 1000 (if asked == 0 then ep.lease_default_ms else asked))

unfoldable pub take_lock : Times → ℕ → Option Bytes → Core → Core
unfolding release
take_lock t sid owner c =
    let released = release c in
    record released {
      holder = some sid;
      last = some sid;
      owner = (elim owner [ none ↦ [] | some text ↦ text ]);
      high = 0;
      cache = [];
      deadline = t.started + c.lease;
    }

unfoldable pub open_op : Endpoint → Times → ℕ → Bytes → Option Bytes → Core → Bytes × Core
open_op ep t sid payload owner c =
    let leased = record c { lease = lease_of ep (field payload 0 4) } in
    (
      le_bytes 4 leased.lease ++ le_bytes 4 ep.boot_id,
      if same_id sid c.holder then leased else take_lock t sid owner leased,
    )

unfoldable pub lock_state : Times → Core → Bytes
unfolding is_some core_tlv
lock_state t c =
    if is_some c.holder
    then (1 ∷ le_bytes 4 (c.deadline - t.started))
      ++ (if length c.owner == 0 then [] else core_tlv 1 c.owner)
    else 0 ∷ le_bytes 4 0

-- The branches on `op`, one of OPS: the value, the state, and whether the request is open.
unfoldable pub run_op :
    Endpoint → Times → ℕ → ℕ → ℕ → Bytes → Option Bytes → Core → Verdict (Bytes × Core × Bool)
run_op ep t transport op sid payload owner c =
    if op == 1
    then (do value ← confirm ep transport payload; accept (value, c, false))
    else if op == 2
    then accept (0 ∷ 0 ∷ 0 ∷ [], c, false)
    else if op == 3
    then (do value ← describe ep payload; accept (value, c, false))
    else if op == 4
    then accept (le_bytes 4 ep.boot_id ++ le_bytes 8 t.now_ns, c, false)
    else if op == 16
    then (let (value, c') = open_op ep t sid payload owner c in accept (value, c', true))
    else if op == 17
    then accept ([], release c, false)
    else if op == 18
    then accept ([], c, false)
    else accept (lock_state t c, c, false)
