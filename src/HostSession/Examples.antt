-- ===== src/HostSession/Examples.antt =====
-- A host and a virtual core at work on each other, and the theorems of the session at them.
use oep_client_python.Prelude.{
  ℕ, ◌≤◌, ◌≡◌, refl, Bool, true, false, Option, none, some, List, [], ◌∷◌, arith,
}
use oep_client_python.Try.{ok}
use oep_client_python.Bytes.{Bytes}
use oep_client_python.Message.Header.{Result, new_request, pack_request, unpack_result, succeeded}
use oep_client_python.Message.Tlv.{split_tlvs, split_loop, split_one, get}
use oep_client_python.Message.Reader.{reader, take_bytes, u8, take_format, take_int, tail}
use oep_client_python.Catalog.Bitmap.{check_ops}
use oep_client_python.Catalog.Describe.{first_value}
use oep_client_python.Catalog.Entries.{pack_describe_request}
use oep_client_python.VirtualCore
use oep_client_python.VirtualCore.State.{
  Endpoint, Times, Core, initial, accept, core_tlv, is_some, same_id, release, tick, locked,
}
use oep_client_python.VirtualCore.Record.{
  refusal, success, corr_distance, lookup, replay, put, drop_old, drop_first, remember,
}
use oep_client_python.VirtualCore.Operations
use oep_client_python.VirtualCore.Operations.{
  fixed_size, is_free, page_loop, describe_page, open_op, take_lock, lease_of, run_op,
}
use oep_client_python.VirtualCore.Handle.{
  header_answer, check_session, run_request, renew, execute, handle,
}
use oep_client_python.Host.{next_corr, note_corr, step, short_of_room, steps, last_corr}
use oep_client_python.HostSession.Exec.{
  returned, raised, not_usable, pure, throw, lift, ◌>>=◌, try_,
}
use oep_client_python.HostSession.Exec.Runs.{Ends}
use oep_client_python.HostSession.State.{
  Limits, Client, new_client, swept, lost, is_rebooted, boot_id_seen, note_rejected, check_confirm,
  check_max_op_ms, max_op_ms, is_quick, confirm_range, asks_max_op_ms,
}
use oep_client_python.HostSession.Answers.{
  confirm_body, read_confirm, read_page, is_usable, read_opened, read_reopened, read_lock_state,
  shorten, owner_text, owner_tail, extension_tail, open_body,
}
use oep_client_python.HostSession.Outside.{Outside, modify, of_client, transfer, random_id}
use oep_client_python.HostSession.Asking.{
  confirmed_with, require_usable, not_confirmed, confirm_answer, keepalive, subscribe_each,
  subscribe_again, describe_pages, describe, know_max_op_ms, confirm_for, confirm, require_v1,
  session_for, session_room,
}
use oep_client_python.HostSession.Request.{
  take_corr, answered, session_or, exchange, request_with, request, ask,
}
use oep_client_python.HostSession.Lock.{
  keep_ended, keep_opened, opened_with, ended_with, lock_state, end_previous, before_open, opening,
  open_session, end_session,
}
use oep_client_python.HostSession.Pipeline.{Calls, pipeline}
use oep_client_python.HostSession.Clock.{clock}
use oep_client_python.HostSession.Run.{Operation, opens, ends, run, run_all}
use oep_client_python.HostSession.Confirmed.{owner_text-length, confirm_for-returned}
use oep_client_python.HostSession.Agreement.{read_confirm-confirm}
use oep_client_python.HostSession.Exchanged.{asked_open, exchange-over}
use oep_client_python.HostSession.Sound.{IsClient, Since}
use oep_client_python.HostSession.Sound.Runs.{run-Ends, run_all-Since, run_all-not_usable}

abbrev probe : Endpoint
probe = record {
  max_frame = 64;
  window = 64;
  max_inflight = 2;
  boot_id = 0x0102;
  lease_default_ms = 3000;
  remember_max = 64;
  static_rows = (0x40 ∷ 0 ∷ 0 ∷ []) ∷ [];
}

abbrev times : Times
times = record { started = 100; finished = 101; now_ns = 5 }

abbrev any_text : Bytes → Bool
any_text text = true

-- The link leads to a virtual core; text is ASCII, and a session's id is 7.
abbrev bench : Outside Core
bench = record {
  transport = λ raw c. handle any_text probe times 0 none raw c;
  randrange = λ c. (7, c);
  clock = λ c. (100, c);
  encode_utf8 = λ text. text;
  decode_utf8 = λ raw. raw;
  randrange_above = λ c. omega arith;
}

abbrev both_ends : List Operation → Option ℕ × Option ℕ × ℕ
both_ends ops =
    let (c, core) = run_all bench ops (new_client, initial) in
    (c.host.session, core.holder, c.epoch)

-- A run computes with all of these.
all_of_it : ℕ
unfolding handle tick header_answer fixed_size is_free same_id is_some execute check_session
    run_request VirtualCore.Tail.tail run_op open_op take_lock lease_of release refusal success
    remember put drop_old drop_first corr_distance renew replay lookup page_loop describe_page
    Operations.describe Operations.confirm core_tlv Operations.lock_state locked confirm_body
    read_confirm read_page is_usable read_opened read_reopened read_lock_state owner_text owner_tail
    extension_tail open_body confirmed_with require_usable not_confirmed confirm_answer keepalive
    subscribe_each subscribe_again describe_pages describe know_max_op_ms confirm_for confirm
    require_v1 session_for session_room pure throw lift ◌>>=◌ try_ keep_ended keep_opened
    opened_with ended_with lock_state end_previous before_open opening open_session end_session
    modify of_client transfer random_id take_corr answered session_or exchange request_with request
    run run_all swept lost is_rebooted boot_id_seen note_rejected check_confirm check_max_op_ms
    max_op_ms is_quick confirm_range asks_max_op_ms next_corr note_corr step short_of_room steps
    last_corr new_request pack_request unpack_result succeeded split_tlvs split_loop split_one get
    first_value check_ops pack_describe_request reader take_bytes u8 take_format take_int tail
all_of_it = 0

-- An open and an end of a host that a core answers: the host's session, the core's, and the epoch.
open_then_end : both_ends (opens 0 false [] [] ∷ ends ∷ []) ≡ (none, none, 1)
unfolding all_of_it
open_then_end = refl

opened_both : both_ends (opens 0 false [] [] ∷ []) ≡ (some 7, some 7, 0)
unfolding all_of_it
opened_both = refl

abbrev opened_host : Client × Core
opened_host = run_all bench (opens 0 false [] [] ∷ []) (new_client, initial)

run_all-Since_example :
    IsClient (run_all bench (opens 0 false [] [] ∷ ends ∷ []) (new_client, initial)).0
    × Since new_client (run_all bench (opens 0 false [] [] ∷ ends ∷ []) (new_client, initial)).0
run_all-Since_example = run_all-Since bench (opens 0 false [] [] ∷ ends ∷ []) new_client initial tt

run-Ends_example : Ends (run bench (opens 0 false [] []) (new_client, initial)).0
run-Ends_example = run-Ends bench (opens 0 false [] []) new_client initial tt

abbrev refused_client : Client
refused_client = record new_client { unusable = true }

abbrev clock_calls : Calls
clock_calls = (0, 21, []) ∷ []

run_all-not_usable_example :
    (ask bench 0 18 [] true none (run_all bench (ends ∷ []) (refused_client, initial))
      ≡ (raised not_usable, run_all bench (ends ∷ []) (refused_client, initial)))
    × (pipeline bench clock_calls true (run_all bench (ends ∷ []) (refused_client, initial))
        ≡ (raised not_usable, run_all bench (ends ∷ []) (refused_client, initial)))
    × (clock bench (run_all bench (ends ∷ []) (refused_client, initial))
        ≡ (raised not_usable, run_all bench (ends ∷ []) (refused_client, initial)))
run_all-not_usable_example =
    run_all-not_usable bench (ends ∷ []) refused_client initial 0 18 [] true none clock_calls tt
      refl

abbrev declared : Limits
declared = record {
  revision = 1;
  max_frame = 64;
  window = 64;
  max_inflight = 2;
  boot_id = 0x0102;
  transport = some 0;
  tail = (1, 0 ∷ []) ∷ [];
}

abbrev confirmed_host : Client × Core
confirmed_host = (confirm_for (ask bench) (1, 1) (new_client, initial)).1

confirmed :
    confirm_for (ask bench) (1, 1) (new_client, initial) ≡ (returned declared, confirmed_host)
unfolding all_of_it
confirmed = refl

confirm_for-returned_example :
    (1 ≤ 1)
    × (1 ≤ 1)
    × (64 ≤ 64)
    × (64 ≤ 64)
    × (1 ≤ 2)
    × (confirmed_host.0.revision ≡ some 1)
    × (confirmed_host.0.limits ≡ some declared)
    × (confirmed_host.0.boot_id ≡ some 0x0102)
confirm_for-returned_example =
    confirm_for-returned (ask bench) 1 1 declared (new_client, initial) confirmed_host confirmed

ascii_owner : owner_text (λ text. text) (b'm' ∷ b'e' ∷ 10 ∷ []) ≡ ok (b'm' ∷ b'e' ∷ b'?' ∷ [])
unfolding owner_text shorten
ascii_owner = refl

owner_text-length_example : (1 ≤ 3) × (3 ≤ 32)
owner_text-length_example =
    owner_text-length (λ text. text) (b'm' ∷ b'e' ∷ 10 ∷ []) (b'm' ∷ b'e' ∷ b'?' ∷ []) refl
      ascii_owner

abbrev open_payload : Bytes
open_payload = 0 ∷ 0 ∷ 0 ∷ 0 ∷ 0 ∷ []

free_of_any : same_id 7 initial.last ≡ false
unfolding same_id
free_of_any = refl

exchange-over_example :
    (r : Result) × ((asked_open any_text probe times 0 bench 7 open_payload new_client initial).0
      ≡ returned r)
    × (succeeded r ≡ true)
    × ((lease : ℕ) × (read_opened r.payload ≡ ok (lease, 0x0102))
        × (1000 ≤ lease)
        × (lease ≤ 60000))
    × ((asked_open any_text probe times 0 bench 7 open_payload new_client initial).1.1.holder
        ≡ some 7)
    × ((asked_open any_text probe times 0 bench 7 open_payload new_client initial).1.0
        ≡ record new_client { host = next_corr 7 new_client.host })
exchange-over_example =
    exchange-over any_text probe times 0 bench 7 open_payload new_client initial (omega arith)
      (omega arith) refl (omega arith) refl free_of_any

abbrev confirm_payload : Bytes
confirm_payload = b'O' ∷ b'E' ∷ b'P' ∷ b'?' ∷ 1 ∷ 1 ∷ []

abbrev confirm_answered : Bytes
confirm_answered =
    b'O' ∷ b'E' ∷ b'P' ∷ b'!' ∷ 1 ∷ 64 ∷ 0 ∷ 64 ∷ 0 ∷ 0 ∷ 0 ∷ 2 ∷ 2 ∷ 1 ∷ 0 ∷ 0 ∷ 1 ∷ 1 ∷ 0 ∷ 0 ∷ []

core_confirms : Operations.confirm probe 0 confirm_payload ≡ accept confirm_answered
unfolding all_of_it
core_confirms = refl

read_confirm-confirm_example : read_confirm 1 1 confirm_answered ≡ ok declared
read_confirm-confirm_example =
    read_confirm-confirm probe 0 1 1 confirm_payload confirm_answered (omega arith) (omega arith)
      (omega arith) (omega arith) (omega arith) (omega arith) core_confirms
