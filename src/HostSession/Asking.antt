-- ===== src/HostSession/Asking.antt =====
-- src/oep_client/host.py: what a request of the host may send before it, given the requests it sends that
-- with: `call`, `subscribe`, `_subscribe_again`, `_know_max_op_ms`, `confirm`, `require_v1`, `_session_for`
-- and `_session_room`. src/oep_client/core.py: `describe`. The hook on_limits is not set.
use oep_client_python.Prelude.{
  ℕ, zero, suc, ◌+◌, ◌==◌, Bool, true, false, not, ◌&&◌, ◌||◌, Option, none, some, List, [], ◌∷◌,
  ◌++◌, leb, length, if◌then◌else◌,
}
use oep_client_python.Try.{value_error}
use oep_client_python.Bytes.{Bytes}
use oep_client_python.Registry.{
  malformed, core_fn, op_confirm, op_describe, op_keepalive, op_subscribe,
}
use oep_client_python.Message.Header.{Result, succeeded}
use oep_client_python.Message.Tlv.{Tlv, split_tlvs}
use oep_client_python.Catalog.Entries.{pack_describe_request}
use oep_client_python.Catalog.SortedSet.{insert}
use oep_client_python.Host.{short_of_room}
use oep_client_python.HostSession.Exec.{
  Raised, rejected, failed, not_v1, not_usable, python, out_of_fuel, returned, raised, pure, throw,
  lift, ◌>>=◌, ◌>>◌, try_,
}
use oep_client_python.HostSession.State.{
  Limits, Client, value_of, assign, both, without, check_confirm, boot_id_seen, confirm_range,
  asks_max_op_ms,
}
use oep_client_python.HostSession.Answers.{
  confirm_body, read_confirm, read_page, is_usable, subscribe_body,
}
use oep_client_python.HostSession.Outside.{Method, Requests, modify, of_client, when}

-- Rejected, and rejected as malformed
abbrev pub is_rejected : Raised → Bool
is_rejected e = elim e [ rejected r ↦ true | _ ↦ false ]

abbrev pub is_malformed : Raised → Bool
is_malformed e = elim e [ rejected r ↦ r.detail == malformed | _ ↦ false ]

-- self.revision < 1, of a revision that is there
abbrev pub is_v1 : Option ℕ → Bool
is_v1 revision = elim revision [ none ↦ false | some r ↦ leb 1 r ]

abbrev pub is_zero : Option ℕ → Bool
is_zero revision = elim revision [ none ↦ false | some r ↦ r == 0 ]

abbrev pub is_none : {A : Type 0} → Option A → Bool
is_none a = elim a [ none ↦ true | some _ ↦ false ]

-- The id of the session, and 0 when there is none
abbrev pub session_id : Client → ℕ
session_id c = elim c.host.session [ none ↦ 0 | some sid ↦ sid ]

-- After `call`: subscriptions.add, _conditions[fn] = …, _moved.discard
abbrev pub subscribed : ℕ → ℕ → ℕ → Client → Client
subscribed fn min_bytes max_delay_ms c = record c {
  subscriptions = insert fn c.subscriptions;
  conditions = assign fn (min_bytes, max_delay_ms) c.conditions;
  moved = without fn c.moved;
}

-- The answer's limits, the boot_id seen and the revision taken.
unfoldable pub confirmed_with : Limits → Client → Client
unfolding boot_id_seen
confirmed_with limits c = record (boot_id_seen limits.boot_id c) {
  revision = some limits.revision;
  limits = some limits;
}

-- A describe has first < 0x10000, and each page but the last takes it on.
abbrev pub describe_rounds : ℕ
describe_rounds = 0x10001

module _ {L : Type 0} where
  abbrev pub not_usable_now : {A : Type 0} → Method L A
  not_usable_now (c, l) = (raised not_usable, (record c { unusable = true }, l))

  unfoldable pub require_usable : Method L (Unit {0})
  require_usable (c, l) = (if c.unusable then throw not_usable else pure tt) (c, l)

module _ {L : Type 0} where
  -- A confirm refused as malformed records revision 0; the refusal is raised again.
  unfoldable pub not_confirmed : Raised → Method L Limits
  not_confirmed e =
      (if is_malformed e then modify (λ c. record c { revision = some 0 }) else pure tt) >> throw e

  -- What confirm does with its answer
  unfoldable pub confirm_answer : ℕ → ℕ → Result → Method L Limits
  confirm_answer min_rev max_rev r = if not (succeeded r) then throw (failed r) else do
    limits ← lift (read_confirm min_rev max_rev r.payload)
    if not (check_confirm limits.max_frame limits.window limits.max_inflight)
        then not_usable_now
        else do modify (confirmed_with limits); pure limits

module _ {L : Type 0} (requests : Requests L) where
  -- `call`, its `locked` true
  unfoldable pub call : ℕ → ℕ → Bytes → Method L Result
  call fn op payload = do
    r ← requests fn op payload true none
    if succeeded r then pure r else throw (failed r)

  unfoldable pub keepalive : Method L (Unit {0})
  keepalive = requests core_fn op_keepalive [] true none >> pure tt

  unfoldable pub subscribe : ℕ → ℕ → ℕ → Method L (Unit {0})
  unfolding call
  subscribe fn min_bytes max_delay_ms = if fn == 0 then throw (python value_error) else do
    body ← lift (subscribe_body min_bytes max_delay_ms)
    r ← call fn op_subscribe body
    modify (subscribed fn min_bytes max_delay_ms)

  -- *self._conditions.get(fn, (0, 0))
  abbrev pub subscribe_as : ℕ → Option (ℕ × ℕ) → Method L (Unit {0})
  subscribe_as fn none = subscribe fn 0 0
  subscribe_as fn (some (min_bytes, max_delay_ms)) = subscribe fn min_bytes max_delay_ms

  unfoldable pub subscribe_each : List ℕ → Method L (Unit {0})
  unfolding subscribe
  subscribe_each [] = pure tt
  subscribe_each (fn ∷ fns) = do
    wanted ← of_client (λ c. value_of fn c.conditions)
    subscribe_as fn wanted
    subscribe_each fns

  unfoldable pub subscribe_again : Method L (Unit {0})
  unfolding subscribe_each
  subscribe_again (c, l) =
      let settled = record c { moved = [] } in
      elim c.host.session [
        | none ↦ (returned tt, (settled, l))
        | some sid ↦ subscribe_each (both c.moved c.subscriptions) (settled, l)
      ]

  -- The loop: `n` rounds at the most, from `first` on, with the bytes of the pages before.
  unfoldable pub describe_pages : ℕ → ℕ → ℕ → Bytes → Method L Bytes
  describe_pages zero fn first got = throw out_of_fuel
  describe_pages (suc n) fn first got = do
    body ← lift (pack_describe_request fn first)
    r ← requests core_fn op_describe body false none
    (more, rows, chunk) ← lift (read_page r.payload)
    elim (more == 0 || length chunk == 0) [
      | true ↦ pure (got ++ chunk)
      | false ↦ describe_pages n fn (first + rows) (got ++ chunk)
    ]

  unfoldable pub describe : ℕ → Method L (List Tlv)
  unfolding describe_pages split_tlvs is_usable
  describe fn = do
    cached ← of_client (λ c. value_of fn c.describes)
    elim cached [
      | some rows ↦ pure rows
      | none ↦ do
        got ← describe_pages describe_rounds fn 0 []
        rows ← lift (split_tlvs got)
        if fn == core_fn && not (is_usable rows)
            then not_usable_now
            else do modify (λ c. record c { describes = assign fn rows c.describes }); pure rows
    ]

  unfoldable pub know_max_op_ms : Bool → Method L (Unit {0})
  unfolding describe asks_max_op_ms
  know_max_op_ms all_quick (c, l) =
      when (asks_max_op_ms all_quick c) (describe core_fn >> pure tt) (c, l)

  unfoldable pub confirm_for : ℕ × ℕ → Method L Limits
  confirm_for (min_rev, max_rev) = do
    body ← lift (confirm_body (min_rev, max_rev))
    try_ (requests core_fn op_confirm body false none) not_confirmed
        (confirm_answer min_rev max_rev)

  -- confirm with the range of `confirm_range`
  unfoldable pub confirm : Method L Limits
  unfolding confirm_for confirm_range
  confirm = do range ← of_client confirm_range; confirm_for range

  unfoldable pub require_v1 : Method L (Unit {0})
  unfolding confirm
  require_v1 = do
    before ← of_client (λ c. c.revision)
    when (is_none before) (
        try_ confirm
          (λ e. do
            after ← of_client (λ c. c.revision)
            if is_rejected e && is_zero after then throw not_v1 else throw e)
          (λ limits. pure tt))
    revision ← of_client (λ c. c.revision)
    if is_v1 revision then pure tt else throw not_v1

  unfoldable pub session_for : Bool → Method L ℕ
  unfolding require_v1
  session_for locked (c, l) = elim c.host.session [
    | none ↦ (returned 0, (c, l))
    | some sid ↦ (if locked then require_v1 >> of_client session_id else pure 0) (c, l)
  ]

  unfoldable pub session_room : ℕ → Method L (Unit {0})
  unfolding keepalive short_of_room
  session_room n (c, l) = elim (short_of_room n c.host) [
    | none ↦ (returned tt, (c, l))
    | some sid ↦
        try_ keepalive (λ e. if is_rejected e then pure tt else throw e) (λ u. pure tt) (c, l)
  ]
