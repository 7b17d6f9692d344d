-- ===== src/HostSession/State.antt =====
-- src/oep_client/host.py: what a host keeps, and the methods that change it without a request.
use oep_client_python.Prelude.{
  ℕ, ◌+◌, Bool, false, not, ◌&&◌, ◌||◌, Option, none, some, List, [], ◌∷◌, ltb, leb, ◌==◌, length,
  min, if◌then◌else◌,
}
use oep_client_python.Bytes.{Bytes, le_value}
use oep_client_python.Registry.{
  no_session, core_fn, op_confirm, op_list, op_describe, op_clock, op_keepalive, op_lock_state,
  tag_max_op_ms, min_max_frame, max_op_ms_max, core_quick_op_max_ms,
}
use oep_client_python.Message.Tlv.{Tlv}
use oep_client_python.Message.Header.{Result}
use oep_client_python.Catalog.Describe.{first_value}
use oep_client_python.Catalog.SortedSet.{has, insert}
use oep_client_python.Host.{Host}

-- confirm's answer
pub record Limits : Type 0 where
  pub revision : ℕ
  pub max_frame : ℕ
  pub window : ℕ
  pub max_inflight : ℕ
  pub boot_id : ℕ
  pub transport : Option ℕ
  pub tail : List Tlv

-- The fields of `Host` beside those of the record Host, which it has in `host`. A set is the ascending list of
-- its members, a dict the list of its items; a key of `fns` is a name, with a revision or without one.
-- `unusable` is whether its text is not empty, and `kept_done` is `done` of `kept`.
pub record Client : Type 0 where
  pub host : Host
  pub revision : Option ℕ
  pub limits : Option Limits
  pub lease_ms : Option ℕ
  pub epoch : ℕ
  pub subscriptions : List ℕ
  pub conditions : List (ℕ × (ℕ × ℕ))
  pub moved : List ℕ
  pub fns : List ((List ℕ × Option ℕ) × ℕ)
  pub revisions : List (ℕ × ℕ)
  pub describes : List (ℕ × List Tlv)
  pub boot_id : Option ℕ
  pub unusable : Bool
  pub kept_done : Bool

abbrev pub new_client : Client
new_client = record {
  host = record { corr = 0; session = none; sid_corr = []; kept = none };
  revision = none;
  limits = none;
  lease_ms = none;
  epoch = 0;
  subscriptions = [];
  conditions = [];
  moved = [];
  fns = [];
  revisions = [];
  describes = [];
  boot_id = none;
  unusable = false;
  kept_done = false;
}

-- A dict's get, and its assignment: a key that is there keeps its place.
abbrev pub value_of {ℓ} : {A : Type ℓ} → ℕ → List (ℕ × A) → Option A
value_of key [] = none
value_of key ((k, a) ∷ items) = if k == key then some a else value_of key items

abbrev pub assign {ℓ} : {A : Type ℓ} → ℕ → A → List (ℕ × A) → List (ℕ × A)
assign key a [] = (key, a) ∷ []
assign key a ((k, old) ∷ items) =
    let rest = assign key a items in if k == key then (k, a) ∷ items else (k, old) ∷ rest

-- xs & ys, xs | ys and xs - {y} of sets
abbrev pub both : List ℕ → List ℕ → List ℕ
both [] ys = []
both (x ∷ xs) ys = let rest = both xs ys in if has x ys then x ∷ rest else rest

abbrev pub either : List ℕ → List ℕ → List ℕ
either [] ys = ys
either (x ∷ xs) ys = insert x (either xs ys)

abbrev pub without : ℕ → List ℕ → List ℕ
without y [] = []
without y (x ∷ xs) = let rest = without y xs in if x == y then xs else x ∷ rest

abbrev pub with_session : Option ℕ → Client → Client
with_session session c = record c { host = record (c.host) { session = session } }

unfoldable pub swept : Client → Client
swept c = record c { epoch = c.epoch + 1; subscriptions = []; moved = [] }

unfoldable pub lost : Client → Client
unfolding swept
lost c = record (swept c) { fns = []; revisions = []; describes = [] }

-- boot_id != self._boot_id, where there is one
unfoldable pub is_rebooted : ℕ → Client → Bool
is_rebooted boot_id c = elim c.boot_id [ none ↦ false | some old ↦ not (boot_id == old) ]

unfoldable pub boot_id_seen : ℕ → Client → Client
unfolding lost is_rebooted
boot_id_seen boot_id c = record (if is_rebooted boot_id c then lost c else c) {
  boot_id = some boot_id;
}

-- `_rejected`
unfoldable pub note_rejected : Result → Client → Client
unfolding swept
note_rejected r c = elim c.host.session [
  | none ↦ c
  | some sid ↦ if r.detail == no_session then swept (with_session none c) else c
]

-- The links' `transport_reopened`
unfoldable pub transport_reopened : Client → Client
transport_reopened c = record c { moved = either c.subscriptions c.moved }

-- "" and why not, as true and false
unfoldable pub check_confirm : ℕ → ℕ → ℕ → Bool
check_confirm max_frame window max_inflight =
    not (ltb max_frame min_max_frame || ltb window max_frame || ltb max_inflight 1)

unfoldable pub check_max_op_ms : ℕ → Bool
check_max_op_ms value = leb 1 value && leb value max_op_ms_max

-- struct.unpack("<I", v) of a value of that size
abbrev pub four_bytes : Option Bytes → Option ℕ
four_bytes none = none
four_bytes (some v) = if length v == 4 then some (le_value v) else none

unfoldable pub max_op_ms : Client → Option ℕ
unfolding first_value
max_op_ms c = elim (value_of core_fn c.describes) [
  | none ↦ none
  | some rows ↦ four_bytes (first_value rows tag_max_op_ms)
]

-- fn == CORE_FN and op in QUICK_OPS
unfoldable pub is_quick : ℕ → ℕ → Bool
is_quick fn op =
    fn == core_fn
    && (op == op_confirm
        || op == op_list
        || op == op_describe
        || op == op_clock
        || op == op_keepalive
        || op == op_lock_state)

unfoldable pub op_bound_ms : ℕ → ℕ → Client → ℕ
unfolding max_op_ms is_quick
op_bound_ms fn op c = elim (max_op_ms c) [
  | none ↦ core_quick_op_max_ms
  | some known ↦ if is_quick fn op then min known core_quick_op_max_ms else known
]

-- The revisions a confirm asks for; a revision of 0 is like none.
unfoldable pub confirm_range : Client → ℕ × ℕ
confirm_range c = elim c.revision [
  | none ↦ (1, 1)
  | some revision ↦ if revision == 0 then (1, 1) else (revision, revision)
]

-- Whether `_know_max_op_ms` asks for fn 0's describe before requests that are all quick, or not.
unfoldable pub asks_max_op_ms : Bool → Client → Bool
unfolding max_op_ms
asks_max_op_ms all_quick c = elim c.limits [
  | none ↦ false
  | some limits ↦ elim (max_op_ms c) [
    | some known ↦ false
    | none ↦ elim (value_of core_fn c.describes) [ some rows ↦ false | none ↦ not all_quick ]
  ]
]
