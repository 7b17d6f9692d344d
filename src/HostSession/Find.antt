-- ===== src/HostSession/Find.antt =====
-- src/oep_client/core.py: the interfaces of a probe, by `list_entries`, `find`, `revision`, `ops`, `offers` and
-- `restart_fn`. src/oep_client/host.py: `request_restart`.
use oep_client_python.Prelude.{
  ℕ, zero, suc, ◌==◌, Bool, true, false, ◌&&◌, ◌||◌, Option, none, some, List, [], ◌∷◌, ◌++◌, leb,
  length, if◌then◌else◌,
}
use oep_client_python.Bytes.{Bytes}
use oep_client_python.Registry.{
  core_fn, op_list, op_restart, tag_ops, tag_max_op_ms, tag_restart_max_ms, unknown_operation,
}
use oep_client_python.Registry
use oep_client_python.Message.Tlv.{bytes_eq}
use oep_client_python.Catalog.SortedSet.{has}
use oep_client_python.Catalog.Entries.{ListEntry, pack_list_request, unpack_list_result}
use oep_client_python.Catalog.Bitmap.{check_ops, unpack_ops}
use oep_client_python.Catalog.Describe.{first_value, first_fixed}
use oep_client_python.Names.{matches}
use oep_client_python.HostSession.Exec.{
  Raised, rejected, unsupported_revision, unusable_function, lookup_error, out_of_fuel, pure, throw,
  lift, ◌>>=◌, ◌>>◌, try_,
}
use oep_client_python.HostSession.State.{Client, value_of, assign, with_session, lost, four_bytes}
use oep_client_python.HostSession.Outside.{Outside, Method, modify, of_client}
use oep_client_python.HostSession.Asking.{call, describe}
use oep_client_python.HostSession.Request.{ask}

-- What list says of a name: `total` is at most 0xFFFF, and each page but the last takes the entries on.
abbrev pub list_rounds : ℕ
list_rounds = 0x10001

-- "oep.probe.restart"
abbrev pub restart_name : List ℕ
restart_name =
    b'o' ∷ b'e' ∷ b'p' ∷ b'.' ∷ b'p' ∷ b'r' ∷ b'o' ∷ b'b' ∷ b'e' ∷ b'.' ∷ b'r' ∷ b'e' ∷ b's' ∷ b't'
    ∷ b'a' ∷ b'r' ∷ b't' ∷ []

abbrev pub same_option : Option ℕ → Option ℕ → Bool
same_option none none = true
same_option none (some b) = false
same_option (some a) none = false
same_option (some a) (some b) = a == b

-- self._fns.get(key)
abbrev pub known_fn : List ℕ → Option ℕ → List ((List ℕ × Option ℕ) × ℕ) → Option ℕ
known_fn name revision [] = none
known_fn name revision (((n, r), fn) ∷ fns) =
    if bytes_eq n name && same_option r revision then some fn else known_fn name revision fns

-- No fn's number is the core's.
unfoldable pub without_core : List ListEntry → List ListEntry
without_core [] = []
without_core (e ∷ entries) =
    let rest = without_core entries in if e.fn == core_fn then rest else e ∷ rest

unfoldable pub note_revisions : List ListEntry → List (ℕ × ℕ) → List (ℕ × ℕ)
note_revisions [] table = table
note_revisions (e ∷ entries) table = note_revisions entries (assign e.fn e.revision table)

unfoldable pub matching : List ℕ → Bool → List ListEntry → List ListEntry
unfolding matches
matching name exact [] = []
matching name exact (e ∷ entries) =
    let rest = matching name exact entries in if matches e.name name exact then e ∷ rest else rest

abbrev pub has_revision : Option ℕ → ListEntry → Bool
has_revision none e = true
has_revision (some r) e = e.revision == r

abbrev pub first_of : Option ℕ → List ListEntry → Option ℕ
first_of revision [] = none
first_of revision (e ∷ entries) =
    if has_revision revision e then some e.fn else first_of revision entries

-- The name's fn, where the list gave it that revision or was not asked.
unfoldable pub spoken_fn : List ℕ → ℕ → Client → Option ℕ
spoken_fn name revision c = elim (known_fn name none c.fns) [
  | none ↦ none
  | some fn ↦ elim (value_of fn c.revisions) [
    | none ↦ some fn
    | some r ↦ if r == revision then some fn else none
  ]
]

unfoldable pub remembered_fn : List ℕ → Option ℕ → Client → Option ℕ
unfolding spoken_fn
remembered_fn name revision c = elim (known_fn name revision c.fns) [
  | some fn ↦ some fn
  | none ↦ elim revision [ none ↦ none | some r ↦ spoken_fn name r c ]
]

-- UnsupportedRevision as LookupError
abbrev pub as_lookup_error : Raised → Raised
as_lookup_error e = elim e [ unsupported_revision ↦ lookup_error | e' ↦ e' ]

abbrev pub or_fallback : Option ℕ → ℕ
or_fallback none = 10000
or_fallback (some ms) = ms

abbrev pub is_lookup_error : Raised → Bool
is_lookup_error e = elim e [ lookup_error ↦ true | _ ↦ false ]

module _ {L : Type 0} (o : Outside L) where
  unfoldable pub list_pages : ℕ → List ListEntry → Method L (List ListEntry)
  list_pages zero got = throw out_of_fuel
  list_pages (suc n) got = do
    body ← lift (pack_list_request (length got))
    r ← ask o core_fn op_list body false none
    (total, page) ← lift (unpack_list_result o.decode_utf8 r.payload)
    elim (length page == 0 || leb total (length (got ++ page))) [
      | true ↦ pure (got ++ page)
      | false ↦ list_pages n (got ++ page)
    ]

  unfoldable pub list_entries : List ℕ → Bool → Method L (List ListEntry)
  list_entries name exact = do
    got ← list_pages list_rounds []
    modify (λ c. record c { revisions = note_revisions (without_core got) c.revisions })
    pure (if length name == 0 then without_core got else matching name exact (without_core got))

  -- The name is listed: its first fn of the revision is remembered and given.
  unfoldable pub pick : List ℕ → Option ℕ → List ListEntry → Method L ℕ
  pick name revision entries = elim (first_of revision entries) [
    | some fn ↦ do modify (λ c. record c { fns = ((name, revision), fn) ∷ c.fns }); pure fn
    | none ↦ if length entries == 0 then throw lookup_error else throw unsupported_revision
  ]

  unfoldable pub find : List ℕ → Option ℕ → Method L ℕ
  find name revision = do
    known ← of_client (remembered_fn name revision)
    elim known [
      | some fn ↦ pure fn
      | none ↦ do entries ← list_entries name true; pick name revision entries
    ]

  unfoldable pub find_spoken : List ℕ → ℕ → Method L ℕ
  find_spoken name revision =
      try_ (find name (some revision)) (λ e. throw (as_lookup_error e)) (λ fn. pure fn)

  unfoldable pub revision_of : List ℕ → ℕ → Method L ℕ
  revision_of name fn = do
    known ← of_client (λ c. value_of fn c.revisions)
    elim known [
      | some r ↦ pure r
      | none ↦ do
        entries ← list_entries name true
        listed ← of_client (λ c. value_of fn c.revisions)
        elim listed [ some r ↦ pure r | none ↦ throw lookup_error ]
    ]

  -- The ops of a tag that is there, and none when it is not
  abbrev pub ops_of : Option Bytes → Method L (Option (List ℕ))
  ops_of none = pure none
  ops_of (some value) =
      if check_ops value
      then throw unusable_function
      else do ops ← lift (unpack_ops value); pure (some ops)

  unfoldable pub ops : ℕ → Method L (Option (List ℕ))
  ops fn = do rows ← describe (ask o) fn; ops_of (first_value rows tag_ops)

  unfoldable pub offers : ℕ → ℕ → Method L Bool
  offers fn op = do declared ← ops fn; pure (elim declared [ none ↦ true | some ops ↦ has op ops ])

  -- A request refused as unknown_operation, with nothing sent
  unfoldable pub require_op : ℕ → ℕ → Method L (Unit {0})
  require_op fn op = do
    offered ← offers fn op
    if offered
        then pure tt
        else throw (
            rejected (record {
              corr = 0;
              resolution = Registry.rejected;
              detail = unknown_operation;
              payload = [];
            }))

  unfoldable pub declared_max_op_ms : Method L ℕ
  declared_max_op_ms = do
    rows ← describe (ask o) core_fn
    pure (or_fallback (four_bytes (first_value rows tag_max_op_ms)))

  unfoldable pub restart_fn : Method L ℕ
  restart_fn = find_spoken restart_name 1

  unfoldable pub restart_max_ms : Method L (Option ℕ)
  restart_max_ms =
      try_ restart_fn (λ e. if is_lookup_error e then pure none else throw e)
        λ fn. do
          rows ← describe (ask o) fn
          pure (four_bytes (first_fixed rows tag_restart_max_ms 4))

  -- `link.restart_fn` is left out: it is the link's.
  unfoldable pub request_restart : Method L (Unit {0})
  request_restart = do
    fn ← restart_fn
    r ← call (ask o) fn op_restart []
    modify (λ c. lost (with_session none c))
