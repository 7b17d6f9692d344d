-- ===== src/HostSession/Lock.antt =====
-- src/oep_client/host.py: the methods on the lock: `open`, `end`, `end_previous`, `lock_state`, and `unsubscribe`.
-- src/oep_client/kept_session.py: `before_open`, of a file that this host keeps.
use oep_client_python.Prelude.{
  ℕ, drop, ◌==◌, Bool, true, false, not, ◌&&◌, ◌||◌, Option, none, some, List, [], if◌then◌else◌,
}
use oep_client_python.Try.{value_error}
use oep_client_python.Bytes.{Bytes}
use oep_client_python.Registry.{
  core_fn, op_open, op_end, op_lock_state, op_unsubscribe, lease_min_ms,
}
use oep_client_python.KeptSession.{Kept, previous, opened, ended}
use oep_client_python.HostSession.Exec.{
  Raised, python, returned, pure, throw, lift, ◌>>=◌, ◌>>◌, try_,
}
use oep_client_python.HostSession.State.{
  Limits, Client, without, with_session, swept, is_rebooted, boot_id_seen, max_op_ms,
}
use oep_client_python.HostSession.Answers.{
  read_opened, read_reopened, read_lock_state, read_lock_fixed, open_body,
}
use oep_client_python.HostSession.Refusal.{owner_of}
use oep_client_python.HostSession.Outside.{Outside, Method, modify, of_client, when, random_id}
use oep_client_python.HostSession.Asking.{call, confirm, describe, require_v1, is_none, is_rejected}
use oep_client_python.HostSession.Request.{ask}

pub record Opened : Type 0 where
  pub lease_ms : ℕ
  pub boot_id : ℕ

-- self.kept, where there is one
abbrev pub with_kept : (Kept → Kept) → Client → Client
with_kept f c = elim c.host.kept [
  | none ↦ c
  | some k ↦ record c { host = record (c.host) { kept = some (f k) } }
]

-- kept.ended() and kept.opened(sid, self._corr)
unfoldable pub keep_ended : Client → Client
unfolding ended
keep_ended = with_kept ended

unfoldable pub keep_opened : ℕ → Client → Client
unfolding opened
keep_opened sid c = with_kept (opened sid c.host.corr) c

-- What open takes from its answer.
unfoldable pub opened_with : ℕ → ℕ → ℕ → Client → Client
unfolding is_rebooted swept boot_id_seen
opened_with sid lease boot_id c =
    let left = if not (is_none c.host.session) && not (is_rebooted boot_id c) then swept c else c in
    record (boot_id_seen boot_id (with_session (some sid) (record left { subscriptions = [] }))) {
      lease_ms = some lease;
    }

unfoldable pub ended_with : Client → Client
unfolding swept keep_ended
ended_with c = keep_ended (swept (with_session none c))

-- if corr is not None: self._corr = corr
abbrev pub with_corr : Option ℕ → Client → Client
with_corr corr c = elim corr [
  | none ↦ c
  | some n ↦ record c { host = record (c.host) { corr = n } }
]

module _ {L : Type 0} (o : Outside L) where
  unfoldable pub lock_state : Method L (Bool × ℕ)
  lock_state = do r ← ask o core_fn op_lock_state [] false none; lift (read_lock_state r.payload)

  -- except Rejected: return False
  abbrev pub false_if_rejected : Raised → Method L Bool
  false_if_rejected e = if is_rejected e then pure false else throw e

  unfoldable pub lock_owner : Method L (Bool × ℕ × Option (List ℕ))
  lock_owner = do
    r ← ask o core_fn op_lock_state [] false none
    (locked, remaining) ← lift (read_lock_fixed r.payload)
    owner ← lift (owner_of o.decode_utf8 (drop 5 r.payload))
    pure (locked, remaining, owner)

  -- confirm's answer, asked once
  unfoldable pub confirmed : Method L Limits
  confirmed (c, l) = elim c.limits [
    | some limits ↦ (returned limits, (c, l))
    | none ↦ confirm (ask o) (c, l)
  ]

  unfoldable pub end_previous : ℕ → List ℕ → Option ℕ → Method L Bool
  end_previous sid owner corr = do
    modify (with_corr corr)
    (locked, remaining) ← lock_state
    if not locked then pure false else do
      body ← lift (open_body o.encode_utf8 lease_min_ms false owner [])
      try_ (ask o core_fn op_open body true (some sid)) false_if_rejected λ r. do
        boot_id ← lift (read_reopened r.payload)
        modify (boot_id_seen boot_id)
        try_ (ask o core_fn op_end [] true (some sid)) false_if_rejected λ r'. pure true

  -- The end of `before_open`: what the file of the run before says.
  abbrev pub end_kept : List ℕ → Option (ℕ × ℕ) → Method L (Unit {0})
  end_kept owner none = pure tt
  end_kept owner (some (sid, corr)) = end_previous sid owner (some corr) >> pure tt

  abbrev pub describe_core : Method L (Unit {0})
  describe_core = describe (ask o) core_fn >> pure tt

  -- Of a probe whose unit_id names a unit that no other host keeps, in a directory that can be written.
  unfoldable pub before_open : List ℕ → Method L (Unit {0})
  before_open owner (c, l) = elim c.host.kept [
    | none ↦ (returned tt, (c, l))
    | some k ↦
        if c.kept_done || not (is_none c.host.session)
        then (returned tt, (c, l))
        else (describe_core >> end_kept owner (previous k)) (record c { kept_done = true }, l)
  ]

  -- `open` from the id it picked on
  unfoldable pub opening : ℕ → Bool → List ℕ → List (List ℕ × Bytes) → ℕ → Method L Opened
  opening lease_ms force owner extensions sid = do
    body ← lift (open_body o.encode_utf8 lease_ms force owner extensions)
    r ← ask o core_fn op_open body true (some sid)
    (lease, boot_id) ← lift (read_opened r.payload)
    rebooted ← of_client (is_rebooted boot_id)
    modify (opened_with sid lease boot_id)
    known ← of_client max_op_ms
    when (rebooted && is_none known) describe_core
    modify (keep_opened sid)
    pure (record { lease_ms = lease; boot_id = boot_id })

  unfoldable pub open_session : ℕ → Bool → List ℕ → List (List ℕ × Bytes) → Method L Opened
  open_session lease_ms force owner extensions = do
    require_v1 (ask o)
    before_open owner
    known ← of_client max_op_ms
    when (is_none known) describe_core
    sid ← random_id o
    opening lease_ms force owner extensions sid

  unfoldable pub end_session : Method L (Unit {0})
  end_session (c, l) = elim c.host.session [
    | none ↦ (returned tt, (keep_ended c, l))
    | some sid ↦ (do r ← ask o core_fn op_end [] true none; modify ended_with) (c, l)
  ]

  unfoldable pub unsubscribe : ℕ → Method L (Unit {0})
  unsubscribe fn = if fn == 0 then throw (python value_error) else do
    r ← call (ask o) fn op_unsubscribe []
    modify (λ c. record c { subscriptions = without fn c.subscriptions })
