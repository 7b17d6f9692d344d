-- ===== src/VirtualCore/Invariant.antt =====
-- The invariant of the probe's core, kept by every request.
use oep_client_python.Prelude.{
  ℕ, ◌-◌, ◌≤◌, ◌<◌, ◌≡◌, ◌≢◌, refl, ◌⊎◌, inl, inr, Bool, true, false, not, ◌||◌, Option, none, some,
  List, [], ◌∷◌, arith, ltb, ◌==◌, length, length-drop, All-drop, All, Option-cases, Bool-cases,
}
use oep_client_python.Bytes.{Bytes, field}
use oep_client_python.VirtualCore.State.{
  Endpoint, Times, Entry, Core, initial, accept, release, tick, Verdict-cases,
}
use oep_client_python.VirtualCore.Record.{
  corr_of, fn_of, sid_of, op_of, payload_of, corr_distance, put, drop_old, cache_max, drop_first,
  remember,
}
use oep_client_python.VirtualCore.Operations.{lease_of, open_op, take_lock, run_op}
use oep_client_python.VirtualCore.Handle.{
  check_session, run_request, renew, execute, handle, header_answer,
}
use oep_client_python.VirtualCore.Remember.{entry_of, run_request-run_op}
use oep_client_python.VirtualCore.Replay.{begun}

-- The entry's corr is less than half the space behind.
abbrev pub Behind : ℕ → ℕ × Entry → Type 0
Behind high p = corr_distance high p.0 < 0x8000

-- The lock is free, or its holder is the session last opened, whose id is not 0.
abbrev pub LockHeld : Core → Type 0
LockHeld c = (c.holder ≡ none) ⊎ ((s : ℕ) × (c.holder ≡ some s) × (c.last ≡ some s) × (s ≢ 0))

pub record IsCore (ep : Endpoint) (c : Core) : Type 0 where
  pub lock : LockHeld c
  pub lease_low : 1000 ≤ c.lease
  pub lease_high : c.lease ≤ 60000
  pub short : length c.cache ≤ cache_max ep
  pub behind : All (Behind c.high) c.cache

pub IsCore-initial : (ep : Endpoint) → IsCore ep initial
IsCore-initial ep = record {
  lock = inl refl;
  lease_low = omega arith;
  lease_high = omega arith;
  short = omega arith;
  behind = tt;
}

module _ (ep : Endpoint) (c : Core) (h : IsCore ep c) where
  tick-IsCore : (now : ℕ) → IsCore ep (tick now c)
  unfolding tick release
  tick-IsCore now = ground (arith, h)

  begun-IsCore : (t : Times) → IsCore ep (begun t c)
  unfolding tick release
  begun-IsCore t = ground (arith, h)

  renew-IsCore : (t : Times) (sid : ℕ) (passed : Bool) → IsCore ep (renew t sid passed c)
  unfolding renew
  renew-IsCore t sid passed = ground (arith, h)

drop_old-Behind : (corr : ℕ) (cache : List (ℕ × Entry)) → All (Behind corr) (drop_old corr cache)
unfolding drop_old
drop_old-Behind corr [] = tt
drop_old-Behind corr ((c, e) ∷ cache) = ground (arith, drop_old-Behind corr cache)

remember-IsCore :
    (ep : Endpoint) (c : Core) (request result : Bytes)
    → IsCore ep c
    → IsCore ep (remember ep request result c)
unfolding remember drop_first
remember-IsCore ep c request result h =
    let corr = corr_of request in
    let put_in = put corr (entry_of ep request result) c.cache in
    let kept = drop_old corr put_in in
    let gone = length kept - cache_max ep in
    ground (
      arith,
      h,
      length-drop gone kept,
      All-drop (Behind corr) gone kept (drop_old-Behind corr put_in),
    )

lease_of_bounds :
    (ep : Endpoint) (asked : ℕ) → (1000 ≤ lease_of ep asked) × (lease_of ep asked ≤ 60000)
unfolding lease_of
lease_of_bounds ep asked = ground arith

run_op-IsCore :
    (ep : Endpoint) (t : Times) (transport op sid : ℕ) (payload value : Bytes)
    (owner : Option Bytes) (c c' : Core) (opened : Bool)
    → IsCore ep c
    → (sid ≢ 0) ⊎ ((op == 16) ≡ false)
    → run_op ep t transport op sid payload owner c ≡ accept (value, c', opened)
    → IsCore ep c'
unfolding run_op open_op take_lock release
run_op-IsCore ep t transport op sid payload value owner c c' opened h nonzero e =
    ground (arith, h, lease_of_bounds ep (field payload 0 4))

accepted_opening :
    (t : Times) (request : Bytes) (c : Core) (passed : Bool)
    → (fn_of request == 0) ≡ true
    → check_session t request c ≡ accept passed
    → (sid_of request ≢ 0) ⊎ ((op_of request == 16) ≡ false)
unfolding check_session
accepted_opening t request c passed core e = ground arith

module _ (utf8 : Bytes → Bool) (ep : Endpoint) (t : Times) (transport : ℕ) (admission : Option ℕ)
    (request : Bytes) where
  execute-IsCore :
      (c : Core)
      → IsCore ep c
      → (fn_of request == 0) ≡ true
      → IsCore ep (execute utf8 ep t transport admission request c).1
  unfolding execute
  execute-IsCore c h core = elim (Verdict-cases (check_session t request c)) [
    | inr (reason, payload, e) ↦ rw (e, execute) (remember-IsCore ep c request _ h)
    | inl (passed, e) ↦ elim (Verdict-cases (run_request utf8 ep t transport admission request c)) [
      | inr (reason, payload, e') ↦
          rw (e, e', execute)
            (remember-IsCore ep (renew t (sid_of request) passed c) request _
              (renew-IsCore ep c h t (sid_of request) passed))
      | inl ((value, c', opened), e') ↦
          let (owner, ran) =
            run_request-run_op utf8 ep t transport admission request value c c' opened e' in
          let h' =
            run_op-IsCore ep t transport (op_of request) (sid_of request) (payload_of request) value
              owner c c' opened h (accepted_opening t request c passed core e) ran in
          rw (e, e', execute)
            (remember-IsCore ep (renew t (sid_of request) (passed || opened) c') request _
              (renew-IsCore ep c' h' t (sid_of request) (passed || opened)))
    ]
  ]

  pub core_fn : (c : Core) → header_answer request c ≡ none → (fn_of request == 0) ≡ true
  unfolding header_answer
  core_fn c e = elim (Bool-cases (fn_of request == 0)) [
    | inl core ↦ core
    | inr other ↦ ground (arith, other)
  ]

  -- Whatever bytes come and whenever, the core's invariant is kept: the lock is free or its holder is the session last
  -- opened, with an id other than 0; the lease is 1000 to 60000 ms; and the record holds at most
  -- max(8, max_inflight) requests, each less than half the corr space behind the last one.
  pub handle-IsCore :
      (c : Core) → IsCore ep c → IsCore ep (handle utf8 ep t transport admission request c).1
  unfolding handle
  handle-IsCore c h = elim (Bool-cases (ltb (length request) 10 || not (field request 0 1 == 1))) [
    | inl no_request ↦ rw (no_request, handle) (begun-IsCore ep c h t)
    | inr form ↦ elim (Option-cases (header_answer request (begun t c))) [
      | inr (a, early) ↦ rw (form, early, handle) (begun-IsCore ep c h t)
      | inl ran ↦
          rw (form, ran, handle)
            (execute-IsCore (begun t c) (begun-IsCore ep c h t) (core_fn (begun t c) ran))
    ]
  ]
