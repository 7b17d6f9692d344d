-- ===== src/HostSession/Opens.antt =====
-- An open that a host sends to a virtual core whose lock is free.
use oep_client_python.Prelude.{
  ℕ, zero, suc, ◌^◌, ◌<◌, ◌==◌, ◌≡◌, refl, ◌∙◌, ap, Bool, true, false, not, ◌||◌, none, some, [],
  ◌∷◌, ◌++◌, arith, ltb, length, drop,
}
use oep_client_python.Bytes.{Bytes, field, le_bytes, le_value-le_bytes}
use oep_client_python.Try.{ok}
use oep_client_python.Message.Header.{new_request, pack_request, unpack_result}
use oep_client_python.HostSession.Outside.{Outside}
use oep_client_python.VirtualCore.State.{
  Endpoint, Times, Core, accept, is_some, same_id, release, tick,
}
use oep_client_python.VirtualCore.Tail.{tail, tail_loop}
use oep_client_python.VirtualCore.Record.{
  corr_of, fn_of, op_of, sid_of, payload_of, success, remember,
}
use oep_client_python.VirtualCore.Operations.{fixed_size, is_free, open_op, take_lock, run_op}
use oep_client_python.VirtualCore.Handle.{
  is_opening, header_answer, check_session, run_request, renew, execute, handle,
}

drop_all : (n : ℕ) (xs : Bytes) → length xs ≡ n → drop n xs ≡ []
drop_all zero [] e = refl
drop_all zero (x ∷ xs) e = absurd (omega (arith, e))
drop_all (suc n) [] e = refl
drop_all (suc n) (x ∷ xs) e = drop_all n xs (omega (arith, e))

module _ (utf8 : Bytes → Bool) (ep : Endpoint) (t : Times) (transport : ℕ) (raw payload : Bytes)
    (sid : ℕ) (k : Core) where
  passes_header :
      (corr_of raw == 0) ≡ false
      → fn_of raw ≡ 0
      → op_of raw ≡ 16
      → sid_of raw ≡ sid
      → 0 < sid
      → same_id sid k.last ≡ false
      → header_answer raw k ≡ none
  unfolding header_answer fixed_size is_free
  passes_header corr fn op s above fresh = ground (arith, corr, fn, op, s, above, fresh)

  passes_session :
      fn_of raw ≡ 0
      → op_of raw ≡ 16
      → sid_of raw ≡ sid
      → 0 < sid
      → k.holder ≡ none
      → same_id sid k.last ≡ false
      → check_session t raw k ≡ accept false
  unfolding check_session is_some same_id
  passes_session fn op s above free fresh =
      rw (free, s, check_session) (ground (arith, fn, op, s, above, free, fresh))

  no_tail : (opening : Bool) → length payload ≡ 5 → tail utf8 (drop 5 payload) opening ≡ accept none
  unfolding tail tail_loop
  no_tail opening len = rw (drop_all 5 payload len) refl

  run_op_open :
      run_op ep t transport 16 sid payload none k
      ≡ accept ((open_op ep t sid payload none k).0, (open_op ep t sid payload none k).1, true)
  unfolding run_op
  run_op_open = refl

  fixed_open : fixed_size 16 ≡ some 5
  unfolding fixed_size
  fixed_open = refl

  runs_open :
      op_of raw ≡ 16
      → sid_of raw ≡ sid
      → payload_of raw ≡ payload
      → length payload ≡ 5
      → run_request utf8 ep t transport none raw k
        ≡ accept ((open_op ep t sid payload none k).0, (open_op ep t sid payload none k).1, true)
  unfolding run_request
  runs_open op s p len =
      let enough : ltb (length payload) 5 ≡ false = ground (arith, len) in
      let size : fixed_size (op_of raw) ≡ some 5 = rw op fixed_open in
      let rest : tail utf8 (drop 5 payload) (is_opening raw) ≡ accept none =
        no_tail (is_opening raw) len in
      let done = run_op_open in rw (size, p, enough, rest, op, s, done, run_request) refl

  opens_holder : k.holder ≡ none → (open_op ep t sid payload none k).1.holder ≡ some sid
  unfolding open_op take_lock release same_id
  opens_holder free = rw (free, open_op) (ground (arith, free))

  kept_holder :
      (result : Bytes) (passed : Bool) (c : Core)
      → (remember ep raw result (renew t sid passed c)).holder ≡ c.holder
  unfolding remember renew
  kept_holder result passed c = ground arith

  execute_opens :
      sid_of raw ≡ sid
      → check_session t raw k ≡ accept false
      → run_request utf8 ep t transport none raw k
        ≡ accept ((open_op ep t sid payload none k).0, (open_op ep t sid payload none k).1, true)
      → k.holder ≡ none
      → ((execute utf8 ep t transport none raw k).0
          ≡ success (corr_of raw) (open_op ep t sid payload none k).0)
        × ((execute utf8 ep t transport none raw k).1.holder ≡ some sid)
  unfolding execute
  execute_opens s checked ran free =
      rw (checked, ran, s, execute)
        (refl, kept_holder _ true (open_op ep t sid payload none k).1 ∙ opens_holder free)

-- The core's clock releases nothing where no session holds the lock.
tick_free :
    (now : ℕ) (k : Core)
    → k.holder ≡ none
    → tick now (record k { renewal = none }) ≡ record k { renewal = none }
unfolding tick is_some
tick_free now k free = ground (arith, free)

module _ (utf8 : Bytes → Bool) (ep : Endpoint) (t : Times) (transport : ℕ) (raw payload : Bytes)
    (sid : ℕ) (k : Core) where
  -- A request that is an open of a session the lock has not known, with the lock free
  pub handle_opens :
      (ltb (length raw) 10 || not (field raw 0 1 == 1)) ≡ false
      → (corr_of raw == 0) ≡ false
      → fn_of raw ≡ 0
      → op_of raw ≡ 16
      → sid_of raw ≡ sid
      → payload_of raw ≡ payload
      → length payload ≡ 5
      → 0 < sid
      → k.holder ≡ none
      → same_id sid k.last ≡ false
      → ((handle utf8 ep t transport none raw k).0
          ≡ some (
              success
                (corr_of raw)
                (open_op ep t sid payload none (record k { renewal = none })).0))
        × ((handle utf8 ep t transport none raw k).1.holder ≡ some sid)
  unfolding handle
  handle_opens form corr fn op s p len above free fresh =
      let ready = record k { renewal = none } in
      let same = tick_free t.started k free in
      let header =
        passes_header utf8 ep t transport raw payload sid ready corr fn op s above fresh in
      let checked =
        passes_session utf8 ep t transport raw payload sid ready fn op s above free fresh in
      let ran = runs_open utf8 ep t transport raw payload sid ready op s p len in
      let (answer, holder) =
        execute_opens utf8 ep t transport raw payload sid ready s checked ran free in
      let header' : header_answer raw (tick t.started ready) ≡ none = rw same header in
      rw (form, header', handle) (rw same (ap some answer, holder))

abbrev pub over : (Bytes → Bool) → Endpoint → Times → ℕ → Outside Core → Outside Core
over utf8 ep t transport o = record o { transport = λ raw k. handle utf8 ep t transport none raw k }

-- The bytes of a request of fn 0
abbrev pub core_bytes : ℕ → ℕ → ℕ → Bytes → Bytes
core_bytes corr op sid payload = 1 ∷ (le_bytes 2 corr ++ (0 ∷ 0 ∷ op ∷ (le_bytes 4 sid ++ payload)))

pub pack_request-core_bytes :
    (corr sid : ℕ) (payload : Bytes)
    → corr < 2 ^ 16
    → sid < 2 ^ 32
    → pack_request (new_request corr 0 16 payload (some sid)) ≡ ok (core_bytes corr 16 sid payload)
unfolding pack_request new_request
pack_request-core_bytes corr sid payload c s = ground (arith, c, s)

pub unpack_result-success :
    (corr : ℕ) (value : Bytes)
    → corr < 2 ^ 16
    → unpack_result (success corr value)
      ≡ ok (record { corr = corr; resolution = 1; detail = 0; payload = value })
unfolding unpack_result success
unpack_result-success corr value c = ground (arith, le_value-le_bytes 2 corr c)
