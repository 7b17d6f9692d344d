-- ===== src/HostSession/Confirmed.antt =====
-- What a host takes of a confirm, a clock's answer and an owner's text.
use oep_client_python.Prelude.{
  ℕ, zero, suc, ◌+◌, ◌-◌, ◌≤◌, ◌≡◌, refl, inl, inr, true, false, ◌&&◌, none, some, List, [], ◌∷◌,
  arith, leb, length, length-take, take, Bool-cases,
}
use oep_client_python.Try.{ok, require, protocol_error, >>=-eq_ok, Try-cases}
use oep_client_python.Bytes.{Bytes}
use oep_client_python.Registry.{core_fn, op_confirm, confirm_result}
use oep_client_python.Message.Tlv.{bytes_eq}
use oep_client_python.Message.Header.{Result, succeeded}
use oep_client_python.Message.Reader.{reader, u8, take_bytes, take_format, tail}
use oep_client_python.HostSession.Exec.{Raised, Outcome, returned, raised, caught, ◌>>=◌, try_}
use oep_client_python.HostSession.State.{Limits, Client, boot_id_seen, check_confirm}
use oep_client_python.HostSession.Answers.{read_confirm, clean_text, shorten, owner_text}
use oep_client_python.HostSession.Outside.{Requests, modify}
use oep_client_python.HostSession.Asking.{
  confirmed_with, confirm_for, not_confirmed, confirm_answer, is_malformed,
}
use oep_client_python.HostSession.Sound.Open.{>>=-eq_returned}
use oep_client_python.HostSession.Clock.{ClockReading, host_ns, uncertainty_ns}

-- The moment lies between the clock's readings before and after.
-- The midpoint of the host's times before and after a clock's answer is no farther from any moment between the
-- two than the uncertainty, which is half the round trip: the reading bounds when the probe read its clock.
pub host_ns-uncertainty_ns :
    (r : ClockReading) (moment : ℕ)
    → r.round_trip_ns ≡ r.after_ns - r.before_ns
    → r.before_ns ≤ moment
    → moment ≤ r.after_ns
    → (moment ≤ host_ns r + uncertainty_ns r) × (host_ns r ≤ moment + uncertainty_ns r)
unfolding host_ns uncertainty_ns
host_ns-uncertainty_ns r moment e low high = (omega (arith, e), omega (arith, e))

length-take_of_suc : (n : ℕ) (xs : List ℕ) → length xs ≡ suc n → length (take n xs) ≡ n
length-take_of_suc n xs e = omega (arith, e, length-take n xs)

shorten-le :
    (encode : List ℕ → Bytes) (n : ℕ) (clean : List ℕ)
    → encode [] ≡ []
    → length clean ≡ n
    → length (shorten encode n clean) ≤ 32
unfolding shorten
shorten-le encode zero [] empty e = rw empty (omega arith)
shorten-le encode zero (c ∷ cs) empty e = absurd (omega (arith, e))
shorten-le encode (suc n) clean empty e =
    ground (arith, shorten-le encode n (take n clean) empty (length-take_of_suc n clean e))

-- The text that open sends for an owner, where it is not refused, has 1 to 32 bytes, if no characters encode to
-- no bytes.
pub owner_text-length :
    (encode : List ℕ → Bytes) (owner : List ℕ) (raw : Bytes)
    → encode [] ≡ []
    → owner_text encode owner ≡ ok raw
    → (1 ≤ length raw) × (length raw ≤ 32)
unfolding owner_text
owner_text-length encode owner raw empty e =
    let short = shorten-le encode (length (clean_text owner)) (clean_text owner) empty refl in
    ground (arith, short, e)

read_confirm-range :
    (low high : ℕ) (payload : Bytes) (limits : Limits)
    → read_confirm low high payload ≡ ok limits
    → (low ≤ limits.revision) × (limits.revision ≤ high)
unfolding read_confirm
read_confirm-range low high payload limits e =
    let (one, e1, h1) = >>=-eq_ok (take_bytes 4 (reader payload)) _ e in
    let (two, e2, h2) = >>=-eq_ok (u8 one.1) _ h1 in
    let (u, e3, h3) = >>=-eq_ok (require (bytes_eq one.0 confirm_result) protocol_error) _ h2 in
    let (v, e4, h4) = >>=-eq_ok (require (leb low two.0 && leb two.0 high) protocol_error) _ h3 in
    let (fields, e5, h5) = >>=-eq_ok (take_format (2 ∷ 4 ∷ 1 ∷ 4 ∷ []) two.1) _ h4 in
    let (rows, e6, h6) = >>=-eq_ok (tail fields.1) _ h5 in
    let revision : limits.revision ≡ two.0 = ground (arith, h6) in ground (arith, e4, revision)

-- The least that a probe must be able to do: a frame of 64 bytes, a window of a frame, one request.
abbrev IsConforming : Limits → Type 0
IsConforming limits =
    (64 ≤ limits.max_frame) × ((limits.max_frame ≤ limits.window) × (1 ≤ limits.max_inflight))

check_confirm-IsConforming :
    (limits : Limits)
    → check_confirm limits.max_frame limits.window limits.max_inflight ≡ true
    → IsConforming limits
unfolding check_confirm
check_confirm-IsConforming limits e = (ground (arith, e), (ground (arith, e), ground (arith, e)))

confirmed_fields :
    (limits : Limits) (c : Client)
    → ((confirmed_with limits c).revision ≡ some limits.revision)
      × ((confirmed_with limits c).limits ≡ some limits)
      × ((confirmed_with limits c).boot_id ≡ some limits.boot_id)
unfolding confirmed_with boot_id_seen
confirmed_fields limits c = (refl, refl, refl)

module _ {L : Type 0} where
  answer_eq :
      (read limits : Limits) (s s' : Client × L)
      → ◌≡◌ {A = Outcome Limits × (Client × L)}
          (returned read, (confirmed_with read s.0, s.1))
          (returned limits, s')
      → (read ≡ limits) × (s'.0 ≡ confirmed_with read s.0)
  answer_eq read limits s s' e = ground (arith, e)

  not_confirmed_raises :
      (x : Raised) (limits : Limits) (s s' : Client × L)
      → not_confirmed x s ≡ (returned limits, s')
      → ⊥
  unfolding not_confirmed ◌>>=◌ modify
  not_confirmed_raises x limits s s' e = elim (Bool-cases (is_malformed x)) [
    | inl h ↦ absurd (ground (arith, h, e))
    | inr h ↦ absurd (ground (arith, h, e))
  ]

  asked_confirm :
      (low high : ℕ) (limits : Limits) (r : Outcome Result × (Client × L)) (s' : Client × L)
      → caught not_confirmed (confirm_answer low high) r ≡ (returned limits, s')
      → (result : Result) × (confirm_answer low high result r.1 ≡ (returned limits, s'))
  asked_confirm low high limits (returned result, s) s' e = (result, e)
  asked_confirm low high limits (raised x, s) s' e = absurd (not_confirmed_raises x limits s s' e)

  -- What the answer leads to, once it is in.
  judged_confirm :
      (low high : ℕ) (result : Result) (limits : Limits) (s s' : Client × L)
      → confirm_answer low high result s ≡ (returned limits, s')
      → (low ≤ limits.revision)
        × (limits.revision ≤ high)
        × IsConforming limits
        × (s'.0 ≡ confirmed_with limits s.0)
  unfolding confirm_answer ◌>>=◌ modify
  judged_confirm low high result limits s s' e = elim (Bool-cases (succeeded result)) [
    | inr bad ↦ absurd (ground (arith, bad, e))
    | inl good ↦ elim (Try-cases (read_confirm low high result.payload)) [
      | inr (x, broken) ↦ absurd (ground (arith, good, broken, e))
      | inl (read, as_read) ↦
          elim (Bool-cases (check_confirm read.max_frame read.window read.max_inflight)) [
            | inr unfit ↦ absurd (ground (arith, good, as_read, unfit, e))
            | inl fit ↦
                let (same, after) =
                  answer_eq read limits s s' (ground (arith, good, as_read, fit, e)) in
                let (above, below) = read_confirm-range low high result.payload read as_read in
                rw (← same) (above, below, check_confirm-IsConforming read fit, after)
          ]
    ]
  ]

  -- A confirm of the revisions from `low` to `high` that gives an answer, whatever requests carry it: the
  -- answer's revision is in that range, its max_frame is at least 64 bytes and no more than its window, it
  -- takes at least one request at a time, and the host has taken the revision, the limits and the boot_id of
  -- this answer.
  pub confirm_for-returned :
      (r : Requests L) (low high : ℕ) (limits : Limits) (s s' : Client × L)
      → confirm_for r (low, high) s ≡ (returned limits, s')
      → (low ≤ limits.revision)
        × (limits.revision ≤ high)
        × (64 ≤ limits.max_frame)
        × (limits.max_frame ≤ limits.window)
        × (1 ≤ limits.max_inflight)
        × (s'.0.revision ≡ some limits.revision)
        × (s'.0.limits ≡ some limits)
        × (s'.0.boot_id ≡ some limits.boot_id)
  unfolding confirm_for try_
  confirm_for-returned r low high limits s s' e =
      let (body, s1, e1, rest) = >>=-eq_returned _ _ s limits s' e in
      let asked = r core_fn op_confirm body false none s1 in
      let (result, answered) = asked_confirm low high limits asked s' rest in
      let (above, below, fit, after) = judged_confirm low high result limits asked.1 s' answered in
      let (revision, kept, boot_id) = confirmed_fields limits asked.1.0 in
      rw after (above, below, fit.0, fit.1.0, fit.1.1, revision, kept, boot_id)
