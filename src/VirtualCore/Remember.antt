-- ===== src/VirtualCore/Remember.antt =====
-- What the record of a session's requests holds after a request has run.
use oep_client_python.Prelude.{
  ℕ, ◌+◌, ◌-◌, ◌%◌, ◌≤◌, ◌<◌, ◌≡◌, ◌≢◌, refl, inl, inr, Bool, true, false, ◌||◌, Option, none, some,
  List, [], ◌∷◌, ◌++◌, arith, ltb, ◌==◌, length, length-append, drop, drop-append_le, All-drop, All,
  Option-cases, Bool-cases,
}
use oep_client_python.Bytes.{Bytes}
use oep_client_python.VirtualCore.State.{
  Endpoint, Times, Entry, Core, accept, same_id, release, Verdict-cases,
}
use oep_client_python.VirtualCore.Record.{
  corr_of, payload_of, sid_of, op_of, refusal, success, corr_distance, lookup, put, drop_old,
  cache_max, drop_first, remember, kept_if_short,
}
use oep_client_python.VirtualCore.Operations.{fixed_size, open_op, take_lock, run_op}
use oep_client_python.VirtualCore.Tail.{tail}
use oep_client_python.VirtualCore.Handle.{is_opening, check_session, run_request, renew, execute}

-- No entry of the record is the corr's.
Absent : ℕ → List (ℕ × Entry) → Type 0
Absent corr cache = All (λ p. p.0 ≢ corr) cache

lookup-Absent : (corr : ℕ) (cache : List (ℕ × Entry)) → lookup corr cache ≡ none → Absent corr cache
unfolding lookup Absent
lookup-Absent corr [] h = tt
lookup-Absent corr ((c, e) ∷ cache) h = ground (arith, lookup-Absent corr cache)

module _ (corr : ℕ) (e : Entry) where
  lookup_last :
      (cache : List (ℕ × Entry))
      → Absent corr cache
      → lookup corr (cache ++ ((corr, e) ∷ [])) ≡ some e
  unfolding lookup Absent
  lookup_last [] h = ground arith
  lookup_last ((c, old) ∷ cache) h = ground (arith, lookup_last cache h.1)

  put_last :
      (cache : List (ℕ × Entry)) → Absent corr cache → put corr e cache ≡ cache ++ ((corr, e) ∷ [])
  unfolding put Absent
  put_last [] h = refl
  put_last ((c, old) ∷ cache) h = ground (arith, put_last cache h.1)

  drop_old_last :
      (cache : List (ℕ × Entry))
      → drop_old corr (cache ++ ((corr, e) ∷ [])) ≡ drop_old corr cache ++ ((corr, e) ∷ [])
  unfolding drop_old corr_distance
  drop_old_last [] = let same : (corr + 0x10000 - corr) % 0x10000 ≡ 0 = omega arith in rw same refl
  drop_old_last ((c, old) ∷ cache) = ground (arith, drop_old_last cache)

drop_old-Absent :
    (corr : ℕ) (cache : List (ℕ × Entry)) → Absent corr cache → Absent corr (drop_old corr cache)
unfolding drop_old Absent
drop_old-Absent corr [] h = tt
drop_old-Absent corr ((c, old) ∷ cache) h = ground (arith, drop_old-Absent corr cache h.1)

-- What the record of a request finds: the entry just put, where the corr had none.
lookup-put :
    (corr n : ℕ) (e : Entry) (cache : List (ℕ × Entry))
    → 0 < n
    → lookup corr cache ≡ none
    → lookup corr (drop_first n (drop_old corr (put corr e cache))) ≡ some e
unfolding drop_first
lookup-put corr n e cache h none_yet =
    let absent = lookup-Absent corr cache none_yet in
    let old = drop_old corr cache in
    let k = length (old ++ ((corr, e) ∷ [])) - n in
    let within : k ≤ length old = omega (arith, length-append old ((corr, e) ∷ [])) in
    rw
      (
        put_last corr e cache absent,
        drop_old_last corr e cache,
        drop-append_le k old ((corr, e) ∷ []) within,
      )
      (lookup_last corr e (drop k old)
        (unfold Absent in All-drop (λ p. p.0 ≢ corr) k old (drop_old-Absent corr cache absent)))

-- Where a request is of the session last opened, its corr is not in the record.
abbrev pub Fresh : Bytes → Core → Type 0
Fresh request c = same_id (sid_of request) c.last ≡ true → lookup (corr_of request) c.cache ≡ none

module _ (request : Bytes) (c : Core) where
  Fresh-renew :
      (t : Times) (sid : ℕ) (passed : Bool) → Fresh request c → Fresh request (renew t sid passed c)
  unfolding renew
  Fresh-renew t sid passed h = ground (arith, h)

  Fresh-run_op :
      (ep : Endpoint) (t : Times) (transport op sid : ℕ) (payload value : Bytes)
      (owner : Option Bytes) (c' : Core) (opened : Bool)
      → run_op ep t transport op sid payload owner c ≡ accept (value, c', opened)
      → Fresh request c
      → Fresh request c'
  unfolding run_op open_op take_lock release lookup
  Fresh-run_op ep t transport op sid payload value owner c' opened e h = ground (arith, h)

abbrev pub entry_of : Endpoint → Bytes → Bytes → Entry
entry_of ep request result = record {
  request = kept_if_short ep request;
  result = kept_if_short ep result;
}

-- The record has the request and the answer of a request of the session last opened.
abbrev pub Recorded : Endpoint → Bytes → Bytes → Core → Type 0
Recorded ep request result c =
    (sid_of request == 0) ≡ false
    → same_id (sid_of request) c.last ≡ true
    → lookup (corr_of request) c.cache ≡ some (entry_of ep request result)

Recorded-remember :
    (ep : Endpoint) (request result : Bytes) (c : Core)
    → Fresh request c
    → Recorded ep request result (remember ep request result c)
unfolding remember
Recorded-remember ep request result c h nonzero = ground (
  arith,
  h,
  nonzero,
  lookup-put (corr_of request) (cache_max ep) (entry_of ep request result) c.cache,
)

-- A request that is accepted ran its operation.
pub run_request-run_op :
    (utf8 : Bytes → Bool) (ep : Endpoint) (t : Times) (transport : ℕ) (admission : Option ℕ)
    (request value : Bytes) (c c' : Core) (opened : Bool)
    → run_request utf8 ep t transport admission request c ≡ accept (value, c', opened)
    → (owner : Option Bytes) × (run_op ep t transport
          (op_of request)
          (sid_of request)
          (payload_of request)
          owner
          c
        ≡ accept (value, c', opened))
unfolding run_request
run_request-run_op utf8 ep t transport (some reason) request value c c' opened e = cc
run_request-run_op utf8 ep t transport none request value c c' opened e =
    elim (Option-cases (fixed_size (op_of request))) [
      | inl absent ↦ cc (rw (absent, run_request) at e)
      | inr (size, there) ↦ elim (Bool-cases (ltb (length (payload_of request)) size)) [
        | inl short ↦ cc (rw (there, run_request, short) at e)
        | inr long ↦
            elim (Verdict-cases (tail utf8 (drop size (payload_of request)) (is_opening request))) [
              | inr (reason, payload, bad) ↦ cc (rw (there, run_request, long, bad) at e)
              | inl (owner, good) ↦ (owner, rw (there, run_request, long, good) at e)
            ]
      ]
    ]

pub execute-Recorded :
    (utf8 : Bytes → Bool) (ep : Endpoint) (t : Times) (transport : ℕ) (admission : Option ℕ)
    (request : Bytes) (c : Core)
    → Fresh request c
    → Recorded ep request
        (execute utf8 ep t transport admission request c).0
        (execute utf8 ep t transport admission request c).1
unfolding execute
execute-Recorded utf8 ep t transport admission request c h =
    elim (Verdict-cases (check_session t request c)) [
      | inr (reason, payload, e) ↦
          rw (e, execute)
            (Recorded-remember ep request (refusal (corr_of request) reason payload) c h)
      | inl (passed, e) ↦
          elim (Verdict-cases (run_request utf8 ep t transport admission request c)) [
            | inr (reason, payload, e') ↦
                rw (e, e', execute)
                  (Recorded-remember ep request (refusal (corr_of request) reason payload)
                    (renew t (sid_of request) passed c)
                    (Fresh-renew request c t (sid_of request) passed h))
            | inl ((value, c', opened), e') ↦
                let (owner, ran) =
                  run_request-run_op utf8 ep t transport admission request value c c' opened e' in
                rw (e, e', execute)
                  (Recorded-remember ep request (success (corr_of request) value)
                    (renew t (sid_of request) (passed || opened) c')
                    (Fresh-renew request c' t (sid_of request) (passed || opened) (
                      Fresh-run_op request c ep t transport (op_of request) (sid_of request)
                        (payload_of request) value owner c' opened ran h)))
          ]
    ]
