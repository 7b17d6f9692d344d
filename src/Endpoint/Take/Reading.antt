-- ===== src/Endpoint/Take/Reading.antt =====
-- `Take.tail` against the rules of a request's tail.
use oep_client_python.Prelude.{
  ℕ, ◌≡◌, ◌⊎◌, inl, inr, refl, sym, ◌∙◌, Bool, true, false, ◌&&◌, ◌||◌, Option, none, some, List,
  [], ◌∷◌, ◌++◌, append_assoc, append-nil, arith, ◌==◌, length, drop, bit_and, if◌then◌else◌,
  Option-cases,
}
use oep_client_python.Try.{Error, ok, raise, Try-cases}
use oep_client_python.Bytes.{Bytes}
use oep_client_python.Registry.{malformed, unsupported}
use oep_client_python.Message.Tlv.{Tlv, split_tlvs}
use oep_client_python.VirtualCore.State.{Verdict-cases, accept, reject}
use oep_client_python.Catalog.SortedSet.{has}
use oep_client_python.Endpoint.Take.{
  Take, got_of, is_some, setdefault, is_bad_extension, see, check, tail,
}
use oep_client_python.Endpoint.Take.Tail.{see_all, tail_loop-split_loop}
use oep_client_python.Endpoint.Take.Rules.{
  has_number, first_of, is_once, known_of, breaks_rules, unknown_of,
}

abbrev or_else : {A : Type 0} → Option A → Option A → Option A
or_else none b = b
or_else (some a) b = some a

module _ (known repeats : List ℕ) where
  -- A number of the TLVs that may stand once and has been got before.
  abbrev clashes : List (ℕ × Bytes) → List Tlv → Bool
  clashes got [] = false
  clashes got ((tag, value) ∷ tlvs) =
      is_once known repeats (bit_and tag 0x7f) && is_some (got_of (bit_and tag 0x7f) got)
      || clashes got tlvs

  got_of-setdefault :
      (n m : ℕ) (v : Bytes) (got : List (ℕ × Bytes))
      → got_of n (setdefault m v got) ≡ or_else (got_of n got) (if m == n then some v else none)
  unfolding got_of setdefault
  got_of-setdefault n m v [] = ground arith
  got_of-setdefault n m v ((k, w) ∷ got) = ground (arith, got_of-setdefault n m v got)

  clashes-setdefault :
      (m : ℕ) (v : Bytes) (got : List (ℕ × Bytes)) (tlvs : List Tlv)
      → clashes (setdefault m v got) tlvs
        ≡ (clashes got tlvs || is_once known repeats m && has_number m tlvs)
  clashes-setdefault m v got [] = ground arith
  clashes-setdefault m v got ((tag, value) ∷ tlvs) =
      ground (arith, got_of-setdefault (bit_and tag 0x7f) m v got, clashes-setdefault m v got tlvs)

  clashes-nil : (tlvs : List Tlv) → clashes [] tlvs ≡ false
  unfolding got_of
  clashes-nil [] = refl
  clashes-nil ((tag, value) ∷ tlvs) = ground (arith, clashes-nil tlvs)

  -- What going through the TLVs leaves.
  record Seen (tlvs : List Tlv) (t t' : Take) : Type 0 where
    payload : t'.payload ≡ t.payload
    repeated : t'.repeated ≡ t.repeated ++ known_of known repeats tlvs
    got :
        (n : ℕ)
        → got_of n t'.got ≡ or_else (got_of n t.got) (first_of n (known_of known repeats tlvs))
    unknown : t'.unknown_critical ≡ or_else t.unknown_critical (unknown_of known repeats tlvs)

  -- Whether one TLV is refused.
  abbrev blocks : ℕ → Bytes → Take → Bool
  blocks tag value t =
      is_bad_extension (tag, value)
      || is_once known repeats (bit_and tag 0x7f) && is_some (got_of (bit_and tag 0x7f) t.got)

  see-reject :
      (tag : ℕ) (value : Bytes) (t : Take) (r : ℕ) (p : Bytes)
      → see known repeats (tag, value) t ≡ reject r p
      → (blocks tag value t ≡ true) × (r ≡ malformed) × (p ≡ [])
  unfolding see
  see-reject tag value t r p e = ground arith

  see-accept :
      (tag : ℕ) (value : Bytes) (t t' : Take)
      → see known repeats (tag, value) t ≡ accept t'
      → (blocks tag value t ≡ false)
        × (t'.payload ≡ t.payload)
        × (t'.repeated ≡ t.repeated ++ known_of known repeats ((tag, value) ∷ []))
        × (t'.got ≡ (
            if has (bit_and tag 0x7f) known
            then setdefault (bit_and tag 0x7f) value t.got
            else t.got))
        × (t'.unknown_critical
            ≡ or_else t.unknown_critical (unknown_of known repeats ((tag, value) ∷ [])))
  unfolding see
  see-accept tag value t t' e = ground (arith, append-nil t.repeated)

  -- One TLV and the later ones.
  Seen-cons :
      (tag : ℕ) (value : Bytes) (tlvs : List Tlv) (t t1 t' : Take)
      → see known repeats (tag, value) t ≡ accept t1
      → Seen tlvs t1 t'
      → Seen ((tag, value) ∷ tlvs) t t'
  Seen-cons tag value tlvs t t1 t' one s =
      let (_, payload, repeated, got, unknown) = see-accept tag value t t1 one in
      record {
        payload = s.payload ∙ payload;
        repeated =
            rw
              (
                s.repeated,
                repeated,
                append_assoc t.repeated (known_of known repeats ((tag, value) ∷ []))
                    (known_of known repeats tlvs),
              )
              (ground arith);
        got = λ n. ground (arith, s.got n, got, got_of-setdefault n (bit_and tag 0x7f) value t.got);
        unknown = rw (s.unknown, unknown) (ground arith);
      }

  -- The TLVs of a tail are refused exactly where they break the rules.
  see_all_cases :
      (tlvs : List Tlv) (t : Take)
      → (((clashes t.got tlvs || breaks_rules known repeats tlvs) ≡ true)
          × (see_all known repeats tlvs t ≡ reject malformed []))
        ⊎ (((clashes t.got tlvs || breaks_rules known repeats tlvs) ≡ false)
            × (t' : Take) × (see_all known repeats tlvs t ≡ accept t')
            × Seen tlvs t t')
  unfolding see_all
  see_all_cases [] t = inr (
    refl,
    t,
    refl,
    record {
      payload = refl;
      repeated = sym (append-nil t.repeated);
      got = λ n. ground arith;
      unknown = ground arith;
    },
  )
  see_all_cases ((tag, value) ∷ tlvs) t = elim (Verdict-cases (see known repeats (tag, value) t)) [
    | inl (t1, one) ↦
        let (open_, _, _, got, _) = see-accept tag value t t1 one in
        let clash : clashes t1.got tlvs ≡ (
            clashes t.got tlvs
            || is_once known repeats (bit_and tag 0x7f) && has_number (bit_and tag 0x7f) tlvs) =
          rw got (ground (arith, clashes-setdefault (bit_and tag 0x7f) value t.got tlvs)) in
        elim (see_all_cases tlvs t1) [
          | inl (bad, more) ↦ inl (ground (arith, open_, clash, bad), rw one more)
          | inr (good, t', more, s) ↦ inr (
            ground (arith, open_, clash, good),
            t',
            rw one more,
            Seen-cons tag value tlvs t t1 t' one s,
          )
        ]
    | inr (r, p, one) ↦
        let (bad, reason, payload) = see-reject tag value t r p one in
        inl (ground (arith, bad), rw (one, reason, payload) refl)
  ]

-- The tail behind a request's fixed part, read with its check and with no unknown critical TLV noted before.
-- Where its bytes are not TLVs, or hold a named extension whose name passes its value, or twice a known
-- number that may stand once, it is refused as malformed, wherever that stands; else, where a critical TLV
-- has an unknown number, as unsupported with the tag of the first such; else it is read: the TLVs of
-- known numbers are kept in order, the dict gives each number's first value, and the reader stands at the end.
pub tail_rules :
    (known repeats : List ℕ) (t : Take)
    → t.unknown_critical ≡ none
    → ((((e : Error) × (split_tlvs (drop t.at t.payload) ≡ raise e))
          ⊎ ((tlvs : List Tlv) × (split_tlvs (drop t.at t.payload) ≡ ok tlvs)
              × (breaks_rules known repeats tlvs ≡ true)))
        × (tail known repeats false t ≡ reject malformed []))
      ⊎ ((tlvs : List Tlv) × (split_tlvs (drop t.at t.payload) ≡ ok tlvs)
          × (breaks_rules known repeats tlvs ≡ false)
          × (((tag : ℕ) × (unknown_of known repeats tlvs ≡ some tag)
                × (tail known repeats false t ≡ reject unsupported (tag ∷ [])))
              ⊎ ((unknown_of known repeats tlvs ≡ none)
                  × (t' : Take) × (tail known repeats false t ≡ accept t')
                  × (t'.repeated ≡ known_of known repeats tlvs)
                  × ((n : ℕ) → got_of n t'.got ≡ first_of n (known_of known repeats tlvs))
                  × (t'.at ≡ length t.payload))))
unfolding tail split_tlvs check got_of
tail_rules known repeats t fresh =
    let rest = drop t.at t.payload in
    let start = record t { critical = []; repeated = []; got = [] } in
    let looped = tail_loop-split_loop known repeats (length rest) rest start (omega arith) in
    elim (Try-cases (split_tlvs rest)) [
      | inr (e, cut) ↦ inl (inl (e, cut), rw (rw cut at looped) refl)
      | inl (tlvs, cut) ↦ elim (see_all_cases known repeats tlvs start) [
        | inl (bad, seen) ↦ inl (
          inr (tlvs, cut, ground (arith, bad, clashes-nil known repeats tlvs)),
          rw (rw cut at looped, seen) refl,
        )
        | inr (good, t', seen, s) ↦
            let unknown : t'.unknown_critical ≡ unknown_of known repeats tlvs =
              rw (s.unknown, fresh) refl in
            let whole : tail known repeats false t ≡ check (record t' { at = length t.payload }) =
              rw (rw cut at looped, seen) refl in
            inr (
              tlvs,
              cut,
              ground (arith, good),
              elim (Option-cases (unknown_of known repeats tlvs)) [
                | inl no_other ↦ inr (
                  no_other,
                  record t' { at = length t.payload },
                  ground (arith, whole, unknown, no_other),
                  s.repeated,
                  s.got,
                  refl,
                )
                | inr (tag, other) ↦ inl (tag, other, ground (arith, whole, unknown, other))
              ],
            )
      ]
    ]
