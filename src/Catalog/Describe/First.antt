-- ===== src/Catalog/Describe/First.antt =====
-- The loop of `decode_description` against `first_value` and `first_fixed`: of a tag that is not
-- repeated, the first TLV counts.
use mathlib.Core.Option.{map as map_option}
use oep_client_python.Prelude.{
  subst, ℕ, ◌≡◌, refl, ap, sym, ◌∙◌, ◌⊎◌, inl, inr, ◌≢◌, Bool, true, false, not, ◌&&◌, ◌||◌, Option,
  none, some, bit_and, List, [], ◌∷◌, arith, ◌==◌, if◌then◌else◌, Bool-cases,
}
use oep_client_python.Try.{ok, >>=-eq_ok}
use oep_client_python.Bytes.{Bytes, le_value}
use oep_client_python.Message.Tlv.{Tlv, split_tlvs}
use oep_client_python.Catalog.SortedSet.{has}
use oep_client_python.Catalog.Bitmap.{check_ops, unpack_ops}
use oep_client_python.Catalog.Describe.{
  Description, first_value, fixed_or_none, first_fixed, is_once, read_value, read_or_broken,
  read_tlv, read_tlvs, finished, no_description, decode_description,
}
use oep_client_python.Catalog.Describe.Kept.{
  Reads, Reads-IsKept, number, ops_or_none, invalid, Reads-max_clock_hz, Reads-max_length,
  Reads-min_clock_hz, Reads-features, Reads-ops, Reads-invalid,
}

bind_option : {A B : Type 0} → Option A → (A → Option B) → Option B
bind_option none f = none
bind_option (some a) f = f a

abbrev skips : ℕ → List ℕ → Bool
skips t seen = not (bit_and t 0x80 == 0) || is_once t && has t seen

-- One round: the TLV is skipped, or read.
pub read_tlv_cases :
    (t : ℕ) (value : Bytes) (d d' : Description) (seen seen' : List ℕ)
    → read_tlv (t, value) (d, seen) ≡ ok (d', seen')
    → ((skips t seen ≡ true) × (d' ≡ d) × (seen' ≡ seen))
      ⊎ ((skips t seen ≡ false)
          × Reads t value d d'
          × (seen' ≡ (if is_once t then t ∷ seen else seen)))
unfolding read_tlv
read_tlv_cases t value d d' seen seen' e = elim (Bool-cases (not (bit_and t 0x80 == 0))) [
  | inl critical ↦ ground (arith, rw critical at e)
  | inr plain ↦ elim (Bool-cases (is_once t && has t seen)) [
    | inl again ↦ ground (arith, rw (plain, again) at e)
    | inr new ↦
        let (d1, one, e') =
          >>=-eq_ok (read_or_broken t value d (read_value t value d)) _ (rw (plain, new) at e) in
        ground (arith, one, e')
  ]
]

module _ {A : Type 0} (view : Description → Option A) (tag : ℕ) (of_value : Bytes → Option A)
    (once : is_once tag ≡ true) (plain : bit_and tag 0x80 ≡ 0)
    (other : (t : ℕ) (value : Bytes) (d d' : Description)
      → (t == tag) ≡ false
      → Reads t value d d'
      → view d' ≡ view d)
    (first : (value : Bytes) (d d' : Description)
      → view d ≡ none
      → Reads tag value d d'
      → view d' ≡ of_value value) where
  kept_one :
      (t : ℕ) (value : Bytes) (d d' : Description) (seen seen' : List ℕ)
      → has tag seen ≡ true
      → read_tlv (t, value) (d, seen) ≡ ok (d', seen')
      → (view d' ≡ view d) × (has tag seen' ≡ true)
  kept_one t value d d' seen seen' h e = elim (read_tlv_cases t value d d' seen seen' e) [
    | inl (_, same, still) ↦ (ap view same, ap (has tag) still ∙ h)
    | inr (reads, read, seen_) ↦
        let differs : (t == tag) ≡ false = ground (arith, once, plain) in
        (other t value d d' differs read, ground (arith, seen_))
  ]

  found_one :
      (t : ℕ) (value : Bytes) (d d' : Description) (seen seen' : List ℕ)
      → has tag seen ≡ false
      → view d ≡ none
      → read_tlv (t, value) (d, seen) ≡ ok (d', seen')
      → ((t ≡ tag) × (view d' ≡ of_value value) × (has tag seen' ≡ true))
        ⊎ ((t ≢ tag) × (view d' ≡ none) × (has tag seen' ≡ false))
  found_one t value d d' seen seen' h v e = elim (read_tlv_cases t value d d' seen seen' e) [
    | inl (skip, same, still) ↦
        let differs : t ≢ tag = ground (arith, once, plain) in
        ground (arith, differs, same, still, v, h)
    | inr (reads, read, seen_) ↦ elim (Bool-cases (t == tag)) [
      | inl e1 ↦
          let e2 : t ≡ tag = ground arith in
          let now = first value d d' v (subst (λ t. Reads t value d d') e2 read) in
          ground (arith, e2, now, seen_, once)
      | inr differs ↦
          let still = other t value d d' differs read in ground (arith, differs, still, seen_)
    ]
  ]

  -- A tag that has been seen keeps what it gave.
  kept :
      (tlvs : List Tlv) (d d' : Description) (seen seen' : List ℕ)
      → has tag seen ≡ true
      → read_tlvs tlvs (d, seen) ≡ ok (d', seen')
      → view d' ≡ view d
  unfolding read_tlvs
  kept [] d d' seen seen' h e = ground arith
  kept ((t, value) ∷ tlvs) d d' seen seen' h e =
      let ((d1, seen1), one, more) = >>=-eq_ok (read_tlv (t, value) (d, seen)) _ e in
      let (same, has1) = kept_one t value d d1 seen seen1 h one in
      kept tlvs d1 d' seen1 seen' has1 more ∙ same

  -- A tag that has not been seen gives what its first TLV says.
  found :
      (tlvs : List Tlv) (d d' : Description) (seen seen' : List ℕ)
      → has tag seen ≡ false
      → view d ≡ none
      → read_tlvs tlvs (d, seen) ≡ ok (d', seen')
      → view d' ≡ bind_option (first_value tlvs tag) of_value
  unfolding read_tlvs first_value bind_option
  found [] d d' seen seen' h v e = ground arith
  found ((t, value) ∷ tlvs) d d' seen seen' h v e =
      let ((d1, seen1), one, more) = >>=-eq_ok (read_tlv (t, value) (d, seen)) _ e in
      elim (found_one t value d d1 seen seen1 h v one) [
        | inl (same, now, has1) ↦
            let later = kept tlvs d1 d' seen1 seen' has1 more in ground (arith, same, now, later)
        | inr (differs, still, not_has1) ↦
            let later = found tlvs d1 d' seen1 seen' not_has1 still more in
            ground (arith, differs, later)
      ]

number-first_fixed :
    (n : ℕ) (o : Option Bytes) → bind_option o (number n) ≡ map_option le_value (fixed_or_none n o)
unfolding bind_option fixed_or_none
number-first_fixed n none = refl
number-first_fixed n (some value) = ground arith

-- The operations that a describe declares, of the first value of the ops tag.
abbrev pub declared_ops : Option Bytes → Option (List ℕ)
declared_ops none = none
declared_ops (some value) = ops_or_none value

abbrev pub declares_broken_ops : Option Bytes → Bool
declares_broken_ops none = false
declares_broken_ops (some value) = check_ops value

finished_ops :
    (o : Option Bytes) (ops : Option (List ℕ)) (b : Bool)
    → ops ≡ bind_option o ops_or_none
    → (if b then some true else none)
      ≡ bind_option o (λ value. if check_ops value then some true else none)
    → ((if b then none else ops) ≡ declared_ops o) × (b ≡ declares_broken_ops o)
unfolding bind_option unpack_ops check_ops
finished_ops none ops b h k = ground arith
finished_ops (some value) ops b h k = ground arith

-- Of a description that is decoded, the clocks, the length and the features are those of the first
-- TLV of their tag where that has its defined length, and none otherwise, and the operations are those of
-- the first TLV of the ops tag where that keeps the encoding, and none otherwise; a broken one is noted as such.
pub decode_description_first :
    (raw : Bytes) (tlvs : List Tlv) (d : Description)
    → split_tlvs raw ≡ ok tlvs
    → decode_description raw ≡ ok d
    → (d.max_clock_hz ≡ map_option le_value (first_fixed tlvs 0x02 4))
      × (d.max_length ≡ map_option le_value (first_fixed tlvs 0x03 2))
      × (d.min_clock_hz ≡ map_option le_value (first_fixed tlvs 0x04 4))
      × (d.features ≡ map_option le_value (first_fixed tlvs 0x05 4))
      × (d.ops ≡ declared_ops (first_value tlvs 0x07))
      × (d.ops_invalid ≡ declares_broken_ops (first_value tlvs 0x07))
unfolding decode_description no_description finished first_fixed
decode_description_first raw tlvs d split e =
    let start = no_description in
    let ((d1, seen), loop, e') = >>=-eq_ok (read_tlvs tlvs (start, [])) _ (rw split at e) in
    let max_clock_hz_ =
      found (λ d. d.max_clock_hz) 0x02 (number 4) refl refl
        (λ t value d d' h r. (Reads-IsKept t value d d' r).max_clock_hz h) Reads-max_clock_hz tlvs
        start d1 [] seen refl refl loop in
    let max_length_ =
      found (λ d. d.max_length) 0x03 (number 2) refl refl
        (λ t value d d' h r. (Reads-IsKept t value d d' r).max_length h) Reads-max_length tlvs start
        d1 [] seen refl refl loop in
    let min_clock_hz_ =
      found (λ d. d.min_clock_hz) 0x04 (number 4) refl refl
        (λ t value d d' h r. (Reads-IsKept t value d d' r).min_clock_hz h) Reads-min_clock_hz tlvs
        start d1 [] seen refl refl loop in
    let features_ =
      found (λ d. d.features) 0x05 (number 4) refl refl
        (λ t value d d' h r. (Reads-IsKept t value d d' r).features h) Reads-features tlvs start d1
        [] seen refl refl loop in
    let ops_ =
      found (λ d. d.ops) 0x07 ops_or_none refl refl
        (λ t value d d' h r. (Reads-IsKept t value d d' r).ops h) Reads-ops tlvs start d1 [] seen
        refl refl loop in
    let invalid_ =
      found invalid 0x07 (λ value. if check_ops value then some true else none) refl refl
        (λ t value d d' h r.
          ap (λ b. if b then some true else none) ((Reads-IsKept t value d d' r).ops_invalid h))
        Reads-invalid tlvs start d1 [] seen refl refl loop in
    let ended : finished d1 ≡ d = cc in
    let (declared, broken) =
      finished_ops (first_value tlvs 0x07) d1.ops d1.ops_invalid ops_ invalid_ in
    (
      ap (λ d. d.max_clock_hz) (sym ended) ∙ max_clock_hz_ ∙ number-first_fixed 4 _,
      ap (λ d. d.max_length) (sym ended) ∙ max_length_ ∙ number-first_fixed 2 _,
      ap (λ d. d.min_clock_hz) (sym ended) ∙ min_clock_hz_ ∙ number-first_fixed 4 _,
      ap (λ d. d.features) (sym ended) ∙ features_ ∙ number-first_fixed 4 _,
      ap (λ d. d.ops) (sym ended) ∙ declared,
      ap (λ d. d.ops_invalid) (sym ended) ∙ broken,
    )
