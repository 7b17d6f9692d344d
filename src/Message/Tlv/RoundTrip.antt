-- ===== src/Message/Tlv/RoundTrip.antt =====
-- TLV tails: what `tlv` writes is split again, a tail that splits is exactly the TLVs' bytes, and
-- splitting ends on every input.
use oep_client_python.Prelude.{
  ℕ, zero, suc, sym, ◌+◌, ◌*◌, ◌/◌, ◌%◌, ◌<◌, ◌≤◌, ◌≡◌, refl, All-append, ◌⊎◌, inl, inr, Bool, true,
  false, List, [], ◌∷◌, ◌++◌, append-nil, append_assoc, arith, length, length-append, take-append,
  drop-append, take-append-drop, length-take, length-drop, All-take, All-drop, All, if◌then◌else◌,
}
use oep_client_python.Try.{
  Error, ok, raise, short_payload, protocol_error, ◌>>=◌, >>=-eq_ok, Try-cases,
}
use oep_client_python.Bytes.{Bytes, IsByte}
use oep_client_python.Bits.{and_127, or_128, or_zero}
use oep_client_python.Message.Tlv.{Tlv, IsTlv, tlv, split_one, split_loop, split_tlvs}

-- The tag with bit 7 set where `critical` is.
abbrev pub with_critical : ℕ → Bool → ℕ
with_critical tag critical = if critical then tag % 128 + 128 else tag

-- The bytes of TLVs, one after the other.
abbrev pub tlv_bytes : List Tlv → Bytes
tlv_bytes [] = []
tlv_bytes ((tag, value) ∷ tlvs) =
    tag ∷ length value % 256 ∷ length value / 256 ∷ (value ++ tlv_bytes tlvs)

split_one-append :
    (t : Tlv) (more : Bytes)
    → IsTlv t
    → split_one (t.0 ∷ length t.1 % 256 ∷ length t.1 / 256 ∷ (t.1 ++ more)) ≡ ok (t, more)
unfolding split_one
split_one-append (tag, value) more h =
    let size : length value % 256 + 256 * (length value / 256 + 256 * 0) ≡ length value =
      omega arith in
    rw (size, take-append, drop-append) (ground (arith, h, length-append value more))

split_one-tlv_bytes :
    (raw : Bytes) (t : Tlv) (more : Bytes)
    → All IsByte raw
    → split_one raw ≡ ok (t, more)
    → (raw ≡ t.0 ∷ length t.1 % 256 ∷ length t.1 / 256 ∷ (t.1 ++ more))
      × IsTlv t
      × All IsByte more
      × (length more < length raw)
unfolding split_one
split_one-tlv_bytes (a ∷ b ∷ c ∷ body) t more bytes e =
    let n = b + 256 * (c + 256 * 0) in
    ground (
      arith,
      take-append-drop n body,
      length-take n body,
      length-drop n body,
      All-take IsByte n body bytes.1.1.1,
      All-drop IsByte n body bytes.1.1.1,
    )
split_one-tlv_bytes raw t more bytes e = ground arith

split_loop-tlv_bytes :
    (fuel : ℕ) (tlvs : List Tlv)
    → All IsTlv tlvs
    → length (tlv_bytes tlvs) ≤ fuel
    → split_loop fuel (tlv_bytes tlvs) ≡ ok tlvs
unfolding split_loop
split_loop-tlv_bytes fuel [] h enough = ground arith
split_loop-tlv_bytes zero ((tag, value) ∷ tlvs) h enough = absurd (omega arith)
split_loop-tlv_bytes (suc fuel) ((tag, value) ∷ tlvs) h enough = rw (
  split_one-append (tag, value) (tlv_bytes tlvs) h.0,
  split_loop-tlv_bytes fuel tlvs h.1 (omega (arith, length-append value (tlv_bytes tlvs))),
)

split_loop_sound :
    (fuel : ℕ) (raw : Bytes) (tlvs : List Tlv)
    → All IsByte raw
    → split_loop fuel raw ≡ ok tlvs
    → (raw ≡ tlv_bytes tlvs) × All IsTlv tlvs
unfolding split_loop
split_loop_sound fuel [] tlvs bytes e = ground arith
split_loop_sound zero (b ∷ bs) tlvs bytes e = cc
split_loop_sound (suc fuel) (b ∷ bs) tlvs bytes e =
    let ((t, rest), one, e') = >>=-eq_ok (split_one (b ∷ bs)) _ e in
    let (out, more, e'') = >>=-eq_ok (split_loop fuel rest) _ e' in
    let (head, is_tlv, rest_bytes, shorter) = split_one-tlv_bytes (b ∷ bs) t rest bytes one in
    let (tail, are_tlvs) = split_loop_sound fuel rest out rest_bytes more in ground arith

pub split_one-shorter :
    (raw : Bytes) (t : Tlv) (more : Bytes) → split_one raw ≡ ok (t, more) → length more < length raw
unfolding split_one
split_one-shorter (a ∷ b ∷ c ∷ body) t more e =
    ground (arith, length-drop (b + 256 * (c + 256 * 0)) body)
split_one-shorter raw t more e = ground arith

split_one-raises :
    (raw : Bytes) (e : Error) → split_one raw ≡ raise e → (e ≡ short_payload) ⊎ (e ≡ protocol_error)
unfolding split_one
split_one-raises raw e h = ground arith

split_loop-raises :
    (fuel : ℕ) (raw : Bytes) (e : Error)
    → length raw ≤ fuel
    → split_loop fuel raw ≡ raise e
    → (e ≡ short_payload) ⊎ (e ≡ protocol_error)
unfolding split_loop
split_loop-raises fuel [] e enough h = cc
split_loop-raises zero (b ∷ bs) e enough h = absurd (omega arith)
split_loop-raises (suc fuel) (b ∷ bs) e enough h = elim (Try-cases (split_one (b ∷ bs))) [
  | inl ((t, rest), one) ↦ elim (Try-cases (split_loop fuel rest)) [
    | inl (out, more) ↦ cc (rw (one, more) at h)
    | inr (e', more) ↦ ground (
      arith,
      rw (one, more) at h,
      split_one-shorter (b ∷ bs) t rest one,
      split_loop-raises fuel rest e',
    )
  ]
  | inr (e', one) ↦ ground (arith, rw one at h, split_one-raises (b ∷ bs) e' one)
]

-- Splitting the bytes of TLVs, one after the other, gives the TLVs.
pub split_tlvs-tlv_bytes :
    (tlvs : List Tlv) → All IsTlv tlvs → split_tlvs (tlv_bytes tlvs) ≡ ok tlvs
unfolding split_tlvs
split_tlvs-tlv_bytes tlvs h = split_loop-tlv_bytes _ tlvs h (omega arith)

-- A tail of bytes that splits is exactly the bytes of its TLVs, each of which has an encoding: no byte
-- is skipped and none is read twice.
pub split_tlvs_sound :
    (raw : Bytes) (tlvs : List Tlv)
    → All IsByte raw
    → split_tlvs raw ≡ ok tlvs
    → (raw ≡ tlv_bytes tlvs) × All IsTlv tlvs
unfolding split_tlvs
split_tlvs_sound raw tlvs bytes e = split_loop_sound _ raw tlvs bytes e

-- Splitting ends on every input: where it does not give TLVs it raises ShortPayload or ProtocolError.
pub split_tlvs-raises :
    (raw : Bytes) (e : Error)
    → split_tlvs raw ≡ raise e
    → (e ≡ short_payload) ⊎ (e ≡ protocol_error)
unfolding split_tlvs
split_tlvs-raises raw e h = split_loop-raises _ raw e (omega arith) h

-- What `tlv` returns: the bytes of the TLV whose tag has bit 7 set if `critical` is, for a tag of one
-- byte not numbered 0 and a value whose length fits 16 bits.
pub tlv-eq_bytes :
    (tag : ℕ) (value : Bytes) (critical : Bool)
    → IsTlv (tag, value)
    → (tlv tag value critical ≡ ok (tlv_bytes ((with_critical tag critical, value) ∷ [])))
      × IsTlv (with_critical tag critical, value)
unfolding tlv
tlv-eq_bytes tag value true h =
    ground (arith, h, or_128 tag, and_127 tag, and_127 (tag % 128 + 128), append-nil value)
tlv-eq_bytes tag value false h = ground (arith, h, or_zero tag, append-nil value)

tlv_bytes-append : (xs ys : List Tlv) → tlv_bytes (xs ++ ys) ≡ tlv_bytes xs ++ tlv_bytes ys
tlv_bytes-append [] ys = refl
tlv_bytes-append ((tag, value) ∷ xs) ys = rw (tlv_bytes-append xs ys, append_assoc) refl

-- A TLV written by `tlv` between other TLVs, any of which may be missing, is split from them: an option put on
-- a request is read as it was put, in its place and with bit 7 as asked.
pub split_tlvs-tlv :
    (before after : List Tlv) (tag : ℕ) (value : Bytes) (critical : Bool)
    → All IsTlv before
    → All IsTlv after
    → IsTlv (tag, value)
    → (tlv tag value critical >>= λ raw. split_tlvs (tlv_bytes before ++ (raw ++ tlv_bytes after)))
      ≡ ok (before ++ ((with_critical tag critical, value) ∷ after))
split_tlvs-tlv before after tag value critical h h' k =
    let (written, is_tlv) = tlv-eq_bytes tag value critical k in
    let t : Tlv = (with_critical tag critical, value) in
    let all = before ++ (t ∷ after) in
    let one : tlv_bytes (t ∷ []) ++ tlv_bytes after ≡ tlv_bytes (t ∷ after) =
      sym (tlv_bytes-append (t ∷ []) after) in
    let split = split_tlvs-tlv_bytes all (All-append IsTlv before (t ∷ after) h (is_tlv, h')) in
    rw (written, one, ← tlv_bytes-append before (t ∷ after)) split
