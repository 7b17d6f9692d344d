-- ===== src/Endpoint/Take.antt =====
-- src/oep_client/endpoint.py: `Take`, which reads a request's fixed part and the TLVs behind it.
pub mod Tail
pub mod Rules
pub mod Reading
use oep_client_python.Prelude.{
  ℕ, zero, suc, ◌+◌, Bool, true, false, not, ◌&&◌, ◌||◌, Option, none, some, List, [], ◌∷◌, ◌++◌,
  ltb, ◌==◌, length, take, drop, bit_and, bit_or, if◌then◌else◌,
}
use oep_client_python.Bytes.{Bytes, field, slice}
use oep_client_python.Registry.{
  tlv_header, tag_critical, tag_named_extension, tag_fixed, malformed, unsupported,
}
use oep_client_python.Message.Tlv.{Tlv}
use oep_client_python.Message.Reader.{calcsize, unpack_from}
use oep_client_python.VirtualCore.State.{Verdict, accept, reject, ◌>>=◌}
use oep_client_python.Catalog.SortedSet.{has}

-- `critical` is a set, `got` (of `tail`) a dict; the dict stands here to go through the loop.
pub record Take : Type 0 where
  pub payload : Bytes
  pub at : ℕ
  pub critical : List ℕ
  pub repeated : List Tlv
  pub unknown_critical : Option ℕ
  pub got : List (ℕ × Bytes)

unfoldable pub new_take : Bytes → Take
new_take payload = record {
  payload = payload;
  at = 0;
  critical = [];
  repeated = [];
  unknown_critical = none;
  got = [];
}

-- take(fmt), the format given by the sizes of its fields
unfoldable pub take_fields : List ℕ → Take → Verdict (List ℕ × Take)
take_fields format t =
    let size = calcsize format in
    if ltb (length t.payload) (t.at + size)
    then reject malformed []
    else accept (unpack_from format t.payload t.at, record t { at = t.at + size })

unfoldable pub take_raw : ℕ → Take → Verdict (Bytes × Take)
take_raw n t =
    if ltb (length t.payload) (t.at + n)
    then reject malformed []
    else accept (slice t.payload t.at n, record t { at = t.at + n })

-- got.get(number)
unfoldable pub got_of : ℕ → List (ℕ × Bytes) → Option Bytes
got_of number [] = none
got_of number ((n, v) ∷ got) = if n == number then some v else got_of number got

abbrev pub is_some : Option Bytes → Bool
is_some none = false
is_some (some v) = true

-- got.setdefault(number, value)
unfoldable pub setdefault : ℕ → Bytes → List (ℕ × Bytes) → List (ℕ × Bytes)
setdefault number value [] = (number, value) ∷ []
setdefault number value ((n, v) ∷ got) =
    if n == number then (n, v) ∷ got else (n, v) ∷ setdefault number value got

abbrev pub is_critical : ℕ → Bool
is_critical tag = not (bit_and tag tag_critical == 0)

-- A name_len past its value.
abbrev pub is_bad_extension : Tlv → Bool
is_bad_extension (tag, value) =
    bit_and tag 0x7f == tag_named_extension
    && (length value == 0 || ltb (length value) (field value 0 1 + 1))

-- One round of the loop of `tail`, after the TLV has been cut out and its number found not to be 0.
unfoldable pub see : List ℕ → List ℕ → Tlv → Take → Verdict Take
unfolding got_of setdefault
see known repeats (tag, value) t =
    let number = bit_and tag 0x7f in
    if is_bad_extension (tag, value)
    then reject malformed []
    else if has number known
    then (if is_some (got_of number t.got) && not (has number repeats)
        then reject malformed []
        else accept (record t {
          repeated = t.repeated ++ ((tag, value) ∷ []);
          got = setdefault number value t.got;
          critical = if is_critical tag then number ∷ t.critical else t.critical;
        }))
    else if is_critical tag
    then accept (record t {
      unknown_critical = elim t.unknown_critical [ none ↦ some tag | some u ↦ some u ];
    })
    else accept t

-- One round; the list is rest[at:], the result what it leaves and what follows the TLV.
unfoldable pub tail_one : List ℕ → List ℕ → Bytes → Take → Verdict (Take × Bytes)
unfolding see
tail_one known repeats rest t =
    let tag = field rest 0 1 in
    let n = field rest 1 2 in
    let body = drop tlv_header rest in
    if ltb (length rest) tlv_header
    then reject malformed []
    else if ltb (length body) n
    then reject malformed []
    else if bit_and tag 0x7f == tag_fixed
    then reject malformed []
    else (see known repeats (tag, take n body) t >>= λ t'. accept (t', drop n body))

-- Each TLV takes three bytes at least, so `length rest` rounds are enough; the reason 0, which is none of
-- the protocol's, stands for a round more.
unfoldable pub tail_loop : List ℕ → List ℕ → ℕ → Bytes → Take → Verdict Take
unfolding tail_one
tail_loop known repeats fuel [] t = accept t
tail_loop known repeats zero (b ∷ bs) t = reject 0 []
tail_loop known repeats (suc fuel) (b ∷ bs) t = do
  (t', rest) ← tail_one known repeats (b ∷ bs) t
  tail_loop known repeats fuel rest t'

unfoldable pub check : Take → Verdict Take
check t = elim t.unknown_critical [ none ↦ accept t | some tag ↦ reject unsupported (tag ∷ []) ]

unfoldable pub tail : List ℕ → List ℕ → Bool → Take → Verdict Take
unfolding tail_loop check
tail known repeats defer t =
    let rest = drop t.at t.payload in
    do
      t' ←
          tail_loop known repeats (length rest) rest
            (record t { critical = []; repeated = []; got = [] })
      let done = record t' { at = length t.payload } in if defer then accept done else check done

unfoldable pub received : ℕ → Take → ℕ
received tag t = bit_or tag (if has tag t.critical then tag_critical else 0)

-- Whether a copy of the TLV has another length.
unfoldable pub any_other_size : ℕ → ℕ → List Tlv → Bool
any_other_size tag size [] = false
any_other_size tag size ((t, v) ∷ tlvs) =
    bit_and t 0x7f == tag && not (length v == size) || any_other_size tag size tlvs

unfoldable pub fixed : ℕ → ℕ → Take → Verdict (Option Bytes)
unfolding any_other_size got_of
fixed tag size t =
    if any_other_size tag size t.repeated then reject malformed [] else accept (got_of tag t.got)

unfoldable pub refuse {ℓ} : {A : Type ℓ} → ℕ → Bytes → Take → Verdict A
unfolding received
refuse tag payload t = reject unsupported (received tag t ∷ payload)

unfoldable pub push_due : ℕ → ℕ → ℕ → ℕ → Bool → Bool
push_due min_bytes max_delay_ms age_ms pending stopped =
    ltb 0 pending
    && (stopped
        || (min_bytes == 0 && max_delay_ms == 0)
        || (ltb 0 min_bytes && not (ltb pending min_bytes))
        || (ltb 0 max_delay_ms && not (ltb age_ms max_delay_ms)))
