-- ===== src/HostSession/Answers.antt =====
-- src/oep_client/host.py: the payloads of the requests that the session's methods send, and what they read
-- of the answers.
use oep_client_python.Prelude.{
  ℕ, zero, suc, ◌==◌, Bool, true, false, not, ◌&&◌, ◌||◌, Option, none, some, List, [], ◌∷◌, ◌++◌,
  ltb, leb, length, take, drop, get_or, map, if◌then◌else◌,
}
use oep_client_python.Try.{Try, ok, raise, value_error, protocol_error, ◌>>=◌, ◌>>◌, require}
use oep_client_python.Bytes.{Bytes, pack_field}
use oep_client_python.Registry.{
  confirm_request, confirm_result, tag_owner, tag_transport, tag_named_extension, tag_max_op_ms,
  tag_ops, owner_max_bytes,
}
use oep_client_python.Message.Tlv.{Tlv, bytes_eq, is_ascii, split_tlvs, tlv, get}
use oep_client_python.Message.Reader.{reader, u8, take_bytes, take_format, tail}
use oep_client_python.Catalog.Bitmap.{check_ops}
use oep_client_python.Catalog.Describe.{first_value}
use oep_client_python.HostSession.State.{Limits, check_max_op_ms, four_bytes}

-- bytes([n])
abbrev pub one_byte : ℕ → Try Bytes
one_byte n = if ltb n 256 then ok (n ∷ []) else raise value_error

unfoldable pub confirm_body : ℕ × ℕ → Try Bytes
confirm_body (min_rev, max_rev) = do
  low ← one_byte min_rev
  high ← one_byte max_rev
  ok (confirm_request ++ (low ++ high))

-- where[0] if where is not None and len(where) == 1 else None
abbrev pub transport_of : Option Bytes → Option ℕ
transport_of none = none
transport_of (some []) = none
transport_of (some (b ∷ [])) = some b
transport_of (some (b ∷ b' ∷ bs)) = none

-- confirm's answer, up to the check of its limits
unfoldable pub read_confirm : ℕ → ℕ → Bytes → Try Limits
unfolding reader take_bytes u8 take_format tail get
read_confirm min_rev max_rev payload = do
  (magic, r1) ← take_bytes 4 (reader payload)
  (revision, r2) ← u8 r1
  require (bytes_eq magic confirm_result) protocol_error
  require (leb min_rev revision && leb revision max_rev) protocol_error
  (fields, r3) ← take_format (2 ∷ 4 ∷ 1 ∷ 4 ∷ []) r2
  (rows, r4) ← tail r3
  ok (record {
    revision = revision;
    max_frame = get_or fields 0 0;
    window = get_or fields 1 0;
    max_inflight = get_or fields 2 0;
    boot_id = get_or fields 3 0;
    transport = transport_of (get rows tag_transport);
    tail = rows;
  })

-- A page of a describe: whether more pages follow, how many TLVs it has, and its bytes.
unfoldable pub read_page : Bytes → Try (ℕ × ℕ × Bytes)
unfolding reader u8
read_page payload = do
  (more, r) ← u8 (reader payload)
  rows ← split_tlvs (drop 1 payload)
  ok (more, length rows, drop 1 payload)

-- fn 0's max_op_ms and its ops tag, where they are as they should be
abbrev pub is_usable_max_op_ms : Option ℕ → Bool
is_usable_max_op_ms none = true
is_usable_max_op_ms (some value) = check_max_op_ms value

abbrev pub is_usable_ops : Option Bytes → Bool
is_usable_ops none = true
is_usable_ops (some value) = not (check_ops value)

unfoldable pub is_usable : List Tlv → Bool
unfolding first_value check_max_op_ms check_ops
is_usable rows =
    is_usable_max_op_ms (four_bytes (first_value rows tag_max_op_ms))
    && is_usable_ops (first_value rows tag_ops)

-- lease and boot_id of an open's answer, whose tail is read too
unfoldable pub read_opened : Bytes → Try (ℕ × ℕ)
unfolding reader take_format tail
read_opened payload = do
  (fields, r) ← take_format (4 ∷ 4 ∷ []) (reader payload)
  (rows, r') ← tail r
  ok (get_or fields 0 0, get_or fields 1 0)

-- the boot_id of an open's answer in `end_previous`, which reads no tail
unfoldable pub read_reopened : Bytes → Try ℕ
unfolding reader take_format
read_reopened payload = do
  (fields, r) ← take_format (4 ∷ 4 ∷ []) (reader payload)
  ok (get_or fields 1 0)

unfoldable pub read_lock_state : Bytes → Try (Bool × ℕ)
unfolding reader take_format tail
read_lock_state payload = do
  (fields, r) ← take_format (1 ∷ 4 ∷ []) (reader payload)
  (rows, r') ← tail r
  ok (not (get_or fields 0 0 == 0), get_or fields 1 0)

-- the fixed part alone, which `lock_owner` reads
unfoldable pub read_lock_fixed : Bytes → Try (Bool × ℕ)
unfolding reader take_format
read_lock_fixed payload = do
  (fields, r) ← take_format (1 ∷ 4 ∷ []) (reader payload)
  ok (not (get_or fields 0 0 == 0), get_or fields 1 0)

-- boot_id and uptime_ns of a clock's answer
unfoldable pub read_clock : Bytes → Try (ℕ × ℕ)
unfolding reader take_format tail
read_clock payload = do
  (fields, r) ← take_format (4 ∷ 8 ∷ []) (reader payload)
  (rows, r') ← tail r
  ok (get_or fields 0 0, get_or fields 1 0)

-- The loop of `owner_text`: while it is too long, one character less.
unfoldable pub shorten : (List ℕ → Bytes) → ℕ → List ℕ → Bytes
shorten encode zero clean = encode clean
shorten encode (suc n) clean =
    let shorter = shorten encode n (take n clean) in
    if ltb owner_max_bytes (length (encode clean)) then shorter else encode clean

-- Control characters replaced by '?'
abbrev pub clean_text : List ℕ → List ℕ
clean_text owner = map (λ c. if ltb c 0x20 || c == 0x7f then b'?' else c) owner

-- A text is the list of its characters' numbers; a loop takes as many rounds at the most as it has.
unfoldable pub owner_text : (List ℕ → Bytes) → List ℕ → Try Bytes
unfolding shorten
owner_text encode owner =
    let raw = shorten encode (length (clean_text owner)) (clean_text owner) in
    if length raw == 0 then raise value_error else ok raw

-- m.tlv(OWNER, owner_text(owner)) if owner else b""; no owner is an empty one
unfoldable pub owner_tail : (List ℕ → Bytes) → List ℕ → Try Bytes
unfolding owner_text tlv
owner_tail encode [] = ok []
owner_tail encode (c ∷ cs) = do raw ← owner_text encode (c ∷ cs); tlv tag_owner raw false

-- open's named extensions, each with its data
unfoldable pub extension_tail : List (List ℕ × Bytes) → Try Bytes
unfolding is_ascii tlv
extension_tail [] = ok []
extension_tail ((name, data_) ∷ extensions) = do
  require (is_ascii name) value_error
  require (leb 1 (length name) && leb (length name) 255) value_error
  one ← tlv tag_named_extension (length name ∷ (name ++ data_)) true
  more ← extension_tail extensions
  ok (one ++ more)

unfoldable pub open_body : (List ℕ → Bytes) → ℕ → Bool → List ℕ → List (List ℕ × Bytes) → Try Bytes
unfolding owner_tail extension_tail
open_body encode lease_ms force owner extensions = do
  owned ← owner_tail encode owner
  extended ← extension_tail extensions
  lease ← pack_field 4 lease_ms
  ok (lease ++ ((if force then 1 else 0) ∷ (owned ++ extended)))

unfoldable pub subscribe_body : ℕ → ℕ → Try Bytes
subscribe_body min_bytes max_delay_ms = do
  low ← pack_field 2 min_bytes
  delay ← pack_field 4 max_delay_ms
  ok (low ++ delay)
