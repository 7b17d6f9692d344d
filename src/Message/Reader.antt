-- ===== src/Message/Reader.antt =====
-- src/oep_client/message.py: `Reader`, which reads a payload's fixed part front to back. A method
-- returns what it read and the reader after it; one that raises leaves the reader where it was.
pub mod Fields
use oep_client_python.Prelude.{
  ℕ, zero, suc, ◌+◌, ◌*◌, ◌≤◌, List, [], ◌∷◌, ltb, length, drop, if◌then◌else◌,
}
use oep_client_python.Try.{Try, ok, raise, short_payload, ◌>>=◌}
use oep_client_python.Bytes.{Bytes, field, slice}
use oep_client_python.Message.Tlv.{Tlv, split_tlvs}

pub record Reader : Type 0 where
  pub payload : Bytes
  pub at : ℕ

unfoldable pub reader : Bytes → Reader
reader payload = record { payload = payload; at = 0 }

-- struct.calcsize of a format, which is given by the sizes of its fields.
abbrev pub calcsize : List ℕ → ℕ
calcsize [] = 0
calcsize (n ∷ format) = n + calcsize format

-- struct.unpack_from of a format.
abbrev pub unpack_from : List ℕ → Bytes → ℕ → List ℕ
unpack_from [] payload at = []
unpack_from (n ∷ format) payload at = field payload at n ∷ unpack_from format payload (at + n)

-- take(fmt)
unfoldable pub take_format : List ℕ → Reader → Try (List ℕ × Reader)
take_format format r =
    let size = calcsize format in
    if ltb (length r.payload) (r.at + size)
    then raise short_payload
    else ok (unpack_from format r.payload r.at, record r { at = r.at + size })

-- take of one field
unfoldable pub take_int : ℕ → Reader → Try (ℕ × Reader)
take_int n r =
    if ltb (length r.payload) (r.at + n)
    then raise short_payload
    else ok (field r.payload r.at n, record r { at = r.at + n })

unfoldable pub u8 : Reader → Try (ℕ × Reader)
unfolding take_int
u8 = take_int 1

unfoldable pub u16 : Reader → Try (ℕ × Reader)
unfolding take_int
u16 = take_int 2

unfoldable pub u32 : Reader → Try (ℕ × Reader)
unfolding take_int
u32 = take_int 4

unfoldable pub u64 : Reader → Try (ℕ × Reader)
unfolding take_int
u64 = take_int 8

unfoldable pub take_bytes : ℕ → Reader → Try (Bytes × Reader)
take_bytes n r =
    if ltb (length r.payload) (r.at + n)
    then raise short_payload
    else ok (slice r.payload r.at n, record r { at = r.at + n })

-- struct.unpack(f"<{n}I", …)
abbrev pub split_words : ℕ → Bytes → List ℕ
split_words zero raw = []
split_words (suc n) raw = field raw 0 4 ∷ split_words n (drop 4 raw)

unfoldable pub words : ℕ → Reader → Try (List ℕ × Reader)
unfolding take_bytes
words n r = do (raw, r') ← take_bytes (4 * n) r; ok (split_words n raw, r')

-- counted(fmt), the format a length of `n` bytes
unfoldable pub counted : ℕ → Reader → Try (Bytes × Reader)
unfolding take_int take_bytes
counted n r = do (size, r') ← take_int n r; take_bytes size r'

unfoldable pub rest : Reader → Bytes × Reader
rest r = (drop r.at r.payload, record r { at = length r.payload })

unfoldable pub tail : Reader → Try (List Tlv × Reader)
unfolding rest
tail r = let (raw, r') = rest r in do tlvs ← split_tlvs raw; ok (tlvs, r')

-- The reader stands within its payload.
pub record IsReader (r : Reader) : Type 0 where
  pub within : r.at ≤ length r.payload
