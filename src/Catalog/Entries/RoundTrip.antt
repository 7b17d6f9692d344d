-- ===== src/Catalog/Entries/RoundTrip.antt =====
-- A list result is read back as it was packed, whatever TLVs follow it.
use oep_client_python.Prelude.{
  ℕ, ◌+◌, ◌<◌, ◌≤◌, ◌≡◌, refl, true, List, [], ◌∷◌, ◌++◌, map, append_assoc, arith, append-nil, ltb,
  ◌==◌, ◌||◌, if◌then◌else◌, length, length-append, take-append, drop-append, All,
}
use oep_client_python.Try.{ok, ◌>>=◌}
use oep_client_python.Bytes.{Bytes}
use oep_client_python.Message.Tlv.{Tlv, IsTlv, is_ascii}
use oep_client_python.Message.Tlv.RoundTrip.{tlv_bytes, split_tlvs-tlv_bytes}
use oep_client_python.Message.Reader.{Reader, reader, take_format, take_bytes, tail, rest}
use oep_client_python.Message.Reader.Fields.{
  Fits, length-pack_fixed, pack_fixed, sizes, values, take_format-pack_fixed,
}
use oep_client_python.Catalog.Entries.{
  ListEntry, pack_entry, pack_entries, pack_list_result, shown, read_entry, read_entries,
  unpack_list_result,
}

-- A printable character of ASCII.
abbrev pub IsPrintable : ℕ → Type 0
IsPrintable c = (0x20 ≤ c) × (c < 0x7f)

-- An entry that has an encoding.
pub record IsEntry (e : ListEntry) : Type 0 where
  pub fn : e.fn < 0x10000
  pub instance_ : e.instance_ < 0x10000
  pub revision : e.revision < 0x100
  pub size : length e.name < 0x100
  pub name : All IsPrintable e.name

-- A decoder of UTF-8 gives the bytes of ASCII as they are.
abbrev pub KeepsAscii : (Bytes → List ℕ) → Type 0
KeepsAscii decode = (raw : Bytes) → All (λ c. c < 0x80) raw → decode raw ≡ raw

entry_fields : ListEntry → List (ℕ × ℕ)
entry_fields e = (2, e.fn) ∷ (2, e.instance_) ∷ (1, e.revision) ∷ (1, length e.name) ∷ []

entry_bytes : ListEntry → Bytes
unfolding entry_fields
entry_bytes e = pack_fixed (entry_fields e) ++ e.name

entries_bytes : List ListEntry → Bytes
entries_bytes [] = []
entries_bytes (e ∷ entries) = entry_bytes e ++ entries_bytes entries

IsPrintable-is_ascii : (name : List ℕ) → All IsPrintable name → is_ascii name ≡ true
unfolding is_ascii
IsPrintable-is_ascii [] h = refl
IsPrintable-is_ascii (c ∷ name) h = ground (arith, IsPrintable-is_ascii name h.1)

pack_entry-eq_bytes : (e : ListEntry) → IsEntry e → pack_entry e ≡ ok (entry_bytes e)
unfolding pack_entry entry_bytes entry_fields
pack_entry-eq_bytes e h =
    ground (arith, h.fn, h.instance_, h.revision, h.size, IsPrintable-is_ascii e.name h.name)

pack_entries-eq_bytes :
    (entries : List ListEntry)
    → All IsEntry entries
    → pack_entries entries ≡ ok (entries_bytes entries)
unfolding pack_entries entries_bytes
pack_entries-eq_bytes [] h = refl
pack_entries-eq_bytes (e ∷ entries) h =
    rw (pack_entry-eq_bytes e h.0, pack_entries-eq_bytes entries h.1) refl

list_fields : ℕ → List ListEntry → List (ℕ × ℕ)
list_fields total entries = (2, total) ∷ (1, length entries) ∷ []

list_bytes : ℕ → List ListEntry → Bytes
unfolding list_fields
list_bytes total entries = pack_fixed (list_fields total entries) ++ entries_bytes entries

pack_list_result-eq_bytes :
    (total : ℕ) (entries : List ListEntry)
    → total < 0x10000
    → length entries < 0x100
    → All IsEntry entries
    → pack_list_result total entries ≡ ok (list_bytes total entries)
unfolding pack_list_result list_bytes list_fields
pack_list_result-eq_bytes total entries ht hn h =
    rw (pack_entries-eq_bytes entries h) (ground (arith, ht, hn))

-- The reader at the end of `front`.
abbrev behind : Bytes → Bytes → Reader
behind front back = record { payload = front ++ back; at = length front }

-- Reading moves the reader from `front` to the end of what it has read.
behind-append :
    (front one back : Bytes)
    → behind (front ++ one) back
      ≡ record { payload = front ++ (one ++ back); at = length front + length one }
behind-append front one back = rw (append_assoc front one back, length-append front one)

take_bytes-append :
    (front one back : Bytes)
    → take_bytes (length one) (behind front (one ++ back)) ≡ ok (one, behind (front ++ one) back)
unfolding take_bytes
take_bytes-append front one back =
    rw (behind-append front one back, drop-append, take-append)
      (ground (arith, length-append front (one ++ back), length-append one back))

take_format-append :
    (fields : List (ℕ × ℕ)) (front back : Bytes)
    → All Fits fields
    → take_format (sizes fields) (behind front (pack_fixed fields ++ back))
      ≡ ok (values fields, behind (front ++ pack_fixed fields) back)
take_format-append fields front back h =
    rw (behind-append front (pack_fixed fields) back, length-pack_fixed fields)
      (take_format-pack_fixed fields front back h)

IsPrintable-ascii : (name : List ℕ) → All IsPrintable name → All (λ c. c < 0x80) name
IsPrintable-ascii [] h = tt
IsPrintable-ascii (c ∷ name) h = (omega (arith, h.0.1), IsPrintable-ascii name h.1)

printable_kept :
    (name : List ℕ)
    → All IsPrintable name
    → map (λ c. if ltb c 0x20 || c == 0x7f then 0xfffd else c) name ≡ name
printable_kept [] h = refl
printable_kept (c ∷ name) h = ground (arith, h.0.0, h.0.1, printable_kept name h.1)

module _ (decode_utf8 : Bytes → List ℕ) (keeps : KeepsAscii decode_utf8) where
  shown-ascii : (name : List ℕ) → All IsPrintable name → shown decode_utf8 name ≡ name
  unfolding shown
  shown-ascii name h = rw (keeps name (IsPrintable-ascii name h)) (printable_kept name h)

  read_entry-append :
      (e : ListEntry) (front back : Bytes)
      → IsEntry e
      → read_entry decode_utf8 (behind front (entry_bytes e ++ back))
        ≡ ok (e, behind (front ++ entry_bytes e) back)
  unfolding read_entry entry_bytes entry_fields
  read_entry-append e front back h =
      let fields = entry_fields e in
      let fit : All Fits fields = (h.fn, (h.instance_, (h.revision, (h.size, tt)))) in
      let fixed = take_format-append fields front (e.name ++ back) fit in
      let named = take_bytes-append (front ++ pack_fixed fields) e.name back in
      rw (fixed, named, shown-ascii e.name h.name, append_assoc front (pack_fixed fields) e.name)
        refl

  read_entries-append :
      (entries : List ListEntry) (front back : Bytes)
      → All IsEntry entries
      → read_entries decode_utf8 (length entries) (behind front (entries_bytes entries ++ back))
        ≡ ok (entries, behind (front ++ entries_bytes entries) back)
  unfolding read_entries entries_bytes
  read_entries-append [] front back h = rw (append-nil front) refl
  read_entries-append (e ∷ entries) front back h =
      let one = read_entry-append e front (entries_bytes entries ++ back) h.0 in
      let more = read_entries-append entries (front ++ entry_bytes e) back h.1 in
      rw
        (
          append_assoc (entry_bytes e) (entries_bytes entries) back,
          one,
          more,
          append_assoc front (entry_bytes e) (entries_bytes entries),
        )
        refl

  unpack_list_result-append :
      (total : ℕ) (entries : List ListEntry) (tlvs : List Tlv)
      → total < 0x10000
      → length entries < 0x100
      → All IsEntry entries
      → All IsTlv tlvs
      → unpack_list_result decode_utf8 (list_bytes total entries ++ tlv_bytes tlvs)
        ≡ ok (total, entries)
  unfolding unpack_list_result list_bytes reader tail rest
  unpack_list_result-append total entries tlvs ht hn h are_tlvs =
      let fields = list_fields total entries in
      let fit : All Fits fields = (ht, (hn, tt)) in
      let back = entries_bytes entries ++ tlv_bytes tlvs in
      let fixed = take_format-append fields [] back fit in
      let read = read_entries-append entries (pack_fixed fields) (tlv_bytes tlvs) h in
      rw
        (
          append_assoc (pack_fixed fields) (entries_bytes entries) (tlv_bytes tlvs),
          fixed,
          read,
          drop-append,
          split_tlvs-tlv_bytes tlvs are_tlvs,
        )
        refl

  -- A list result packed for valid entries is read back as the same total and entries, whatever TLVs follow
  -- it: the total fits 16 bits, the number of entries and each name's length 8, names are printable ASCII,
  -- which the decoder of UTF-8 gives as it is.
  pub unpack_list_result-pack_list_result :
      (total : ℕ) (entries : List ListEntry) (tlvs : List Tlv)
      → total < 0x10000
      → length entries < 0x100
      → All IsEntry entries
      → All IsTlv tlvs
      → (pack_list_result total entries >>= λ raw.
          unpack_list_result decode_utf8 (raw ++ tlv_bytes tlvs))
        ≡ ok (total, entries)
  unpack_list_result-pack_list_result total entries tlvs ht hn h are_tlvs =
      rw (pack_list_result-eq_bytes total entries ht hn h)
        (unpack_list_result-append total entries tlvs ht hn h are_tlvs)
