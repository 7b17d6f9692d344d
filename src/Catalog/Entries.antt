-- ===== src/Catalog/Entries.antt =====
-- src/oep_client/catalog.py: the list of interfaces. A name is the list of its characters' numbers.
pub mod RoundTrip
use oep_client_python.Prelude.{
  ℕ, zero, suc, ◌<◌, ◌≤◌, Bool, true, false, ◌||◌, List, [], ◌∷◌, ◌++◌, map, All, ltb, ◌==◌, length,
  drop, get_or, if◌then◌else◌,
}
use oep_client_python.Try.{Try, ok, raise, value_error, ◌>>=◌}
use oep_client_python.Bytes.{Bytes, field, pack_field}
use oep_client_python.Message.Tlv.{is_ascii}
use oep_client_python.Message.Reader.{Reader, reader, take_format, take_bytes, tail}

pub record ListEntry : Type 0 where
  pub fn : ℕ
  pub instance_ : ℕ
  pub revision : ℕ
  pub name : List ℕ

unfoldable pub pack_list_request : ℕ → Try Bytes
pack_list_request first = pack_field 2 first

unfoldable pub unpack_list_request : Bytes → Try (ℕ × Bytes)
unpack_list_request payload =
    if ltb (length payload) 2 then raise value_error else ok (field payload 0 2, drop 2 payload)

unfoldable pub pack_describe_request : ℕ → ℕ → Try Bytes
pack_describe_request fn first = do f ← pack_field 2 fn; n ← pack_field 2 first; ok (f ++ n)

-- name.encode("ascii")
abbrev pub encode_ascii : List ℕ → Try Bytes
encode_ascii name = if is_ascii name then ok name else raise value_error

unfoldable pub pack_entry : ListEntry → Try Bytes
unfolding is_ascii
pack_entry e = do
  raw ← encode_ascii e.name
  fn ← pack_field 2 e.fn
  instance_ ← pack_field 2 e.instance_
  revision ← pack_field 1 e.revision
  n ← pack_field 1 (length raw)
  ok (fn ++ (instance_ ++ (revision ++ (n ++ raw))))

-- b"".join(pack_entry(e) for e in entries)
unfoldable pub pack_entries : List ListEntry → Try Bytes
unfolding pack_entry
pack_entries [] = ok []
pack_entries (e ∷ entries) = do one ← pack_entry e; more ← pack_entries entries; ok (one ++ more)

-- The fixed part is packed first; either error is an exception of the same call.
unfoldable pub pack_list_result : ℕ → List ListEntry → Try Bytes
unfolding pack_entries
pack_list_result total entries = do
  t ← pack_field 2 total
  n ← pack_field 1 (length entries)
  raw ← pack_entries entries
  ok (t ++ (n ++ raw))

-- The reading takes bytes.decode("utf-8", "replace").
module _ (decode_utf8 : Bytes → List ℕ) where
  -- m.shown
  unfoldable pub shown : Bytes → List ℕ
  shown raw = map (λ c. if ltb c 0x20 || c == 0x7f then 0xfffd else c) (decode_utf8 raw)

  unfoldable pub read_entry : Reader → Try (ListEntry × Reader)
  unfolding shown take_format take_bytes
  read_entry r = do
    (fields, r1) ← take_format (2 ∷ 2 ∷ 1 ∷ 1 ∷ []) r
    (raw, r2) ← take_bytes (get_or fields 3 0) r1
    ok (
      record {
        fn = get_or fields 0 0;
        instance_ = get_or fields 1 0;
        revision = get_or fields 2 0;
        name = shown raw;
      },
      r2,
    )

  unfoldable pub read_entries : ℕ → Reader → Try (List ListEntry × Reader)
  unfolding read_entry
  read_entries zero r = ok ([], r)
  read_entries (suc count) r = do
    (e, r1) ← read_entry r
    (out, r2) ← read_entries count r1
    ok (e ∷ out, r2)

  unfoldable pub unpack_list_result : Bytes → Try (ℕ × List ListEntry)
  unfolding read_entries reader take_format tail
  unpack_list_result payload = do
    (fields, r) ← take_format (2 ∷ 1 ∷ []) (reader payload)
    (out, r1) ← read_entries (get_or fields 1 0) r
    _ ← tail r1
    ok (get_or fields 0 0, out)
