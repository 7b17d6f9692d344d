-- ===== src/HostSession/Exec/Readers.antt =====
-- The functions that the host's methods call on payloads end by themselves: split_tlvs, the one with a loop on
-- fuel that they use, has enough of it.
use oep_client_python.Prelude.{
  ℕ, zero, suc, inl, inr, Bool, true, false, ◌&&◌, List, [], ◌∷◌, ◌++◌, ◌==◌, leb, ltb, length,
  drop, get_or, bit_and, bit_or, if◌then◌else◌,
}
use oep_client_python.Try.{
  ok, Terminates, Terminates-bind, Terminates-ok, Terminates-raise, Terminates-raise_if,
  Terminates-if, Terminates-require, Try-cases, value_error, protocol_error, short_payload,
}
use oep_client_python.Bytes.{Bytes, pack_field}
use oep_client_python.Registry.{
  role_request, confirm_result, tag_critical, tag_fixed, tag_owner, tag_named_extension,
}
use oep_client_python.Message.Tlv.{bytes_eq, tlv, split_tlvs, is_ascii}
use oep_client_python.Message.Tlv.RoundTrip.{split_tlvs-raises}
use oep_client_python.Message.Reader.{
  Reader, reader, take_format, take_bytes, u8, take_int, tail, rest,
}
use oep_client_python.Message.Header.{Request, pack_request, unpack_result}
use oep_client_python.Catalog.Entries.{
  read_entry, read_entries, unpack_list_result, pack_list_request, pack_describe_request,
}
use oep_client_python.Catalog.Bitmap.{unpack_ops}
use oep_client_python.HostSession.Answers.{
  one_byte, confirm_body, read_confirm, read_page, read_opened, read_reopened, read_lock_state,
  read_lock_fixed, read_clock, shorten, clean_text, owner_text, owner_tail, extension_tail,
  open_body, subscribe_body,
}
use oep_client_python.HostSession.Refusal.{owner_of}

pub split_tlvs-Terminates : (raw : Bytes) → Terminates (split_tlvs raw)
split_tlvs-Terminates raw = elim (Try-cases (split_tlvs raw)) [
  | inl (rows, e) ↦ rw e (Terminates-ok rows)
  | inr (x, e) ↦ elim (split_tlvs-raises raw x e) [
    | inl short ↦ rw (e, short) (Terminates-raise short_payload tt)
    | inr broken ↦ rw (e, broken) (Terminates-raise protocol_error tt)
  ]
]

take_format-Terminates : (format : List ℕ) (r : Reader) → Terminates (take_format format r)
unfolding take_format
take_format-Terminates format r = Terminates-raise_if _ _ _ tt (Terminates-ok _)

take_bytes-Terminates : (n : ℕ) (r : Reader) → Terminates (take_bytes n r)
unfolding take_bytes
take_bytes-Terminates n r = Terminates-raise_if _ _ _ tt (Terminates-ok _)

u8-Terminates : (r : Reader) → Terminates (u8 r)
unfolding u8 take_int
u8-Terminates r = Terminates-raise_if _ _ _ tt (Terminates-ok _)

tail-Terminates : (r : Reader) → Terminates (tail r)
unfolding tail
tail-Terminates r =
    Terminates-bind (split_tlvs (rest r).0) _ (split_tlvs-Terminates _) λ rows. Terminates-ok _

pack_field-Terminates : (n v : ℕ) → Terminates (pack_field n v)
pack_field-Terminates n v = Terminates-if _ _ _ (Terminates-ok _) (Terminates-raise _ tt)

one_byte-Terminates : (n : ℕ) → Terminates (one_byte n)
one_byte-Terminates n = Terminates-if _ _ _ (Terminates-ok _) (Terminates-raise _ tt)

tlv-Terminates : (tag : ℕ) (value : Bytes) (critical : Bool) → Terminates (tlv tag value critical)
unfolding tlv
tlv-Terminates tag value critical =
    Terminates-raise_if (ltb 0xffff (length value)) value_error _ tt (
      Terminates-raise_if (bit_and tag 0x7f == tag_fixed) value_error _ tt (
        Terminates-bind _ _
          (pack_field-Terminates 1 (bit_or tag (if critical then tag_critical else 0)))
          λ number.
            Terminates-bind _ _ (pack_field-Terminates 2 (length value))
              λ size. Terminates-ok (number ++ (size ++ value))))

pub pack_request-Terminates : (r : Request) → Terminates (pack_request r)
unfolding pack_request
pack_request-Terminates r = Terminates-bind _ _ (pack_field-Terminates 1 role_request) λ role.
    Terminates-bind _ _ (pack_field-Terminates 2 r.corr) λ corr.
      Terminates-bind _ _ (pack_field-Terminates 2 r.fn) λ fn.
        Terminates-bind _ _ (pack_field-Terminates 1 r.op) λ op.
          Terminates-bind _ _ (pack_field-Terminates 4 r.session)
            λ session. Terminates-ok (role ++ (corr ++ (fn ++ (op ++ (session ++ r.payload)))))

pub unpack_result-Terminates : (raw : Bytes) → Terminates (unpack_result raw)
unfolding unpack_result
unpack_result-Terminates raw =
    Terminates-raise_if _ _ _ tt
      (Terminates-if _ _ _ (Terminates-ok _) (Terminates-raise value_error tt))

pub confirm_body-Terminates : (range : ℕ × ℕ) → Terminates (confirm_body range)
unfolding confirm_body
confirm_body-Terminates (low, high) =
    Terminates-bind _ _ (one_byte-Terminates low)
      λ l. Terminates-bind _ _ (one_byte-Terminates high) λ h. Terminates-ok _

pub read_confirm-Terminates :
    (low high : ℕ) (payload : Bytes) → Terminates (read_confirm low high payload)
unfolding read_confirm
read_confirm-Terminates low high payload =
    Terminates-bind _ _ (take_bytes-Terminates 4 (reader payload)) λ magic.
      Terminates-bind _ _ (u8-Terminates magic.1) λ revision.
        Terminates-bind _ _ (Terminates-require (bytes_eq magic.0 confirm_result) protocol_error tt)
          λ u.
            Terminates-bind _ _
              (Terminates-require (leb low revision.0 && leb revision.0 high) protocol_error tt)
              λ u.
                Terminates-bind _ _ (take_format-Terminates (2 ∷ 4 ∷ 1 ∷ 4 ∷ []) revision.1)
                  λ fields. Terminates-bind _ _ (tail-Terminates fields.1) λ rows. Terminates-ok _

pub read_page-Terminates : (payload : Bytes) → Terminates (read_page payload)
unfolding read_page
read_page-Terminates payload =
    Terminates-bind _ _ (u8-Terminates (reader payload))
      λ more. Terminates-bind _ _ (split_tlvs-Terminates (drop 1 payload)) λ rows. Terminates-ok _

pub read_opened-Terminates : (payload : Bytes) → Terminates (read_opened payload)
unfolding read_opened
read_opened-Terminates payload =
    Terminates-bind _ _ (take_format-Terminates (4 ∷ 4 ∷ []) (reader payload))
      λ fields. Terminates-bind _ _ (tail-Terminates fields.1) λ rows. Terminates-ok _

pub read_reopened-Terminates : (payload : Bytes) → Terminates (read_reopened payload)
unfolding read_reopened
read_reopened-Terminates payload =
    Terminates-bind _ _ (take_format-Terminates (4 ∷ 4 ∷ []) (reader payload))
      λ fields. Terminates-ok _

pub read_lock_state-Terminates : (payload : Bytes) → Terminates (read_lock_state payload)
unfolding read_lock_state
read_lock_state-Terminates payload =
    Terminates-bind _ _ (take_format-Terminates (1 ∷ 4 ∷ []) (reader payload))
      λ fields. Terminates-bind _ _ (tail-Terminates fields.1) λ rows. Terminates-ok _

pub read_lock_fixed-Terminates : (payload : Bytes) → Terminates (read_lock_fixed payload)
unfolding read_lock_fixed
read_lock_fixed-Terminates payload =
    Terminates-bind _ _ (take_format-Terminates (1 ∷ 4 ∷ []) (reader payload))
      λ fields. Terminates-ok _

pub read_clock-Terminates : (payload : Bytes) → Terminates (read_clock payload)
unfolding read_clock
read_clock-Terminates payload =
    Terminates-bind _ _ (take_format-Terminates (4 ∷ 8 ∷ []) (reader payload))
      λ fields. Terminates-bind _ _ (tail-Terminates fields.1) λ rows. Terminates-ok _

pub owner_of-Terminates : (decode : Bytes → List ℕ) (raw : Bytes) → Terminates (owner_of decode raw)
unfolding owner_of
owner_of-Terminates decode raw =
    Terminates-bind _ _ (split_tlvs-Terminates raw) λ rows. Terminates-ok _

pub subscribe_body-Terminates : (low delay : ℕ) → Terminates (subscribe_body low delay)
unfolding subscribe_body
subscribe_body-Terminates low delay =
    Terminates-bind _ _ (pack_field-Terminates 2 low)
      λ l. Terminates-bind _ _ (pack_field-Terminates 4 delay) λ d. Terminates-ok _

pub unpack_ops-Terminates : (value : Bytes) → Terminates (unpack_ops value)
unfolding unpack_ops
unpack_ops-Terminates [] = Terminates-raise _ tt
unpack_ops-Terminates (base ∷ bits) = Terminates-raise_if _ _ _ tt (Terminates-ok _)

module _ (encode : List ℕ → Bytes) where
  owner_text-Terminates : (owner : List ℕ) → Terminates (owner_text encode owner)
  unfolding owner_text
  owner_text-Terminates owner =
      let raw = shorten encode (length (clean_text owner)) (clean_text owner) in
      Terminates-raise_if (length raw == 0) value_error (ok raw) tt (Terminates-ok raw)

  owner_tail-Terminates : (owner : List ℕ) → Terminates (owner_tail encode owner)
  unfolding owner_tail
  owner_tail-Terminates [] = Terminates-ok []
  owner_tail-Terminates (c ∷ cs) =
      Terminates-bind _ _ (owner_text-Terminates (c ∷ cs)) λ raw. tlv-Terminates tag_owner raw false

  extension_tail-Terminates :
      (extensions : List (List ℕ × Bytes)) → Terminates (extension_tail extensions)
  unfolding extension_tail
  extension_tail-Terminates [] = Terminates-ok []
  extension_tail-Terminates ((name, data_) ∷ extensions) =
      Terminates-bind _ _ (Terminates-require (is_ascii name) value_error tt) λ u.
        Terminates-bind _ _
          (Terminates-require (leb 1 (length name) && leb (length name) 255) value_error tt)
          λ u.
            Terminates-bind _ _
              (tlv-Terminates tag_named_extension (length name ∷ (name ++ data_)) true)
              λ one.
                Terminates-bind _ _ (extension_tail-Terminates extensions)
                  λ more. Terminates-ok (one ++ more)

  pub open_body-Terminates :
      (lease_ms : ℕ) (force : Bool) (owner : List ℕ) (extensions : List (List ℕ × Bytes))
      → Terminates (open_body encode lease_ms force owner extensions)
  unfolding open_body
  open_body-Terminates lease_ms force owner extensions =
      Terminates-bind _ _ (owner_tail-Terminates owner) λ owned.
        Terminates-bind _ _ (extension_tail-Terminates extensions) λ extended.
          Terminates-bind _ _ (pack_field-Terminates 4 lease_ms) λ lease. Terminates-ok _

pub pack_list_request-Terminates : (first : ℕ) → Terminates (pack_list_request first)
unfolding pack_list_request
pack_list_request-Terminates first = pack_field-Terminates 2 first

pub pack_describe_request-Terminates : (fn first : ℕ) → Terminates (pack_describe_request fn first)
unfolding pack_describe_request
pack_describe_request-Terminates fn first =
    Terminates-bind _ _ (pack_field-Terminates 2 fn)
      λ f. Terminates-bind _ _ (pack_field-Terminates 2 first) λ n. Terminates-ok _

module _ (decode : Bytes → List ℕ) where
  read_entry-Terminates : (r : Reader) → Terminates (read_entry decode r)
  unfolding read_entry
  read_entry-Terminates r =
      Terminates-bind _ _ (take_format-Terminates (2 ∷ 2 ∷ 1 ∷ 1 ∷ []) r) λ fields.
        Terminates-bind _ _ (take_bytes-Terminates (get_or fields.0 3 0) fields.1)
          λ raw. Terminates-ok _

  read_entries-Terminates : (count : ℕ) (r : Reader) → Terminates (read_entries decode count r)
  unfolding read_entries
  read_entries-Terminates zero r = Terminates-ok _
  read_entries-Terminates (suc count) r =
      Terminates-bind _ _ (read_entry-Terminates r)
        λ e. Terminates-bind _ _ (read_entries-Terminates count e.1) λ out. Terminates-ok _

  pub unpack_list_result-Terminates :
      (payload : Bytes) → Terminates (unpack_list_result decode payload)
  unfolding unpack_list_result
  unpack_list_result-Terminates payload =
      Terminates-bind _ _ (take_format-Terminates (2 ∷ 1 ∷ []) (reader payload)) λ fields.
        Terminates-bind _ _ (read_entries-Terminates (get_or fields.0 1 0) fields.1)
          λ out. Terminates-bind _ _ (tail-Terminates out.1) λ rows. Terminates-ok _
