-- ===== src/Settings.antt =====
-- src/oep_client/settings.py: the values that get answers.
pub mod RoundTrip
use oep_client_python.Prelude.{
  ℕ, zero, suc, ◌+◌, List, [], ◌∷◌, ◌++◌, ltb, length, take, drop, if◌then◌else◌,
}
use oep_client_python.Try.{Try, ok, raise, protocol_error, ◌>>=◌}
use oep_client_python.Bytes.{Bytes, field}

pub record Value : Type 0 where
  pub fn : ℕ
  pub number : ℕ
  pub key : ℕ
  pub value : Bytes

abbrev pub value_header : ℕ
value_header = 7

-- A value's header and data, the list from its first byte on.
abbrev pub value_at : Bytes → Value
value_at bytes = record {
  fn = field bytes 0 2;
  number = field bytes 2 1;
  key = field bytes 3 2;
  value = take (field bytes 5 2) (drop value_header bytes);
}

-- The bytes behind a value.
abbrev pub after_value : Bytes → Bytes
after_value bytes = drop (field bytes 5 2) (drop value_header bytes)

-- The list is data[at:].
unfoldable pub split_values : ℕ → Bytes → Try (List Value × Bytes)
split_values zero bytes = ok ([], bytes)
split_values (suc count) bytes =
    let rest = split_values count (after_value bytes) in
    if ltb (length bytes) value_header
    then raise protocol_error
    else if ltb (length bytes) (value_header + field bytes 5 2)
    then raise protocol_error
    else do (out, tail) ← rest; ok (value_at bytes ∷ out, tail)

-- The values of one page; a value takes 7 bytes at the least, so `length` rounds are enough.
unfoldable pub page_values : ℕ → Bytes → List Value
page_values zero bytes = []
page_values (suc fuel) bytes =
    let rest = page_values fuel (after_value bytes) in
    if ltb (length bytes) value_header then [] else value_at bytes ∷ rest

unfoldable pub values_from : List Bytes → List Value
unfolding page_values
values_from [] = []
values_from (raw ∷ pages) = page_values (length raw) raw ++ values_from pages
