-- ===== src/Names.antt =====
-- src/oep_client/names.py: the names of interfaces. A name is the list of its characters' numbers.
pub mod Labels
pub mod Examples
use oep_client_python.Prelude.{
  ℕ, zero, suc, ◌+◌, ◌≡◌, Bool, true, false, not, ◌&&◌, ◌||◌, List, [], ◌∷◌, ◌++◌, ltb, leb, ◌==◌,
  length, if◌then◌else◌,
}
use oep_client_python.Try.{Try, ok, raise, invalid_name}
use oep_client_python.Message.Tlv.{is_ascii, bytes_eq}

abbrev pub Name : Type 0
Name = List ℕ

abbrev pub dot : ℕ
dot = b'.'

-- name.split("."), which has one label at the least: the first, and the others.
unfoldable pub split_labels : Name → Name × List Name
split_labels [] = ([], [])
split_labels (c ∷ name) =
    let (first, others) = split_labels name in
    if c == dot then ([], first ∷ others) else (c ∷ first, others)

-- [a-z0-9]
abbrev pub is_alnum : ℕ → Bool
is_alnum c = leb b'a' c && leb c b'z' || leb b'0' c && leb c b'9'

-- [a-z0-9-]*[a-z0-9]
abbrev pub ends_label : Name → Bool
ends_label [] = false
ends_label (c ∷ []) = is_alnum c
ends_label (c ∷ d ∷ label) = (is_alnum c || c == b'-') && ends_label (d ∷ label)

-- `_LABEL.match`
abbrev pub is_label : Name → Bool
is_label [] = false
is_label (c ∷ label) = is_alnum c && (bytes_eq label [] || ends_label label)

abbrev pub are_labels : List Name → Bool
are_labels [] = true
are_labels (l ∷ labels) = is_label l && are_labels labels

abbrev pub oep : Name
oep = b'o' ∷ b'e' ∷ b'p' ∷ []

-- OEP_LAYERS
abbrev pub layers : List Name
layers =
    (b'p' ∷ b'r' ∷ b'o' ∷ b'b' ∷ b'e' ∷ [])
    ∷ (b'w' ∷ b'i' ∷ b'r' ∷ b'e' ∷ [])
    ∷ (b't' ∷ b'a' ∷ b'r' ∷ b'g' ∷ b'e' ∷ b't' ∷ [])
    ∷ (b'f' ∷ b'i' ∷ b'x' ∷ b't' ∷ b'u' ∷ b'r' ∷ b'e' ∷ [])
    ∷ []

abbrev pub one_of : Name → List Name → Bool
one_of name [] = false
one_of name (n ∷ names) = bytes_eq name n || one_of name names

-- labels[1] is one of the layers and there is a third label
abbrev pub has_layer : List Name → Bool
has_layer [] = false
has_layer (layer ∷ []) = false
has_layer (layer ∷ more ∷ labels) = one_of layer layers

-- Each refusal is InvalidName; the texts are left out.
unfoldable pub validate : Name → Try Name
unfolding split_labels is_ascii
validate name =
    let (first, others) = split_labels name in
    if not (is_ascii name)
    then raise invalid_name
    else if ltb 48 (length name)
    then raise invalid_name
    else if ltb (length others + 1) 2
    then raise invalid_name
    else if not (are_labels (first ∷ others))
    then raise invalid_name
    else if bytes_eq first oep && not (has_layer others)
    then raise invalid_name
    else ok name

pub data Kind : Type 0 where
  short domain : Kind

-- name.split(".", 1)[0] == "oep"
unfoldable pub kind : Name → Kind
unfolding split_labels
kind name = if bytes_eq (split_labels name).0 oep then short else domain

-- name.startswith(prefix)
abbrev pub starts_with : Name → Name → Bool
starts_with name [] = true
starts_with [] (p ∷ prefix) = false
starts_with (c ∷ name) (p ∷ prefix) = c == p && starts_with name prefix

unfoldable pub matches : Name → Name → Bool → Bool
matches name prefix exact =
    if bytes_eq prefix []
    then not exact
    else if exact
    then bytes_eq name prefix
    else bytes_eq name prefix || starts_with name (prefix ++ (dot ∷ []))
