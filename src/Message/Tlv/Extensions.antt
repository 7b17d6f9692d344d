-- ===== src/Message/Tlv/Extensions.antt =====
-- Named extensions: the dict holds, for each name, the data of the first extension of that name.
use oep_client_python.Prelude.{
  ◌≡◌, refl, true, Option, none, some, List, [], ◌∷◌, arith, if◌then◌else◌, Option-cases, inl, inr,
  ◌↔◌,
}
use oep_client_python.Bytes.{Bytes}
use oep_client_python.Message.Tlv.{
  Tlv, bytes_eq, lookup, setdefault, read_extension, extensions_loop, named_extensions,
}

pub bytes_eq_iff : (a b : Bytes) → (bytes_eq a b ≡ true) ↔ (a ≡ b)
bytes_eq_iff [] [] = (λ e. refl, λ e. refl)
bytes_eq_iff [] (b ∷ bs) = ((λ e. cc), (λ e. cc))
bytes_eq_iff (a ∷ as_) [] = ((λ e. cc), (λ e. cc))
bytes_eq_iff (a ∷ as_) (b ∷ bs) = ground (arith, bytes_eq_iff as_ bs)

-- The data of the first extension of a name, of those that can be read.
unfoldable pub first_extension : Bytes → List Tlv → Option Bytes
first_extension name [] = none
first_extension name (t ∷ tlvs) = elim (read_extension t) [
  | none ↦ first_extension name tlvs
  | some (n, value) ↦ if bytes_eq n name then some value else first_extension name tlvs
]

-- The first answer that there is.
abbrev or_else : Option Bytes → Option Bytes → Option Bytes
or_else none o = o
or_else (some v) o = some v

lookup-setdefault :
    (name n value : Bytes) (out : List (Bytes × Bytes))
    → lookup name (setdefault n value out)
      ≡ or_else (lookup name out) (if bytes_eq n name then some value else none)
unfolding lookup setdefault
lookup-setdefault name n value [] = refl
lookup-setdefault name n value ((m, v) ∷ out) = ground (
  arith,
  lookup-setdefault name n value out,
  bytes_eq_iff m n,
  bytes_eq_iff m name,
  bytes_eq_iff n name,
)

lookup-extensions_loop :
    (name : Bytes) (tlvs : List Tlv) (out : List (Bytes × Bytes))
    → lookup name (extensions_loop tlvs out) ≡ or_else (lookup name out) (first_extension name tlvs)
unfolding extensions_loop first_extension
lookup-extensions_loop name [] out = ground arith
lookup-extensions_loop name (t ∷ tlvs) out = elim (Option-cases (read_extension t)) [
  | inl e ↦ rw (e, first_extension) (lookup-extensions_loop name tlvs out)
  | inr ((n, value), e) ↦ ground (
    arith,
    e,
    lookup-setdefault name n value out,
    lookup-extensions_loop name tlvs (setdefault n value out),
  )
]

-- named_extensions keeps the first of a name: the data found under a name is that of the first
-- extension of the name, of those that can be read, and a name of no such extension is not found.
pub lookup-named_extensions :
    (name : Bytes) (tlvs : List Tlv)
    → lookup name (named_extensions tlvs) ≡ first_extension name tlvs
unfolding named_extensions lookup
lookup-named_extensions name tlvs = lookup-extensions_loop name tlvs []
