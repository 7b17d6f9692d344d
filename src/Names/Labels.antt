-- ===== src/Names/Labels.antt =====
-- Names against their labels.
use oep_client_python.Prelude.{
  ℕ, ◌≤◌, ◌≡◌, ◌≢◌, refl, sym, ap, ◌∙◌, Bool, true, false, ◌&&◌, ◌||◌, List, [], ◌∷◌, ◌++◌, arith,
  length, Bool-cases, inl, inr, ◌⊎◌,
}
use oep_client_python.Try.{ok}
use oep_client_python.Message.Tlv.{bytes_eq}
use oep_client_python.Names.{
  Name, dot, split_labels, are_labels, oep, layers, one_of, has_layer, validate, short, domain,
  kind, starts_with, matches,
}

-- The labels of the first name begin the labels of the second.
abbrev pub begins : List Name → List Name → Bool
begins [] labels = true
begins (p ∷ prefix) [] = false
begins (p ∷ prefix) (l ∷ labels) = bytes_eq p l && begins prefix labels

abbrev pub labels_of : Name → List Name
labels_of name = let (first, others) = split_labels name in first ∷ others

-- ".".join of a first label and others.
abbrev pub join : Name → List Name → Name
join first [] = first
join first (l ∷ labels) = first ++ (dot ∷ join l labels)

join-cons :
    (c : ℕ) (first : Name) (others : List Name) → join (c ∷ first) others ≡ c ∷ join first others
join-cons c first [] = refl
join-cons c first (l ∷ labels) = refl

pub join-split_labels : (name : Name) → join (split_labels name).0 (split_labels name).1 ≡ name
unfolding split_labels
join-split_labels [] = refl
join-split_labels (c ∷ name) =
    ground (arith, join-split_labels name, join-cons c (split_labels name).0 (split_labels name).1)

bytes_eq_eq : (a b : Name) → bytes_eq a b ≡ true → a ≡ b
bytes_eq_eq [] [] h = refl
bytes_eq_eq [] (y ∷ b) h = cc
bytes_eq_eq (x ∷ a) [] h = cc
bytes_eq_eq (x ∷ a) (y ∷ b) h = ground (arith, bytes_eq_eq a b)

begins-split_labels :
    (prefix name : Name)
    → (bytes_eq name prefix || starts_with name (prefix ++ (dot ∷ [])))
      ≡ begins (labels_of prefix) (labels_of name)
unfolding split_labels
begins-split_labels [] [] = refl
begins-split_labels [] (c ∷ name) = ground arith
begins-split_labels (p ∷ prefix) [] = ground arith
begins-split_labels (p ∷ prefix) (c ∷ name) = ground (arith, begins-split_labels prefix name)

-- A prefix that is not empty matches, without `exact`, exactly the names whose labels begin with its labels.
pub matches-begins :
    (name prefix : Name)
    → prefix ≢ []
    → matches name prefix false ≡ begins (labels_of prefix) (labels_of name)
unfolding matches
matches-begins name [] h = absurd (h refl)
matches-begins name (p ∷ prefix) h = begins-split_labels (p ∷ prefix) name

has_layer_inv :
    (labels : List Name)
    → has_layer labels ≡ true
    → (layer : Name) × (next : Name) × (more : List Name) × (one_of layer layers ≡ true)
      × (labels ≡ layer ∷ next ∷ more)
has_layer_inv [] h = cc
has_layer_inv (layer ∷ []) h = cc
has_layer_inv (layer ∷ next ∷ more) h = (layer, next, more, h, refl)

validate-ok :
    (name name' : Name)
    → validate name ≡ ok name'
    → (name' ≡ name)
      × (length name ≤ 48)
      × (2 ≤ length (labels_of name))
      × (are_labels (labels_of name) ≡ true)
      × (bytes_eq (split_labels name).0 oep ≡ true → has_layer (split_labels name).1 ≡ true)
unfolding validate
validate-ok name name' h = ground arith

-- A name that is valid is returned as it is, is at most 48 bytes long and has two labels at least, each of letters,
-- digits and inner hyphens; it is of the kind domain, or of the kind oep, and then `oep`, one of the
-- layers, and a label at least, joined with dots.
pub validate-kind :
    (name name' : Name)
    → validate name ≡ ok name'
    → (name' ≡ name)
      × (length name ≤ 48)
      × (2 ≤ length (labels_of name))
      × (are_labels (labels_of name) ≡ true)
      × ((kind name ≡ domain)
          ⊎ ((kind name ≡ short)
              × (layer : Name) × (next : Name) × (more : List Name) × (one_of layer layers ≡ true)
              × (name ≡ oep ++ (dot ∷ (layer ++ (dot ∷ join next more))))))
unfolding kind
validate-kind name name' h =
    let (same, size, two, each, layered) = validate-ok name name' h in
    (
      same,
      size,
      two,
      each,
      elim (Bool-cases (bytes_eq (split_labels name).0 oep)) [
        | inr other ↦ inl (rw other refl)
        | inl first ↦
            let (layer, next, more, is_layer, others) =
              has_layer_inv (split_labels name).1 (layered first) in
            let whole : join oep (layer ∷ next ∷ more) ≡ name =
              ap (λ f. join f (layer ∷ next ∷ more)) (sym (bytes_eq_eq _ oep first))
              ∙ ap (join (split_labels name).0) (sym others)
              ∙ join-split_labels name in
            inr (rw first refl, layer, next, more, is_layer, sym whole)
      ],
    )
