-- ===== src/Catalog/SortedSet.antt =====
-- `sorted(set(xs))` of src/oep_client/catalog.py, and lists in strictly ascending order, in which
-- a set of numbers stands as the list of its members.
use oep_client_python.Prelude.{
  ℕ, suc, ◌<◌, ◌≤◌, ◌≡◌, refl, Bool, true, false, ◌||◌, List, [], ◌∷◌, ◌++◌, arith, ltb, ◌==◌, All,
  if◌then◌else◌,
}

unfoldable pub insert : ℕ → List ℕ → List ℕ
insert x [] = x ∷ []
insert x (y ∷ ys) =
    let rest = insert x ys in if ltb x y then x ∷ y ∷ ys else if x == y then y ∷ ys else y ∷ rest

unfoldable pub sorted_set : List ℕ → List ℕ
unfolding insert
sorted_set [] = []
sorted_set (x ∷ xs) = insert x (sorted_set xs)

-- x in xs
abbrev pub has : ℕ → List ℕ → Bool
has x [] = false
has x (y ∷ ys) = x == y || has x ys

-- xs[-1], of a list that begins with x.
abbrev pub last : ℕ → List ℕ → ℕ
last x [] = x
last x (y ∷ ys) = last y ys

-- Strictly ascending from `low` on.
abbrev pub Ascending : ℕ → List ℕ → Type 0
Ascending low [] = Unit
Ascending low (x ∷ xs) = (low ≤ x) × Ascending (suc x) xs

pub has-append : (x : ℕ) (xs ys : List ℕ) → has x (xs ++ ys) ≡ (has x xs || has x ys)
has-append x [] ys = refl
has-append x (y ∷ xs) ys = ground (arith, has-append x xs ys)

pub Ascending-lower :
    (low low' : ℕ) (xs : List ℕ) → low' ≤ low → Ascending low xs → Ascending low' xs
Ascending-lower low low' [] h a = tt
Ascending-lower low low' (x ∷ xs) h a = (omega (arith, a.0), a.1)

pub has_below : (low x : ℕ) (xs : List ℕ) → Ascending low xs → x < low → has x xs ≡ false
has_below low x [] a h = refl
has_below low x (y ∷ ys) a h = ground (arith, a.0, has_below (suc y) x ys a.1)

pub has_self : (x : ℕ) (xs : List ℕ) → has x (x ∷ xs) ≡ true
has_self x xs = ground arith

-- Two ascending lists with the same members are the same list.
pub Ascending-unique :
    (low low' : ℕ) (xs ys : List ℕ)
    → Ascending low xs
    → Ascending low' ys
    → ((x : ℕ) → has x xs ≡ has x ys)
    → xs ≡ ys
Ascending-unique low low' [] [] a b h = refl
Ascending-unique low low' [] (y ∷ ys) a b h = cc (h y, has_self y ys)
Ascending-unique low low' (x ∷ xs) [] a b h = cc (h x, has_self x xs)
Ascending-unique low low' (x ∷ xs) (y ∷ ys) a b h =
    let e : x ≡ y =
      ground (arith, h x, h y, has_below (suc y) x ys b.1, has_below (suc x) y xs a.1) in
    let same : (z : ℕ) → has z xs ≡ has z ys =
      λ z. ground (arith, h z, e, has_below (suc y) z ys b.1, has_below (suc x) z xs a.1) in
    rw (e, Ascending-unique (suc x) (suc y) xs ys a.1 b.1 same)

insert-Ascending :
    (low x : ℕ) (xs : List ℕ) → low ≤ x → Ascending low xs → Ascending low (insert x xs)
unfolding insert
insert-Ascending low x [] h a = (h, tt)
insert-Ascending low x (y ∷ ys) h a = ground (arith, insert-Ascending (suc y) x ys)

has-insert : (z x : ℕ) (xs : List ℕ) → has z (insert x xs) ≡ (z == x || has z xs)
unfolding insert
has-insert z x [] = refl
has-insert z x (y ∷ ys) = ground (arith, has-insert z x ys)

pub sorted_set-Ascending : (xs : List ℕ) → Ascending 0 (sorted_set xs)
unfolding sorted_set
sorted_set-Ascending [] = tt
sorted_set-Ascending (x ∷ xs) =
    insert-Ascending 0 x (sorted_set xs) (omega arith) (sorted_set-Ascending xs)

-- `sorted_set` keeps the members.
pub has-sorted_set : (x : ℕ) (xs : List ℕ) → has x (sorted_set xs) ≡ has x xs
unfolding sorted_set
has-sorted_set x [] = refl
has-sorted_set x (y ∷ ys) = rw (has-insert x y (sorted_set ys), has-sorted_set x ys) refl

insert-All {ℓ} : (P : ℕ → Type ℓ) (x : ℕ) (xs : List ℕ) → P x → All P xs → All P (insert x xs)
unfolding insert
insert-All P x [] h a = (h, tt)
insert-All P x (y ∷ ys) h a = ground (arith, insert-All P x ys h a.1)

pub sorted_set-All {ℓ} : (P : ℕ → Type ℓ) (xs : List ℕ) → All P xs → All P (sorted_set xs)
unfolding sorted_set
sorted_set-All P [] a = tt
sorted_set-All P (x ∷ xs) a = insert-All P x (sorted_set xs) a.0 (sorted_set-All P xs a.1)

pub last_greatest :
    (x : ℕ) (xs : List ℕ) → Ascending (suc x) xs → (x ≤ last x xs) × All (λ y. y ≤ last x xs) xs
last_greatest x [] a = (omega arith, tt)
last_greatest x (y ∷ ys) a =
    let (le, all) = last_greatest y ys a.1 in (omega (arith, a.0, le), (le, all))
