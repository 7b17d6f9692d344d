-- ===== src/Catalog/Bitmap/RoundTrip.antt =====
-- Sets written as bitmaps are read back, and what a bitmap of operations can declare.
use oep_client_python.Prelude.{
  subst, ℕ, suc, ◌+◌, ◌-◌, ◌*◌, ◌/◌, ◌<◌, ◌≤◌, ◌≡◌, ◌≢◌, refl, sym, ◌∙◌, ap, List, [], ◌∷◌, arith,
  length, length-replicate, All,
}
use oep_client_python.Try.{ok, ◌>>=◌}
use oep_client_python.Bytes.{IsByte}
use oep_client_python.Catalog.SortedSet.{
  sorted_set, last, has, Ascending, Ascending-unique, Ascending-lower, has_self, has_below,
  last_greatest, sorted_set-Ascending, has-sorted_set, sorted_set-All,
}
use oep_client_python.Catalog.Bitmap.{
  bitmap, bitmap_to_channels, sorted_bitmap, channels_to_bitmap, pack_sorted, pack_ops, check_ops,
  unpack_ops,
}
use oep_client_python.Catalog.Bitmap.Members.{
  zeros, bitmap_to_channels-Ascending, has-bitmap_to_channels, bit_at-put_bits, bit_at-replicate,
  length-put_bits,
}

fits-bitmap :
    (base greatest : ℕ) (xs : List ℕ)
    → Ascending base xs
    → All (λ y. y ≤ greatest) xs
    → All (λ y. (base ≤ y) × (y - base < 8 * length (zeros ((greatest - base) / 8 + 1)))) xs
fits-bitmap base greatest [] a h = tt
fits-bitmap base greatest (x ∷ xs) a h =
    let size = length-replicate {A = ℕ} ((greatest - base) / 8 + 1) 0 in
    (
      (a.0, omega (arith, h.0, a.0, size)),
      fits-bitmap base greatest xs (Ascending-lower (suc x) base xs (omega (arith, a.0)) a.1) h.1,
    )

-- A bitmap written for an ascending list is read back as that list.
bitmap_to_channels-bitmap :
    (base x : ℕ) (xs : List ℕ)
    → base ≤ x
    → Ascending (suc x) xs
    → bitmap_to_channels base (bitmap base (last x xs) (x ∷ xs)) ≡ x ∷ xs
unfolding bitmap
bitmap_to_channels-bitmap base x xs h a =
    let greatest = last_greatest x xs a in
    let fit = fits-bitmap base (last x xs) (x ∷ xs) (h, a) greatest in
    let same : (z : ℕ)
        → has z (bitmap_to_channels base (bitmap base (last x xs) (x ∷ xs))) ≡ has z (x ∷ xs) =
      λ z.
        let below = has_below base z (x ∷ xs) (h, a) in
        let within : base ≤ z → has (base + (z - base)) (x ∷ xs) ≡ has z (x ∷ xs) = λ hz.
          let e : base + (z - base) ≡ z = omega arith in
          subst (λ t. has t (x ∷ xs) ≡ has z (x ∷ xs)) (sym e) refl in
        rw
          (
            has-bitmap_to_channels base (bitmap base (last x xs) (x ∷ xs)) z,
            bit_at-put_bits base (x ∷ xs) (zeros ((last x xs - base) / 8 + 1)) (z - base) fit,
            bit_at-replicate ((last x xs - base) / 8 + 1) (z - base),
          )
          (ground (arith, below, within)) in
    Ascending-unique base base _ (x ∷ xs) (bitmap_to_channels-Ascending base _) (h, a) same

sorted_bitmap_read :
    (low : ℕ) (xs : List ℕ)
    → Ascending low xs
    → bitmap_to_channels (sorted_bitmap xs).0 (sorted_bitmap xs).1 ≡ xs
unfolding bitmap_to_channels
sorted_bitmap_read low [] a = refl
sorted_bitmap_read low (x ∷ xs) a = bitmap_to_channels-bitmap x x xs (omega arith) a.1

last-All {ℓ} : (P : ℕ → Type ℓ) (x : ℕ) (xs : List ℕ) → P x → All P xs → P (last x xs)
last-All P x [] p h = p
last-All P x (y ∷ ys) p h = last-All P y ys h.0 h.1

length-bitmap :
    (base greatest : ℕ) (xs : List ℕ) → length (bitmap base greatest xs) ≡ (greatest - base) / 8 + 1
unfolding bitmap
length-bitmap base greatest xs =
    length-put_bits base xs (zeros _) ∙ length-replicate {A = ℕ} ((greatest - base) / 8 + 1) 0

pack_sorted-unpack_ops :
    (low : ℕ) (xs : List ℕ)
    → xs ≢ []
    → Ascending low xs
    → All IsByte xs
    → (pack_sorted xs >>= unpack_ops) ≡ ok xs
unfolding unpack_ops check_ops
pack_sorted-unpack_ops low [] some a h = absurd (some refl)
pack_sorted-unpack_ops low (x ∷ xs) some a h =
    let base = x / 8 * 8 in
    let small = last-All IsByte x xs h.0 h.1 in
    let (least, all) = last_greatest x xs a.1 in
    let size = length-bitmap base (last x xs) (x ∷ xs) in
    let read = bitmap_to_channels-bitmap base x xs (omega arith) a.1 in
    ground (arith, small, least, size, read)

-- A set of channels written as a base and a bitmap is read back as the set in ascending order, each
-- channel once.
pub bitmap_to_channels-channels_to_bitmap :
    (channels : List ℕ)
    → bitmap_to_channels (channels_to_bitmap channels).0 (channels_to_bitmap channels).1
      ≡ sorted_set channels
unfolding channels_to_bitmap
bitmap_to_channels-channels_to_bitmap channels =
    sorted_bitmap_read 0 (sorted_set channels) (sorted_set-Ascending channels)

sorted_set_ne : (xs : List ℕ) → xs ≢ [] → sorted_set xs ≢ []
unfolding sorted_set
sorted_set_ne [] h = h
sorted_set_ne (x ∷ xs) h =
    λ e. let same = has-sorted_set x (x ∷ xs) in cc (ap (has x) e, same, has_self x xs)

-- Operations that are bytes, one at least, written as a value of the ops tag, are read back as the
-- set in ascending order, each operation once.
pub unpack_ops-pack_ops :
    (ops : List ℕ) → ops ≢ [] → All IsByte ops → (pack_ops ops >>= unpack_ops) ≡ ok (sorted_set ops)
unfolding pack_ops
unpack_ops-pack_ops ops some h =
    pack_sorted-unpack_ops 0 (sorted_set ops) (sorted_set_ne ops some) (sorted_set-Ascending ops)
      (sorted_set-All IsByte ops h)
