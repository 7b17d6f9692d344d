-- ===== src/CaptureBlocks/Analog/Written.antt =====
-- The channels of an analog block are read back as they were written.
use oep_client_python.Prelude.{
  ℕ, ◌+◌, ◌*◌, ◌/◌, ◌^◌, ◌<◌, ◌≡◌, ◌≢◌, refl, sym, ap, ◌∙◌, List, [], ◌∷◌, ◌++◌, append_assoc,
  arith, length, take-append, drop-append, All,
}
use oep_client_python.Bytes.{Bytes, length-le_bytes}
use oep_client_python.CaptureBlocks.Logic.{intervals}
use oep_client_python.CaptureBlocks.Analog.{
  Carriage, AnalogChannel, packed, carriage_of, interval_size, part_bits, part_bytes, read_channel,
  read_channels,
}
use oep_client_python.CaptureBlocks.Analog.Inverse.{
  Fits, width, plain, Interval, summary, summaries, with_intervals, field_bytes, no_channel,
  read_channel-packed, read_channel-summary,
}

-- A channel's part of a block: packed values, or the intervals of a summary.
pub data Part : Type 0 where
  values_of : List ℕ → Part
  intervals_of : List Interval → Part

-- A part of r samples in the given carriage.
abbrev pub IsPart : ℕ → ℕ × ℕ → ℕ → Part → Type 0
IsPart r (kind, d) b (values_of vs) = (kind ≡ packed) × (length vs ≡ r) × All (λ v. v < 2 ^ b) vs
IsPart r (kind, d) b (intervals_of is) =
    (kind ≢ packed) × (length is ≡ intervals r d) × All Fits (summaries kind d b is)

abbrev pub part_written : ℕ × ℕ → ℕ → Part → Bytes
part_written (kind, d) b (values_of vs) = field_bytes (plain b vs)
part_written (kind, d) b (intervals_of is) = field_bytes (summaries kind d b is)

abbrev pub channel_of : ℕ × ℕ → Part → AnalogChannel
channel_of (kind, d) (values_of vs) = record (no_channel kind d) { values = vs }
channel_of (kind, d) (intervals_of is) = with_intervals is (no_channel kind d)

abbrev pub roles_of : List (ℕ × Part) → List ℕ
roles_of [] = []
roles_of ((k, part) ∷ parts) = k ∷ roles_of parts

module _ (r : ℕ) (carriage : List Carriage) (b : ℕ) where
  abbrev pub AreParts : List (ℕ × Part) → Type 0
  AreParts [] = Unit {0}
  AreParts ((k, part) ∷ parts) = IsPart r (carriage_of k carriage) b part × AreParts parts

  abbrev pub block_written : List (ℕ × Part) → Bytes
  block_written [] = []
  block_written ((k, part) ∷ parts) =
      part_written (carriage_of k carriage) b part ++ block_written parts

  abbrev pub channels_of : List (ℕ × Part) → List (ℕ × AnalogChannel)
  channels_of [] = []
  channels_of ((k, part) ∷ parts) =
      (k, channel_of (carriage_of k carriage) part) ∷ channels_of parts

width-plain : (b : ℕ) (vs : List ℕ) → width (plain b vs) ≡ length vs * b
width-plain b [] = omega arith
width-plain b (v ∷ vs) = omega (arith, width-plain b vs)

width-append : (xs ys : List (ℕ × ℕ)) → width (xs ++ ys) ≡ width xs + width ys
width-append [] ys = omega arith
width-append ((bits, v) ∷ xs) ys = omega (arith, width-append xs ys)

width-summary : (kind d b : ℕ) (i : Interval) → width (summary kind d b i) ≡ interval_size kind d b
unfolding interval_size
width-summary kind d b (low, high, total) = ground arith

width-summaries :
    (kind d b : ℕ) (is : List Interval)
    → width (summaries kind d b is) ≡ length is * interval_size kind d b
width-summaries kind d b [] = omega arith
width-summaries kind d b (i ∷ is) =
    width-append (summary kind d b i) (summaries kind d b is)
    ∙ omega (arith, width-summary kind d b i, width-summaries kind d b is)

pub part_written-IsPart :
    (r : ℕ) (how : ℕ × ℕ) (b : ℕ) (part : Part)
    → IsPart r how b part
    → (length (part_written how b part) ≡ part_bytes r how b)
      × (read_channel r how b (part_written how b part) ≡ channel_of how part)
unfolding part_bits
part_written-IsPart r (kind, d) b (values_of vs) (is_packed, n, small) =
    let bits : part_bits r kind d b ≡ r * b = ground (arith, is_packed) in
    let fill : width (plain b vs) ≡ part_bits r kind d b =
      width-plain b vs ∙ ap (λ m. m * b) n ∙ sym bits in
    (
      length-le_bytes _ _ ∙ ap (λ w. (w + 7) / 8) fill,
      rw (is_packed, ← n) (read_channel-packed b d vs small),
    )
part_written-IsPart r (kind, d) b (intervals_of is) (other, n, fits) =
    let bits : part_bits r kind d b ≡ intervals r d * interval_size kind d b =
      ground (arith, other) in
    let fill : width (summaries kind d b is) ≡ part_bits r kind d b =
      width-summaries kind d b is ∙ ap (λ m. m * interval_size kind d b) n ∙ sym bits in
    (
      length-le_bytes _ _ ∙ ap (λ w. (w + 7) / 8) fill,
      read_channel-summary b r kind d is other n fits,
    )

-- The channels of a block of r samples, written one after the other with each part ending on a byte and
-- any bytes behind, are read back as they were written: packed values below 2 ^ b, one for each
-- sample, and of a summary the least and greatest values and the sums, as its carriage has them, one for
-- each interval, below their widths; what is left is what stands behind.
pub read_channels-block_written :
    (r : ℕ) (carriage : List Carriage) (b : ℕ) (parts : List (ℕ × Part)) (more : Bytes)
    → AreParts r carriage b parts
    → read_channels r (roles_of parts) carriage b (block_written r carriage b parts ++ more)
      ≡ (channels_of r carriage b parts, more)
unfolding read_channels
read_channels-block_written r carriage b [] more h = refl
read_channels-block_written r carriage b ((k, part) ∷ parts) more h =
    let (size, read) = part_written-IsPart r (carriage_of k carriage) b part h.0 in
    let later = read_channels-block_written r carriage b parts more h.1 in
    rw
      (
        append_assoc (part_written (carriage_of k carriage) b part)
            (block_written r carriage b parts) more,
        ← size,
        take-append,
        drop-append,
        read,
        later,
      )
      refl
