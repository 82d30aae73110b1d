-- ===== src/Telemetry/Units.antt =====
-- The half degrees and the hundredths of a volt of telemetry.c against the measured values.
use greentags_lt213a_opendis.Prelude.{
  Bool-cases, arith, inl, inr, leb, refl, ℕ, ◌*◌, ◌+◌, ◌/◌, ◌<◌, ◌≡◌, ◌≤◌, ◌⊎◌,
}
use greentags_lt213a_opendis.Telemetry.Int.{
  ℤ, pos, negsuc, pos_part, neg_part, sub_ℕ, ◌+ℤ◌, double, div_toward_zero, clamp,
}
use greentags_lt213a_opendis.Telemetry.Read.{half_degrees, hundredths}

-- The byte of a temperature of val1 + val2 / 1000000 degrees: the half degrees above -40, with an error of
-- less than one of them, where they fit a byte, and otherwise the end of its range.
abbrev pub IsHalfDegrees : ℤ → ℤ → ℕ → Type 0
IsHalfDegrees val1 val2 t =
    let above = 40000000 + pos_part val1 * 1000000 + pos_part val2 in
    let below = neg_part val1 * 1000000 + neg_part val2 in
    (t ≤ 255)
    × ((t ≡ 255) ⊎ (above < below + t * 500000 + 500000))
    × ((t ≡ 0) ⊎ (below + t * 500000 < above + 500000))

-- The hundredths of a volt of a reading of 10 bits, whose full scale is 3.6 volts, to the nearest one.
abbrev pub IsHundredths : ℕ → ℕ → Type 0
IsHundredths reading v = (v * 1023 ≤ reading * 360 + 511) × (reading * 360 ≤ v * 1023 + 511)

one_part : (v : ℤ) → (pos_part v ≡ 0) ⊎ (neg_part v ≡ 0)
one_part (pos n) = inr refl
one_part (negsuc n) = inl refl

sub_parts : (a b : ℕ) → pos_part (sub_ℕ a b) + b ≡ a + neg_part (sub_ℕ a b)
sub_parts a b = elim (Bool-cases (leb b a)) [
  | inl y ↦ rw y (ground arith)
  | inr n ↦ rw n (ground arith)
]

sum_parts :
    (a b : ℤ)
    → pos_part (a +ℤ b) + neg_part a + neg_part b ≡ pos_part a + pos_part b + neg_part (a +ℤ b)
unfolding ◌+ℤ◌
sum_parts a b =
    let s = sub_parts (pos_part a + pos_part b) (neg_part a + neg_part b) in omega (arith, s)

half_degrees_parts :
    (val1 val2 : ℤ)
    → let t = half_degrees val1 val2 in
      pos_part t + neg_part val1 * 2 + neg_part val2 / 500000
      ≡ pos_part val1 * 2 + pos_part val2 / 500000 + 80 + neg_part t
half_degrees_parts val1 val2 =
    let one = sub_parts (pos_part val1 * 2) (neg_part val1 * 2) in
    let two = sub_parts (pos_part val2 / 500000) (neg_part val2 / 500000) in
    let sum = sum_parts (double val1) (div_toward_zero val2 500000) in
    let all_of_it = sum_parts (double val1 +ℤ div_toward_zero val2 500000) (pos 80) in
    omega (arith, one, two, sum, all_of_it)

clamped :
    (t : ℤ)
    → let c = clamp 255 t in
      (c ≤ 255) × ((c ≡ 255) ⊎ (pos_part t ≤ c)) × ((c ≡ 0) ⊎ ((c ≤ pos_part t) × (neg_part t ≡ 0)))
clamped (pos n) = ground arith
clamped (negsuc n) = (omega arith, inr (omega arith), inl refl)

-- The same of any number that has the parts of the half degrees.
near-IsHalfDegrees :
    (val1 val2 t : ℤ) (c : ℕ)
    → (pos_part t + neg_part val1 * 2 + neg_part val2 / 500000
        ≡ pos_part val1 * 2 + pos_part val2 / 500000 + 80 + neg_part t)
    → (pos_part val2 ≡ 0) ⊎ (neg_part val2 ≡ 0)
    → c ≤ 255
    → (c ≡ 255) ⊎ (pos_part t ≤ c)
    → (c ≡ 0) ⊎ ((c ≤ pos_part t) × (neg_part t ≡ 0))
    → IsHalfDegrees val1 val2 c
near-IsHalfDegrees val1 val2 t c parts one small high low = (
  small,
  elim high [
    | inl e ↦ inl e
    | inr le ↦
        inr (elim one [ inl z ↦ omega (arith, parts, le, z) | inr z ↦ omega (arith, parts, le, z) ])
  ],
  elim low [
    | inl e ↦ inl e
    | inr (le, none_below) ↦ inr (elim one [
      | inl z ↦ omega (arith, parts, le, none_below, z)
      | inr z ↦ omega (arith, parts, le, none_below, z)
    ])
  ],
)

pub clamp-IsHalfDegrees :
    (val1 val2 : ℤ) → IsHalfDegrees val1 val2 (clamp 255 (half_degrees val1 val2))
clamp-IsHalfDegrees val1 val2 =
    let t = half_degrees val1 val2 in
    let (small, high, low) = clamped t in
    near-IsHalfDegrees val1 val2 t (clamp 255 t) (half_degrees_parts val1 val2) (one_part val2)
      small high low

pub hundredths-IsHundredths :
    (result : ℕ)
    → result < 1024
    → IsHundredths result (hundredths result) × (hundredths result < 512)
hundredths-IsHundredths result ten_bits = ((omega arith, omega arith), omega arith)
