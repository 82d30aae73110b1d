-- ===== src/Panel/Bench/Transfer.antt =====
-- What one call of `shift_out` or `byte_out` does to the bench: the controller gets one byte.
use greentags_lt213a_opendis.Prelude.{
  Bool, List, [], all_below_sound, ap, ap₂, arith, bit_and, bit_and_power, digit-mod, false, refl,
  suc, sym, true, u8, zero, ℕ, ◌!=◌, ◌*◌, ◌<◌, ◌==◌, ◌∙◌, ◌∷◌, ◌≡◌,
}
use greentags_lt213a_opendis.Panel.Gpio.{
  Board, clock_bit, clock_bits, shift_out, byte_out, cmd, datum, shift_all, data_all,
}
use greentags_lt213a_opendis.Panel.Bench.{Bench, Chip, bench, number, heard, ordered, given}

-- The levels that `clock_bits` puts on MOSI.
abbrev bits_of : ℕ → ℕ → List Bool
bits_of zero v = []
bits_of (suc n) v = (bit_and v 128 != 0) ∷ bits_of n (u8 (v * 2))

number-bits : (v : ℕ) → v < 256 → number (bits_of 8 v) 0 ≡ v
number-bits v small =
    let h = all_below_sound 256 (λ v. number (bits_of 8 v) 0 == v) v refl small in ground (arith, h)

high_bit : (v : ℕ) → bit_and v 128 ≡ bit_and (u8 v) 128
high_bit v =
    bit_and_power v 7
    ∙ ap (λ t. t * 128) (sym (digit-mod v 8 7 (omega arith)))
    ∙ sym (bit_and_power (u8 v) 7)

bits_of-u8 : (v : ℕ) → bits_of 8 v ≡ bits_of 8 (u8 v)
bits_of-u8 v = ap₂ (λ a b. (a != 0) ∷ bits_of 7 b) (high_bit v) (omega arith)

pub number-bits_u8 : (v : ℕ) → number (bits_of 8 v) 0 ≡ u8 v
number-bits_u8 v = ap (λ t. number t 0) (bits_of-u8 v) ∙ number-bits (u8 v) (omega arith)

-- A bench with CS low, DC high and no bits on their way.
abbrev pub selecting : Bench → Bench
selecting b = record b { cs_level = false; dc_level = true; bits = [] }

-- Data bytes, one after the other.
unfoldable pub fed : List ℕ → Chip → Chip
fed [] c = c
fed (v ∷ values) c = fed values (given (u8 v) c)

module _ (level : Chip → ℕ → Bool) where
  abbrev pub g : Board Bench
  g = bench level

  byte_out-chip :
      (v : ℕ) (is_data : Bool) (b : Bench)
      → (byte_out g v is_data b).chip ≡ heard is_data (number (bits_of 8 v) 0) b.chip
  unfolding byte_out shift_out clock_bits clock_bit
  byte_out-chip v true b = refl
  byte_out-chip v false b = refl

  abbrev taken : ℕ → Bench → Bench
  taken v b = record b {
    chip = given (number (bits_of 8 v) 0) b.chip;
    sck_level = false;
    mosi_level = (shift_out g v (selecting b)).mosi_level;
  }

  shift_out-selecting : (v : ℕ) (b : Bench) → shift_out g v (selecting b) ≡ selecting (taken v b)
  unfolding shift_out clock_bits clock_bit
  shift_out-selecting v b = refl

  -- One order, and one data byte.
  pub cmd-chip : (v : ℕ) (b : Bench) → (cmd g v b).chip ≡ ordered (u8 v) b.chip
  cmd-chip v b = byte_out-chip v false b ∙ ap (λ t. ordered t b.chip) (number-bits_u8 v)

  pub datum-chip : (v : ℕ) (b : Bench) → (datum g v b).chip ≡ given (u8 v) b.chip
  datum-chip v b = byte_out-chip v true b ∙ ap (λ t. given t b.chip) (number-bits_u8 v)

  pub data_all-chip : (vs : List ℕ) (b : Bench) → (data_all g vs b).chip ≡ fed vs b.chip
  unfolding data_all fed
  data_all-chip [] b = refl
  data_all-chip (v ∷ vs) b = data_all-chip vs (datum g v b) ∙ ap (fed vs) (datum-chip v b)

  -- A bench that stays selected, and what its controller became.
  abbrev pub Takes : Bench → Chip → Type 0
  Takes b c = (b' : Bench) × (b ≡ selecting b') × (b'.chip ≡ c)

  pub shift_out-Takes :
      (v : ℕ) (b : Bench) → Takes (shift_out g v (selecting b)) (given (u8 v) b.chip)
  shift_out-Takes v b =
      (taken v b, shift_out-selecting v b, ap (λ t. given t b.chip) (number-bits_u8 v))

  pub shift_all-Takes :
      (vs : List ℕ) (b : Bench) → Takes (shift_all g vs (selecting b)) (fed vs b.chip)
  unfolding shift_all fed
  shift_all-Takes [] b = (b, refl, refl)
  shift_all-Takes (v ∷ vs) b =
      let (b₁, e₁, c₁) = shift_out-Takes v b in
      let (b₂, e₂, c₂) = shift_all-Takes vs b₁ in
      (b₂, ap (shift_all g vs) e₁ ∙ e₂, c₂ ∙ ap (fed vs) c₁)
