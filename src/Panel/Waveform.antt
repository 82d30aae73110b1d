-- ===== src/Panel/Waveform.antt =====
-- What epd.c computes or holds as constants: inverted bytes, register LUTs, the white plane, and the test
-- of a region.
use greentags_lt213a_opendis.Prelude.{
  Bool, List, [], bit_and, bit_or, false, if◌then◌else◌, ltb, replicate, suc, true, u8, zero, ℕ,
  ◌!=◌, ◌+◌, ◌-◌, ◌==◌, ◌||◌, ◌∷◌,
}
use greentags_lt213a_opendis.Protocol.Base.{epd_width, epd_height, frame_bytes}

-- (uint8_t)~value of a byte
abbrev pub invert : ℕ → ℕ
invert value = 255 - u8 value

-- A waveform of a register LUT: `count` bytes with the transition, the frames and two ones.
abbrev pub lut_byte : ℕ → ℕ → ℕ → ℕ
lut_byte transition frames i =
    if i == 0 then transition else if i == 2 then frames else if i == 1 || i == 5 then 1 else 0

abbrev pub lut_from : ℕ → ℕ → ℕ → ℕ → List ℕ
lut_from transition frames i zero = []
lut_from transition frames i (suc n) =
    lut_byte transition frames i ∷ lut_from transition frames (suc i) n

-- !len
abbrev pub is_empty : List ℕ → Bool
is_empty [] = true
is_empty (v ∷ bytes) = false

-- The bytes that `panel_begin` writes to the old plane.
unfoldable pub white_plane : List ℕ
white_plane = replicate frame_bytes 255

abbrev pub transitions : List ℕ
transitions = 0 ∷ 0 ∷ 32 ∷ 16 ∷ 0 ∷ []

abbrev pub bad_region : ℕ → ℕ → ℕ → ℕ → Bool
bad_region x y w h =
    w == 0
    || h == 0
    || bit_and (bit_or x w) 7 != 0
    || ltb epd_width (x + w)
    || ltb epd_height (y + h)
