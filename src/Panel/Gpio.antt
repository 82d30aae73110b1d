-- ===== src/Panel/Gpio.antt =====
-- The pins of epd.c and the transfer of one byte. The calls of the nRF GPIO layer and of the Zephyr
-- kernel are the record `Board`, functions on a state of the board.
-- The numbers and polarities of the pins are those of boards/greentags/lt213a/lt213a_nrf51822.dts.
use greentags_lt213a_opendis.Prelude.{
  Bool, List, [], bit_and, false, not, suc, true, u8, zero, ℕ, ◌!=◌, ◌*◌, ◌∷◌,
}

-- struct pin
pub record Pin : Type 0 where
  pub number : ℕ
  pub inverted : Bool

-- PIN(mosi) to PIN(bs)
abbrev pub mosi : Pin
mosi = record { number = 30; inverted = false }

abbrev pub sck : Pin
sck = record { number = 0; inverted = false }

abbrev pub cs : Pin
cs = record { number = 1; inverted = true }

abbrev pub dc : Pin
dc = record { number = 2; inverted = false }

abbrev pub reset : Pin
reset = record { number = 3; inverted = true }

abbrev pub busy : Pin
busy = record { number = 4; inverted = true }

abbrev pub bs : Pin
bs = record { number = 5; inverted = false }

-- nrf_gpio_pin_write, nrf_gpio_pin_read, nrf_gpio_cfg_input, nrf_gpio_cfg_output,
-- nrf_gpio_cfg_default, k_busy_wait, k_msleep and k_uptime_get.
pub record Board (B : Type 0) : Type 0 where
  pub pin_write : ℕ → Bool → B → B
  pub pin_read : ℕ → B → Bool
  pub cfg_input : ℕ → B → B
  pub cfg_output : ℕ → B → B
  pub cfg_default : ℕ → B → B
  pub busy_wait : ℕ → B → B
  pub msleep : ℕ → B → B
  pub uptime : B → ℕ

-- One call after the other.
infixl 5 ◌▸◌
abbrev pub ◌▸◌ : {A B : Type 0} → A → (A → B) → B
x ▸ f = f x

-- a != b on bool
abbrev pub differs : Bool → Bool → Bool
differs b true = not b
differs b false = b

module _ {B : Type 0} (g : Board B) where
  abbrev pub gpio_pin_set_dt : Pin → Bool → B → B
  gpio_pin_set_dt pin active = g.pin_write pin.number (differs active pin.inverted)

  abbrev pub gpio_pin_get_dt : Pin → B → Bool
  gpio_pin_get_dt pin b = differs (g.pin_read pin.number b) pin.inverted

  -- The body of the loop of `shift_out`, for the highest bit of `value`.
  unfoldable pub clock_bit : ℕ → B → B
  clock_bit value b =
      b
      ▸ gpio_pin_set_dt sck false
      ▸ gpio_pin_set_dt mosi (bit_and value 128 != 0)
      ▸ g.busy_wait 1
      ▸ gpio_pin_set_dt sck true
      ▸ g.busy_wait 1

  -- The last `n` rounds of the loop.
  unfoldable pub clock_bits : ℕ → ℕ → B → B
  clock_bits zero value b = b
  clock_bits (suc n) value b = clock_bits n (u8 (value * 2)) (clock_bit value b)

  unfoldable pub shift_out : ℕ → B → B
  shift_out value b = clock_bits 8 value b ▸ gpio_pin_set_dt sck false

  unfoldable pub byte_out : ℕ → Bool → B → B
  byte_out value is_data b =
      b
      ▸ gpio_pin_set_dt dc is_data
      ▸ gpio_pin_set_dt cs true
      ▸ shift_out value
      ▸ gpio_pin_set_dt cs false

  abbrev pub cmd : ℕ → B → B
  cmd value = byte_out value false

  abbrev pub datum : ℕ → B → B
  datum value = byte_out value true

  -- A loop that hands each byte to `shift_out`.
  unfoldable pub shift_all : List ℕ → B → B
  shift_all [] b = b
  shift_all (v ∷ values) b = shift_all values (shift_out v b)

  -- Data bytes, one call each.
  unfoldable pub data_all : List ℕ → B → B
  data_all [] b = b
  data_all (v ∷ values) b = data_all values (datum v b)
