-- ===== src/Telemetry/Packing.antt =====
-- What `od_read_msd` of telemetry.c leaves in the advertised bytes, and that it ends.
use greentags_lt213a_opendis.Prelude.{
  Bool, List, Option, Status, bit_and, bit_or, byte, done, eio, etimedout, fail, false, none, some,
  take, true, ℕ, ◌%◌, ◌&&◌, ◌*◌, ◌+◌, ◌/◌, ◌==◌, ◌≡◌, ◌≤◌,
}
use greentags_lt213a_opendis.Telemetry.Int.{ℤ}
use greentags_lt213a_opendis.Telemetry.Units.{IsHalfDegrees, IsHundredths}
use greentags_lt213a_opendis.Telemetry.Read.{Sensors}

-- A reader of the advertisement: temperature in half degrees above -40, voltage in hundredths of a
-- volt, and the flags of the last byte.
abbrev pub read_temperature : List ℕ → ℕ
read_temperature msd = byte msd 13

abbrev pub read_voltage : List ℕ → ℕ
read_voltage msd = byte msd 14 + 256 * (byte msd 15 % 2)

abbrev pub read_flags : List ℕ → ℕ
read_flags msd = byte msd 15 / 2

low_bit : ℕ → ℕ → ℕ
low_bit old bit = bit_or (bit_and old 254) bit

keeps_flags : ℕ → ℕ → Bool
unfolding low_bit
keeps_flags old bit = low_bit old bit % 2 == bit && low_bit old bit / 2 == old / 2

-- What the reader gets back.
abbrev Packed : ℕ → ℕ → List ℕ → List ℕ → Type 0
Packed temperature voltage msd msd' =
    (read_temperature msd' ≡ temperature)
    × (read_voltage msd' ≡ voltage)
    × (read_flags msd' ≡ read_flags msd)
    × (take 13 msd' ≡ take 13 msd)

module _ {K : Type 0} (s : Sensors K) where
  -- Sleeps of a millisecond, in any number.
  pub data Waits : K → K → Type 0 where
    no_more : (k : K) → Waits k k
    slept : {k k' : K} → Waits (s.msleep 1 k) k' → Waits k k'

  -- What `od_read_msd` returns and leaves, after the driver of the sensor. No value, or no end of the
  -- conversion in 50 milliseconds, is an error, which leaves the bytes alone. The ADC is stopped.
  pub data Reports (value : Option (ℤ × ℤ)) (k : K) (msd : List ℕ)
      : Status → List ℕ → K → Type 0 where
    no_value : value ≡ none → Reports value k msd (fail eio) msd k
    too_late :
        {val1 val2 : ℤ} {k' : K}
        → value ≡ some (val1, val2)
        → Waits (s.start k) k'
        → s.ended k' ≡ false
        → s.uptime (s.start k) + 50 ≤ s.uptime k'
        → Reports value k msd (fail etimedout) msd (s.stop k')
    stored :
        {val1 val2 : ℤ} {k' : K} {msd' : List ℕ}
        → value ≡ some (val1, val2)
        → Waits (s.start k) k'
        → s.ended k' ≡ true
        → IsHalfDegrees val1 val2 (read_temperature msd')
        → IsHundredths (s.result k') (read_voltage msd')
        → read_flags msd' ≡ read_flags msd
        → take 13 msd' ≡ take 13 msd
        → Reports value k msd done msd' (s.stop k')

  -- A sleep of the loop lasts a millisecond at least.
  abbrev pub Sleeps : Type 0
  Sleeps = (k : K) → s.uptime k + 1 ≤ s.uptime (s.msleep 1 k)
