-- ===== src/Telemetry/Read.antt =====
-- `od_read_msd` of telemetry.c. The temperature sensor and the ADC are the record `Sensors`.
use greentags_lt213a_opendis.Prelude.{
  Bool, List, Option, Status, [], bit_and, bit_or, byte, done, eio, etimedout, fail, if◌then◌else◌,
  ltb, none, not, some, splice, suc, u32, u8, zero, ℕ, ◌&&◌, ◌*◌, ◌+◌, ◌-◌, ◌/◌, ◌^◌, ◌∷◌,
}
use greentags_lt213a_opendis.Telemetry.Int.{ℤ, pos, ◌+ℤ◌, double, div_toward_zero, clamp}

-- device_is_ready, sensor_sample_fetch and sensor_channel_get give the two numbers of a struct
-- sensor_value, or one of them fails. `start` is the writes to the registers of the ADC that begin a
-- conversion, `stop` the two that end it, `ended` and `result` are EVENTS_END and RESULT; `msleep` and
-- `uptime` are k_msleep and k_uptime_get.
pub record Sensors (K : Type 0) : Type 0 where
  pub temperature : K → Option (ℤ × ℤ) × K
  pub start : K → K
  pub ended : K → Bool
  pub result : K → ℕ
  pub stop : K → K
  pub msleep : ℕ → K → K
  pub uptime : K → ℕ

-- Half degrees above -40.
abbrev pub half_degrees : ℤ → ℤ → ℤ
half_degrees val1 val2 = double val1 +ℤ div_toward_zero val2 500000 +ℤ pos 80

-- Hundredths of a volt.
abbrev pub hundredths : ℕ → ℕ
hundredths result = u32 (u32 (result * 360) + 511) / 1023

-- The writes to msd[13], msd[14] and msd[15].
unfoldable pub pack_msd : ℤ → ℕ → List ℕ → List ℕ
pack_msd temperature voltage msd =
    splice 13
      (clamp 255 temperature
        ∷ u8 voltage
        ∷ bit_or (bit_and (byte msd 15) (255 - 1)) (bit_and (voltage / 2 ^ 8) 1)
        ∷ [])
      msd

abbrev pub adc_fuel : ℕ
adc_fuel = 50

module _ {K : Type 0} (s : Sensors K) where
  -- The loop that waits for the ADC, on fuel: each round sleeps one of its 50 milliseconds.
  unfoldable pub wait_adc : ℕ → ℕ → K → K
  wait_adc zero deadline k = k
  wait_adc (suc n) deadline k =
      let rest = wait_adc n deadline (s.msleep 1 k) in
      if not (s.ended k) && ltb (s.uptime k) deadline then rest else k

  unfoldable pub convert : K → Bool × ℕ × K
  convert k =
      let started = s.start k in
      let waited = wait_adc adc_fuel (s.uptime started + 50) started in
      (s.ended waited, s.result waited, s.stop waited)

  abbrev pub store_msd : Option (ℤ × ℤ) → K → List ℕ → Status × List ℕ × K
  store_msd none k msd = (fail eio, msd, k)
  store_msd (some (val1, val2)) k msd =
      let (ready, result, k') = convert k in
      if not ready
      then (fail etimedout, msd, k')
      else (done, pack_msd (half_degrees val1 val2) (hundredths result) msd, k')

  unfoldable pub od_read_msd : List ℕ → K → Status × List ℕ × K
  od_read_msd msd k = let (value, k') = s.temperature k in store_msd value k' msd
