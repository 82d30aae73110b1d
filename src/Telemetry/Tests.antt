-- ===== src/Telemetry/Tests.antt =====
-- The theorems about the telemetry at concrete inputs.
use greentags_lt213a_opendis.Prelude.{List, [], done, ltb, refl, some, ℕ, ◌+◌, ◌∷◌, ◌≡◌}
use greentags_lt213a_opendis.Telemetry.Int.{pos, ◌+ℤ◌}
use greentags_lt213a_opendis.Telemetry.Read.{Sensors, pack_msd, wait_adc, convert, od_read_msd}

-- A clock, 21.5 degrees, and an ADC that is ready in its fourth millisecond.
abbrev sensors : Sensors ℕ
sensors = record {
  temperature = λ t. (some (pos 21, pos 500000), t);
  start = λ t. t;
  ended = λ t. ltb 3 t;
  result = λ t. 840;
  stop = λ t. t;
  msleep = λ ms t. t + ms;
  uptime = λ t. t;
}

abbrev advertised : List ℕ
advertised = 0x46 ∷ 0x24 ∷ 0 ∷ 0 ∷ 0 ∷ 0 ∷ 0 ∷ 0 ∷ 0 ∷ 0 ∷ 0 ∷ 0 ∷ 0 ∷ 0 ∷ 0 ∷ 2 ∷ []

-- 21.5 degrees and 2.96 volt.
packed :
    od_read_msd sensors advertised 0
    ≡ (done, (0x46 ∷ 0x24 ∷ 0 ∷ 0 ∷ 0 ∷ 0 ∷ 0 ∷ 0 ∷ 0 ∷ 0 ∷ 0 ∷ 0 ∷ 0 ∷ 123 ∷ 40 ∷ 3 ∷ []), 4)
unfolding od_read_msd convert wait_adc pack_msd ◌+ℤ◌
packed = refl
