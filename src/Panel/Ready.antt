-- ===== src/Panel/Ready.antt =====
-- `wait_ready` of epd.c: its loop, which a deadline bounds.
pub mod Ends
pub mod Outcome
use greentags_lt213a_opendis.Prelude.{
  Status, done, etimedout, fail, if◌then◌else◌, leb, not, out_of_rounds, suc, zero, ℕ, ◌+◌,
}
use greentags_lt213a_opendis.Panel.Gpio.{Board, busy, gpio_pin_get_dt, cmd}

module _ {B : Type 0} (g : Board B) where
  -- The loop on fuel. A pin read is 0 or 1, never negative.
  unfoldable pub wait_rounds : ℕ → ℕ → B → Status × B
  wait_rounds zero deadline b = (fail out_of_rounds, b)
  wait_rounds (suc n) deadline b =
      let b = cmd g 113 b in
      let rest = wait_rounds n deadline (g.msleep 10 b) in
      if not (gpio_pin_get_dt g busy b)
      then (done, g.msleep 10 b)
      else if leb deadline (g.uptime b)
      then (fail etimedout, b)
      else rest

  -- Each round that goes on sleeps 10 of the 30000 milliseconds.
  abbrev pub wait_fuel : ℕ
  wait_fuel = 3001

  unfoldable pub wait_ready : B → Status × B
  wait_ready b = wait_rounds wait_fuel (g.uptime b + 30000) b
