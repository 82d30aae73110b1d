-- ===== src/Panel/Ready/Ends.antt =====
-- The loop of `wait_ready` as a relation without fuel, on any board whose clock does not run backwards.
use greentags_lt213a_opendis.Prelude.{
  Bool, Bool-cases, Status, arith, done, etimedout, fail, false, inl, inr, leb, suc, true, u8, zero,
  ℕ, ◌*◌, ◌+◌, ◌<◌, ◌≡◌, ◌≤◌,
}
use greentags_lt213a_opendis.Panel.Gpio.{
  Board, busy, gpio_pin_get_dt, clock_bit, clock_bits, shift_out, byte_out, cmd,
}
use greentags_lt213a_opendis.Panel.Ready.{wait_rounds, wait_ready}

-- What the driver relies on: no call sets the clock back, and a sleep lasts as long as it is told to.
pub record BoardLaws {B : Type 0} (g : Board B) : Type 0 where
  pub write_time : (pin : ℕ) (high : Bool) (b : B) → g.uptime b ≤ g.uptime (g.pin_write pin high b)
  pub wait_time : (us : ℕ) (b : B) → g.uptime b ≤ g.uptime (g.busy_wait us b)
  pub sleep_time : (ms : ℕ) (b : B) → g.uptime b + ms ≤ g.uptime (g.msleep ms b)

module _ {B : Type 0} (g : Board B) where
  -- The rounds of the loop, from a state to its result and the state after it.
  pub data Polls (deadline : ℕ) : B → Status → B → Type 0 where
    ready :
        (b : B)
        → gpio_pin_get_dt g busy (cmd g 113 b) ≡ false
        → Polls deadline b done (g.msleep 10 (cmd g 113 b))
    late :
        (b : B)
        → gpio_pin_get_dt g busy (cmd g 113 b) ≡ true
        → deadline ≤ g.uptime (cmd g 113 b)
        → Polls deadline b (fail etimedout) (cmd g 113 b)
    again :
        {b b' : B} {s : Status}
        → gpio_pin_get_dt g busy (cmd g 113 b) ≡ true
        → g.uptime (cmd g 113 b) < deadline
        → Polls deadline (g.msleep 10 (cmd g 113 b)) s b'
        → Polls deadline b s b'

  module _ (laws : BoardLaws g) where
    clock_bit_time : (value : ℕ) (b : B) → g.uptime b ≤ g.uptime (clock_bit g value b)
    unfolding clock_bit
    clock_bit_time value b = grind (arith, laws.write_time, laws.wait_time)

    clock_bits_time : (n value : ℕ) (b : B) → g.uptime b ≤ g.uptime (clock_bits g n value b)
    unfolding clock_bits
    clock_bits_time zero value b = omega arith
    clock_bits_time (suc n) value b =
        omega
          (arith, clock_bit_time value b, clock_bits_time n (u8 (value * 2)) (clock_bit g value b))

    byte_out_time :
        (value : ℕ) (is_data : Bool) (b : B) → g.uptime b ≤ g.uptime (byte_out g value is_data b)
    unfolding byte_out shift_out
    byte_out_time value is_data b = grind (arith, laws.write_time, clock_bits_time)

    -- One round, when the rounds that follow are right.
    round-Polls :
        (n deadline : ℕ) (b : B)
        → (g.uptime (cmd g 113 b) < deadline
            → Polls deadline
                (g.msleep 10 (cmd g 113 b))
                (wait_rounds g n deadline (g.msleep 10 (cmd g 113 b))).0
                (wait_rounds g n deadline (g.msleep 10 (cmd g 113 b))).1)
        → Polls deadline b (wait_rounds g (suc n) deadline b).0 (wait_rounds g (suc n) deadline b).1
    unfolding wait_rounds
    round-Polls n deadline b next =
        let b₁ = cmd g 113 b in
        elim (Bool-cases (gpio_pin_get_dt g busy b₁)) [
          | inr free ↦ rw free (ready b free)
          | inl held ↦ elim (Bool-cases (leb deadline (g.uptime b₁))) [
            | inl over ↦ rw (held, over) (late b held (ground arith))
            | inr early ↦
                let left : g.uptime b₁ < deadline = ground arith in
                rw (held, early) (again held left (next left))
          ]
        ]

    -- A round that goes on costs 10 milliseconds at least.
    rounds-Polls :
        (n deadline : ℕ) (b : B)
        → deadline ≤ g.uptime b + 10 * n
        → Polls deadline b (wait_rounds g (suc n) deadline b).0 (wait_rounds g (suc n) deadline b).1
    rounds-Polls zero deadline b enough =
        let later = byte_out_time 113 false b in
        round-Polls zero deadline b (λ left. absurd (omega (arith, later)))
    rounds-Polls (suc n) deadline b enough =
        let b₁ = cmd g 113 b in
        let later = byte_out_time 113 false b in
        let slept = laws.sleep_time 10 b₁ in
        round-Polls (suc n) deadline b
          (λ left. rounds-Polls n deadline (g.msleep 10 b₁) (omega (arith, later, slept)))

    -- With a clock that no call sets back and sleeps that last their time, the result of wait_ready
    -- is the one of the unbounded loop, which therefore ends.
    pub wait_ready-Polls :
        (b : B) → Polls (g.uptime b + 30000) b (wait_ready g b).0 (wait_ready g b).1
    unfolding wait_ready
    wait_ready-Polls b = rounds-Polls 3000 (g.uptime b + 30000) b (omega arith)
