-- ===== src/Panel/Ready/Outcome.antt =====
-- How `wait_ready` of epd.c ends, and what its callers report.
use greentags_lt213a_opendis.Prelude.{
  Bool, Status, arith, done, etimedout, fail, false, if◌then◌else◌, refl, true, ℕ, ◌&&◌, ◌+◌, ◌==◌,
  ◌≡◌, ◌≤◌,
}
use greentags_lt213a_opendis.Panel.Gpio.{Board, busy, gpio_pin_get_dt, cmd}
use greentags_lt213a_opendis.Panel.Ready.{wait_ready}
use greentags_lt213a_opendis.Panel.Ready.Ends.{
  BoardLaws, Polls, ready, late, again, wait_ready-Polls,
}
use greentags_lt213a_opendis.Panel.Driver.{
  Epd, full_waveform, power_off, panel_reset, wake, panel_begin, epd_begin, epd_region, epd_finish,
  epd_off,
}
use greentags_lt213a_opendis.Panel.Waveform.{bad_region}

module _ {B : Type 0} (g : Board B) where
  -- From this time on BUSY is released.
  abbrev pub ReadyFrom : ℕ → Type 0
  ReadyFrom t = (b : B) → t ≤ g.uptime b → gpio_pin_get_dt g busy b ≡ false

  Polls-done :
      {deadline t : ℕ} {b b' : B} {s : Status}
      → Polls g deadline b s b'
      → ReadyFrom t
      → t ≤ deadline
      → s ≡ done
  Polls-done (ready b free) released early = refl
  Polls-done {t = t} (late b held over) released early =
      let time : t ≤ g.uptime (cmd g 113 b) = omega (arith, over, early) in
      let free = released (cmd g 113 b) time in absurd (ground (arith, held, free))
  Polls-done (again held left more) released early = Polls-done more released early

  -- With a clock that no call sets back and sleeps that last their time: if BUSY is released
  -- whenever it is read from some time on, which is at most 30 seconds after the start, wait_ready
  -- reports no error.
  pub wait_ready-done :
      (t : ℕ) (b : B)
      → BoardLaws g
      → ReadyFrom t
      → t ≤ g.uptime b + 30000
      → (wait_ready g b).0 ≡ done
  wait_ready-done t b laws released early = Polls-done (wait_ready-Polls g laws b) released early

  -- A timeout is reported; the panel counts as awake, so that the next `epd_off` tries again.
  abbrev pub TimesOut : Status × Epd B → Type 0
  TimesOut (s, p) = (s ≡ fail etimedout) × (p.awake ≡ true) × (p.partial ≡ false)

  -- BUSY is never released.
  abbrev pub IsStuck : Type 0
  IsStuck = (b : B) → gpio_pin_get_dt g busy b ≡ true

  Polls-stuck :
      {deadline : ℕ} {b b' : B} {s : Status}
      → Polls g deadline b s b'
      → IsStuck
      → s ≡ fail etimedout
  Polls-stuck (ready b free) stuck =
      let held = stuck (cmd g 113 b) in absurd (ground (arith, held, free))
  Polls-stuck (late b held over) stuck = refl
  Polls-stuck (again held left more) stuck = Polls-stuck more stuck

  wait_ready-stuck : (b : B) → BoardLaws g → IsStuck → (wait_ready g b).0 ≡ fail etimedout
  wait_ready-stuck b laws stuck = Polls-stuck (wait_ready-Polls g laws b) stuck

  module _ (deep_sleep : Bool) (laws : BoardLaws g) where
    -- A failed operation ends with the panel taken to be awake, so that the next one powers it off.
    off-stuck : (p : Epd B) → IsStuck → p.awake ≡ true → TimesOut (epd_off g deep_sleep p)
    unfolding epd_off
    off-stuck p stuck awake =
        let w = wait_ready-stuck (power_off g deep_sleep p.board) laws stuck in
        rw (awake, w) (refl, refl, refl)

    begin-stuck :
        (region : Bool) (p : Epd B) → IsStuck → TimesOut (panel_begin g deep_sleep region p)
    unfolding panel_begin wake panel_reset
    begin-stuck region p stuck =
        let q = wake g deep_sleep region p in
        let w = wait_ready-stuck q.board laws stuck in
        let off = off-stuck (record q { board = (wait_ready g q.board).1 }) stuck refl in
        rw w (refl, off.1, off.2)

    -- With a clock that no call sets back and sleeps that last their time: on a panel that never
    -- releases BUSY and is marked as awake, epd_begin, epd_region with a region that is accepted,
    -- epd_finish and epd_off all end and report the timeout, leave the panel marked as awake, and
    -- leave no region open.
    pub stuck-TimesOut :
        (frames x y w h mode : ℕ) (p : Epd B)
        → IsStuck
        → bad_region x y w h ≡ false
        → p.awake ≡ true
        → TimesOut (epd_begin g deep_sleep p)
          × TimesOut (epd_region g deep_sleep frames x y w h p)
          × TimesOut (epd_finish g deep_sleep mode p)
          × TimesOut (epd_off g deep_sleep p)
    unfolding epd_begin epd_region epd_finish
    stuck-TimesOut frames x y w h mode p stuck inside awake =
        let begun = begin-stuck false p stuck in
        let opened = begin-stuck true p stuck in
        let b = if p.partial && mode == 0 then full_waveform g deep_sleep p.board else p.board in
        let shown = g.msleep 100 (cmd g 18 b) in
        let w = wait_ready-stuck shown laws stuck in
        let b' = (wait_ready g shown).1 in
        let off =
          off-stuck (record p { board = if p.partial then cmd g 146 b' else b' }) stuck awake in
        (
          begun,
          rw (inside, opened.0) (refl, opened.1, opened.2),
          rw w (refl, off.1, off.2),
          off-stuck p stuck awake,
        )
