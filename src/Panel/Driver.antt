-- ===== src/Panel/Driver.antt =====
-- The state and the operations of epd.c, over the calls of `Board`.
use greentags_lt213a_opendis.Prelude.{
  Bool, List, Status, [], done, einval, fail, failed, false, if◌then◌else◌, not, suc, true, u32, u8,
  ℕ, ◌&&◌, ◌*◌, ◌+◌, ◌-◌, ◌/◌, ◌==◌, ◌^◌, ◌∷◌,
}
use greentags_lt213a_opendis.Panel.Gpio.{
  Board, Pin, mosi, sck, cs, dc, reset, busy, bs, ◌▸◌, gpio_pin_set_dt, cmd, datum, shift_out,
  shift_all, data_all,
}
use greentags_lt213a_opendis.Panel.Ready.{wait_ready}
use greentags_lt213a_opendis.Panel.Waveform.{
  invert, lut_from, is_empty, white_plane, transitions, bad_region,
}

-- The static variables of epd.c, and the board.
pub record Epd (B : Type 0) : Type 0 where
  pub partial : Bool
  pub awake : Bool
  pub plane_bytes : ℕ
  pub plane_written : ℕ
  pub board : B

-- `deep_sleep` is IS_ENABLED(CONFIG_LT213A_EPD_DEEP_SLEEP).
module _ {B : Type 0} (g : Board B) (deep_sleep : Bool) where
  unfoldable pub panel_reset : Epd B → Epd B
  panel_reset p = record p {
    awake = true;
    board =
        g.cfg_input busy.number p.board
        ▸ gpio_pin_set_dt g reset true
        ▸ g.msleep 10
        ▸ gpio_pin_set_dt g reset false
        ▸ g.msleep 10;
  }

  -- What `epd_off` does when the panel is ready.
  unfoldable pub sleep_panel : B → B
  sleep_panel b = if deep_sleep then cmd g 7 b ▸ datum g 165 ▸ g.cfg_default busy.number else b

  abbrev pub power_off : B → B
  power_off b = cmd g 80 b ▸ datum g 247 ▸ cmd g 2 ▸ g.msleep 10

  abbrev pub release_pins : B → B
  release_pins b =
      gpio_pin_set_dt g cs false b
      ▸ gpio_pin_set_dt g dc false
      ▸ gpio_pin_set_dt g mosi false
      ▸ gpio_pin_set_dt g sck false

  unfoldable pub epd_off : Epd B → Status × Epd B
  epd_off p =
      let p = record p { partial = false } in
      let (err, b) = wait_ready g (power_off p.board) in
      if not p.awake
      then (done, p)
      else if failed err
      then (err, record p { board = release_pins b })
      else (err, record p { awake = false; board = release_pins (sleep_panel b) })

  -- One round of the loop over the outputs of `epd_init`.
  abbrev pub init_output : Pin → B → B
  init_output pin b = gpio_pin_set_dt g pin false b ▸ g.cfg_output pin.number

  unfoldable pub epd_init : Epd B → Status × Epd B
  epd_init p =
      let b =
        init_output cs p.board
        ▸ init_output dc
        ▸ init_output reset
        ▸ init_output bs
        ▸ init_output sck
        ▸ init_output mosi in
      (done, (epd_off (panel_reset (record p { board = b }))).1)

  abbrev pub power_setting : B → B
  power_setting b = cmd g 1 b ▸ datum g 3 ▸ datum g 2 ▸ datum g 33 ▸ datum g 33

  -- The booster, and power on.
  abbrev pub power_on : B → B
  power_on b = cmd g 6 b ▸ datum g 23 ▸ datum g 23 ▸ datum g 23 ▸ cmd g 4 ▸ g.msleep 10

  abbrev pub panel_setting : Bool → B → B
  panel_setting region b = cmd g 0 b ▸ datum g (if region then 191 else 31) ▸ datum g 13

  abbrev pub clock_setting : B → B
  clock_setting b = cmd g 48 b ▸ datum g 60

  abbrev pub resolution : B → B
  resolution b = cmd g 97 b ▸ datum g 104 ▸ datum g 0 ▸ datum g 212

  -- The old plane, all white, and the order to write the new one.
  unfoldable pub old_plane : B → B
  old_plane b =
      cmd g 80 b
      ▸ datum g 151
      ▸ cmd g 16
      ▸ gpio_pin_set_dt g dc true
      ▸ gpio_pin_set_dt g cs true
      ▸ shift_all g white_plane
      ▸ gpio_pin_set_dt g cs false
      ▸ cmd g 19

  -- `panel_begin` after the panel is ready.
  unfoldable pub configure : Bool → B → B
  configure region b =
      if region
      then panel_setting true b ▸ clock_setting ▸ resolution
      else panel_setting false b ▸ resolution ▸ old_plane

  -- `panel_begin` up to `wait_ready`
  unfoldable pub wake : Bool → Epd B → Epd B
  wake region p =
      let p =
        panel_reset (record p { partial = region; board = gpio_pin_set_dt g bs false p.board }) in
      record p { board = power_on (if region then power_setting p.board else p.board) }

  unfoldable pub panel_begin : Bool → Epd B → Status × Epd B
  panel_begin region p =
      let p = wake region p in
      let (err, b) = wait_ready g p.board in
      if failed err
      then (err, (epd_off (record p { board = b })).1)
      else (done, record p { board = configure region b })

  unfoldable pub epd_begin : Epd B → Status × Epd B
  epd_begin = panel_begin false

  -- One register LUT.
  abbrev pub send_lut : ℕ → ℕ → ℕ → B → B
  send_lut lut transition frames b =
      cmd g (u8 (32 + lut)) b
      ▸ data_all g (lut_from transition frames 0 (if lut == 0 then 44 else 42))

  -- The loop over them, from index `lut`.
  unfoldable pub send_luts : ℕ → ℕ → List ℕ → B → B
  send_luts frames lut [] b = b
  send_luts frames lut (transition ∷ transitions) b =
      send_luts frames (suc lut) transitions (send_lut lut transition frames b)

  abbrev pub vcom_setting : B → B
  vcom_setting b = cmd g 130 b ▸ datum g 8 ▸ cmd g 80 ▸ datum g 71

  -- The window, its bytes narrowed to `uint8_t`, and the order to write the old plane.
  unfoldable pub send_window : ℕ → ℕ → ℕ → ℕ → B → B
  send_window x y w h b =
      cmd g 145 b
      ▸ cmd g 144
      ▸ datum g (u8 x)
      ▸ datum g (u8 (x + w - 1))
      ▸ datum g (u8 (y / 2 ^ 8))
      ▸ datum g (u8 y)
      ▸ datum g (u8 ((y + h - 1) / 2 ^ 8))
      ▸ datum g (u8 (y + h - 1))
      ▸ datum g 40
      ▸ cmd g 16

  -- `frames` is what `od_config_partial_frames` gives.
  unfoldable pub epd_region : ℕ → ℕ → ℕ → ℕ → ℕ → Epd B → Status × Epd B
  epd_region frames x y w h p =
      let (err, p') = panel_begin true p in
      if bad_region x y w h then (fail einval, p) else if failed err then (err, p') else (
        done,
        record p' {
          board = send_window x y w h (send_luts frames 0 transitions (vcom_setting p'.board));
          plane_bytes = w / 8 * h;
          plane_written = 0;
          partial = true;
        },
      )

  -- Between two bytes at the end of the first plane of a region.
  unfoldable pub switch_plane : B → B
  switch_plane b =
      gpio_pin_set_dt g cs false b
      ▸ cmd g 19
      ▸ gpio_pin_set_dt g dc true
      ▸ gpio_pin_set_dt g cs true

  -- The loop of `epd_write`
  unfoldable pub write_bytes : List ℕ → Epd B → Epd B
  write_bytes [] p = p
  write_bytes (v ∷ bytes) p =
      let b =
        if p.partial && p.plane_written == p.plane_bytes then switch_plane p.board else p.board in
      write_bytes bytes (record p {
        board = shift_out g (if p.partial then invert v else v) b;
        plane_written = if p.partial then u32 (p.plane_written + 1) else p.plane_written;
      })

  unfoldable pub epd_write : List ℕ → Epd B → Status × Epd B
  epd_write bytes p =
      let selected = record p {
        board = gpio_pin_set_dt g dc true p.board ▸ gpio_pin_set_dt g cs true;
      } in
      let q = write_bytes bytes selected in
      if is_empty bytes
      then (done, p)
      else (done, record q { board = gpio_pin_set_dt g cs false q.board })

  -- Back to the full waveform for a refresh of the whole panel after a region.
  abbrev pub full_waveform : B → B
  full_waveform b = cmd g 0 b ▸ datum g 31 ▸ datum g 13 ▸ cmd g 80 ▸ datum g 151

  unfoldable pub epd_finish : ℕ → Epd B → Status × Epd B
  epd_finish mode p =
      let b = if p.partial && mode == 0 then full_waveform p.board else p.board in
      let (err, b) = wait_ready g (cmd g 18 b ▸ g.msleep 100) in
      let (off_err, p') = epd_off (record p { board = if p.partial then cmd g 146 b else b }) in
      (if failed err then err else off_err, p')
