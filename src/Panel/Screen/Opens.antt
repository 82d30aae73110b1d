-- ===== src/Panel/Screen/Opens.antt =====
-- How a history of calls and the driver agree, and that opening, aborting and `epd_init` keep it so.
use greentags_lt213a_opendis.Prelude.{
  Bool, Bool-cases, List, Status-cases, [], ap, arith, failed, false, inl, inr, length, map, none,
  refl, true, u8, ℕ, ◌*◌, ◌/◌, ◌<◌, ◌^◌, ◌∙◌, ◌∷◌, ◌≡◌, ◌≤◌,
}
use native.Mathlib.Nat.{mul-le-mul}
use greentags_lt213a_opendis.Protocol.Base.{frame_bytes}
use greentags_lt213a_opendis.Protocol.Region.{IsWindow}
use greentags_lt213a_opendis.Protocol.Trace.{
  Event, began, opened_region, aborted, Panel, closed, opened, panel,
}
use greentags_lt213a_opendis.Protocol.Trace.Display.{
  Opening, whole_frame, region, opening, image, shown,
}
use greentags_lt213a_opendis.Panel.Gpio.{Board, mosi, sck, cs, dc, reset, bs, ◌▸◌}
use greentags_lt213a_opendis.Panel.Driver.{
  Epd, epd_begin, epd_region, epd_off, epd_init, panel_reset, init_output,
}
use greentags_lt213a_opendis.Panel.Waveform.{white_plane}
use greentags_lt213a_opendis.Panel.Bench.{Bench, Chip, bench}
use greentags_lt213a_opendis.Panel.Bench.Region.{Stored, in_old}
use greentags_lt213a_opendis.Panel.Bench.Off.{IsAttentive, epd_off-IsAttentive}
use greentags_lt213a_opendis.Panel.Bench.Opening.{epd_begin-done, panel_begin-fail}
use greentags_lt213a_opendis.Panel.Bench.Window.{epd_region-done, epd_region-fail}
use greentags_lt213a_opendis.Panel.Screen.{screen}

-- A driver that is writing an image, of which `bytes` are written.
abbrev pub Writes : Opening → ℕ → List ℕ → Epd Bench → Type 0
Writes whole_frame size bytes p =
    (p.partial ≡ false)
    × (size ≡ frame_bytes)
    × (p.board.chip.asleep ≡ false)
    × (p.board.chip.selected ≡ 19)
    × (p.board.chip.old_plane ≡ white_plane)
    × (p.board.chip.new_plane ≡ map u8 bytes)
Writes (region n) size bytes p =
    (p.partial ≡ true)
    × (size ≡ n * 2)
    × (0 < n)
    × (n * 2 < 2 ^ 32)
    × (p.plane_bytes ≡ n)
    × (p.plane_written ≡ length bytes)
    × Stored n bytes p.board.chip

-- What the driver and the controller owe to the panel of the history.
abbrev pub Holds : Panel → Opening → List ℕ → Epd Bench → Type 0
Holds closed o bytes p = Unit {0}
Holds (opened size written) o bytes p =
    (p.awake ≡ true) × (length bytes ≡ written) × Writes o size bytes p

abbrev pub Agrees : List Event → Epd Bench → Type 0
Agrees h p =
    IsAttentive p × (p.board.chip.shown ≡ screen h) × Holds (panel h) (opening h) (image h) p

window_size :
    (x y width height : ℕ)
    → IsWindow x y width height
    → (0 < width / 8 * height) × (width / 8 * height * 2 < 2 ^ 32)
window_size x y width height h =
    let columns : 0 < width / 8 = ground (arith, h) in
    let narrow : width / 8 ≤ 13 = ground (arith, h) in
    let low : height ≤ 212 = ground (arith, h) in
    let tall : 1 ≤ height = ground (arith, h) in
    let some_bytes : 1 * 1 ≤ width / 8 * height = mul-le-mul columns tall in
    let few : width / 8 * height ≤ 13 * 212 = mul-le-mul narrow low in
    (omega (arith, some_bytes), omega (arith, few))

module _ (level : Chip → ℕ → Bool) (deep_sleep : Bool) where
  abbrev g : Board Bench
  g = bench level

  pub init-Agrees :
      (p : Epd Bench)
      → p.board.chip.unheard ≡ 0
      → p.board.chip.shown ≡ none
      → Agrees [] (epd_init g deep_sleep p).1
  unfolding epd_init panel_reset panel shown
  init-Agrees p quiet blank =
      let b =
        init_output g deep_sleep cs p.board
        ▸ init_output g deep_sleep dc
        ▸ init_output g deep_sleep reset
        ▸ init_output g deep_sleep bs
        ▸ init_output g deep_sleep sck
        ▸ init_output g deep_sleep mosi in
      let q = panel_reset g deep_sleep (record p { board = b }) in
      let chip : (q.board.chip.unheard ≡ 0) × (q.board.chip.shown ≡ none) =
        elim (Bool-cases p.board.reset_level) [
          | inl y ↦ rw y (quiet, blank)
          | inr n ↦ rw n (quiet, blank)
        ] in
      let off = epd_off-IsAttentive level deep_sleep q (λ _. refl, chip.0) in
      (off.0, off.2.2 ∙ chip.1, tt)

  pub begin-Agrees :
      (h : List Event) (p : Epd Bench)
      → Agrees h p
      → Agrees (began (epd_begin g deep_sleep p).0 ∷ h) (epd_begin g deep_sleep p).1
  unfolding epd_begin shown panel opening image
  begin-Agrees h p (attentive, shows, _) = elim (Status-cases (epd_begin g deep_sleep p).0) [
    | inl ok ↦
        let (full, awake, c) = epd_begin-done level deep_sleep p ok in
        rw ok (ground (arith, full, awake, c, attentive, shows))
    | inr (e, bad) ↦
        let (still, (_, _, same)) =
          panel_begin-fail level deep_sleep false p attentive.1 (ap failed bad) in
        rw bad (still, same ∙ shows, tt)
  ]

  pub abort-Agrees :
      (h : List Event) (p : Epd Bench)
      → Agrees h p
      → Agrees (aborted ∷ h) (epd_off g deep_sleep p).1
  unfolding shown panel
  abort-Agrees h p (attentive, shows, _) =
      let off = epd_off-IsAttentive level deep_sleep p attentive in (off.0, off.2.2 ∙ shows, tt)

  pub region-Agrees :
      (frames x y width height : ℕ) (h : List Event) (p : Epd Bench)
      → Agrees h p
      → IsWindow x y width height
      → let r = epd_region g deep_sleep frames x y width height p in
        Agrees (opened_region x y width height r.0 ∷ h) r.1
  unfolding shown panel opening image
  region-Agrees frames x y width height h p (attentive, shows, _) window =
      let r = epd_region g deep_sleep frames x y width height p in
      elim (Status-cases r.0) [
        | inl ok ↦
            let (partial, awake, plane, count, c) =
              epd_region-done level deep_sleep frames x y width height p ok in
            let stored : Stored (width / 8 * height) [] r.1.board.chip =
              in_old (ap (λ c. c.asleep) c) (ap (λ c. c.selected) c) (omega arith)
                (ap (λ c. c.old_plane) c) in
            let size = window_size x y width height window in
            rw ok (
              (λ _. ap (λ c. c.asleep) c, ap (λ c. c.unheard) c ∙ attentive.1),
              ap (λ c. c.shown) c ∙ shows,
              (awake, refl, (partial, refl, size.0, size.1, plane, count, stored)),
            )
        | inr (e, bad) ↦
            let (still, (_, _, same)) =
              epd_region-fail level deep_sleep frames x y width height p attentive
                (ap failed bad) in
            rw bad (still, same ∙ shows, tt)
      ]
