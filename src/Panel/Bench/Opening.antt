-- ===== src/Panel/Bench/Opening.antt =====
-- `epd_begin` of epd.c on the bench.
use greentags_lt213a_opendis.Prelude.{
  Bool, Bool-cases, List, Status, Status-cases, [], ap, arith, done, failed, false, inl, inr, map,
  refl, true, u8, ℕ, ◌∙◌, ◌∷◌, ◌≡◌,
}
use greentags_lt213a_opendis.Panel.Gpio.{Board, bs, gpio_pin_set_dt}
use greentags_lt213a_opendis.Panel.Ready.{wait_ready}
use greentags_lt213a_opendis.Panel.Driver.{
  old_plane, configure, wake, panel_begin, epd_begin, Epd, panel_reset,
}
use greentags_lt213a_opendis.Panel.Waveform.{white_plane}
use greentags_lt213a_opendis.Panel.Bench.{Bench, Chip, bench, ordered}
use greentags_lt213a_opendis.Protocol.Base.{frame_bytes}
use greentags_lt213a_opendis.Panel.Bench.Planes.{storing_old, stored, fed-old, map-replicate}
use greentags_lt213a_opendis.Panel.Bench.Transfer.{fed, cmd-chip}
use greentags_lt213a_opendis.Panel.Bench.Waiting.{wait_ready-chip}
use greentags_lt213a_opendis.Panel.Bench.Sequences.{heard_all, out_all, out_all-roused}
use greentags_lt213a_opendis.Panel.Bench.Off.{IsAttentive, SameImages, epd_off-IsAttentive}

map-white_plane : map u8 white_plane ≡ white_plane
unfolding white_plane
map-white_plane = map-replicate u8 frame_bytes 255

-- After `epd_begin` the controller stores the new plane, over an old plane that is white.
abbrev pub opened_full : Chip → Chip
opened_full c = record c { asleep = false; selected = 19; old_plane = white_plane; new_plane = [] }

-- A controller that was polled.
abbrev pub waiting : Chip → Chip
waiting c = record c { asleep = false; selected = 113 }

module _ (level : Chip → ℕ → Bool) (deep_sleep : Bool) where
  abbrev g : Board Bench
  g = bench level

  pub wake-chip :
      (region : Bool) (p : Epd Bench)
      → (wake g deep_sleep region p).board.chip
        ≡ record p.board.chip { asleep = false; selected = 4 }
  unfolding wake panel_reset out_all heard_all
  wake-chip true p =
      out_all-roused level
        ((false, 1)
          ∷ (true, 3)
          ∷ (true, 2)
          ∷ (true, 33)
          ∷ (true, 33)
          ∷ (false, 6)
          ∷ (true, 23)
          ∷ (true, 23)
          ∷ (true, 23)
          ∷ (false, 4)
          ∷ [])
        (panel_reset g deep_sleep (record p { board = gpio_pin_set_dt g bs false p.board })).board
        refl
  wake-chip false p =
      out_all-roused level ((false, 6) ∷ (true, 23) ∷ (true, 23) ∷ (true, 23) ∷ (false, 4) ∷ [])
        (panel_reset g deep_sleep (record p { board = gpio_pin_set_dt g bs false p.board })).board
        refl

  old_plane-chip :
      (b : Bench) → b.chip.asleep ≡ false → (old_plane g deep_sleep b).chip ≡ opened_full b.chip
  unfolding old_plane out_all heard_all
  old_plane-chip b h =
      let ready = out_all level ((false, 80) ∷ (true, 151) ∷ (false, 16) ∷ []) b in
      let start = out_all-roused level ((false, 80) ∷ (true, 151) ∷ (false, 16) ∷ []) b h in
      let first : ready.chip ≡ storing_old [] b.chip = start in
      let filled =
        stored level white_plane ready
        ∙ ap (fed white_plane) first
        ∙ fed-old white_plane [] b.chip
        ∙ ap (λ t. storing_old t b.chip) map-white_plane in
      cmd-chip level 19 _ ∙ ap (ordered 19) filled

  configure-chip :
      (b : Bench)
      → b.chip.asleep ≡ false
      → (configure g deep_sleep false b).chip ≡ opened_full b.chip
  unfolding configure out_all heard_all
  configure-chip b h =
      let items : List (Bool × ℕ) =
        (false, 0)
        ∷ (true, 31)
        ∷ (true, 13)
        ∷ (false, 97)
        ∷ (true, 104)
        ∷ (true, 0)
        ∷ (true, 212)
        ∷ [] in
      let settings = out_all-roused level items b h in
      old_plane-chip (out_all level items b) (ap (λ c. c.asleep) settings) ∙ ap opened_full settings

  -- `panel_begin` up to the end of its wait leaves a controller that is awake.
  abbrev pub awaited : Bool → Epd Bench → Status × Bench
  awaited region p = wait_ready g (wake g deep_sleep region p).board

  pub awaited-chip :
      (region : Bool) (p : Epd Bench) → (awaited region p).1.chip ≡ waiting p.board.chip
  awaited-chip region p =
      let c = wake-chip region p in
      let asleep = ap (λ c. c.asleep) c in
      let w = wait_ready-chip level (wake g deep_sleep region p).board asleep in
      ground (arith, c, w)

  pub wake-flags :
      (region : Bool) (p : Epd Bench)
      → ((wake g deep_sleep region p).partial ≡ region)
        × ((wake g deep_sleep region p).awake ≡ true)
  unfolding wake panel_reset
  wake-flags region p = (refl, refl)

  pub panel_begin-fail :
      (region : Bool) (p : Epd Bench)
      → p.board.chip.unheard ≡ 0
      → failed (panel_begin g deep_sleep region p).0 ≡ true
      → IsAttentive (panel_begin g deep_sleep region p).1
        × SameImages (panel_begin g deep_sleep region p).1.board.chip p.board.chip
  unfolding panel_begin
  panel_begin-fail region p quiet bad =
      let c = awaited-chip region p in
      let q : Epd Bench = record (wake g deep_sleep region p) { board = (awaited region p).1 } in
      let r = epd_off-IsAttentive level deep_sleep q in
      let attentive : IsAttentive q = (λ _. ap (λ c. c.asleep) c, ap (λ c. c.unheard) c ∙ quiet) in
      let off = r attentive in
      elim (Bool-cases (failed (awaited region p).0)) [
        | inl y ↦ rw y (off.0, ground (arith, off, c))
        | inr n ↦ absurd (ground (arith, n, bad))
      ]

  pub epd_begin-done :
      (p : Epd Bench)
      → (epd_begin g deep_sleep p).0 ≡ done
      → ((epd_begin g deep_sleep p).1.partial ≡ false)
        × ((epd_begin g deep_sleep p).1.awake ≡ true)
        × ((epd_begin g deep_sleep p).1.board.chip ≡ opened_full p.board.chip)
  unfolding epd_begin panel_begin
  epd_begin-done p ok =
      let c = awaited-chip false p in
      let r = configure-chip (awaited false p).1 (ap (λ c. c.asleep) c) in
      let flags = wake-flags false p in
      let last : opened_full (awaited false p).1.chip ≡ opened_full p.board.chip =
        ap opened_full c in
      elim (Status-cases (awaited false p).0) [
        | inl y ↦ rw y (flags.0, flags.1, r ∙ last)
        | inr (e, bad) ↦ absurd (ground (arith, bad, ok))
      ]
