-- ===== src/Panel/Bench/Finish.antt =====
-- `epd_finish` of epd.c on the bench.
use greentags_lt213a_opendis.Prelude.{
  Bool, [], ap, arith, false, if◌then◌else◌, some, true, ℕ, ◌&&◌, ◌==◌, ◌∙◌, ◌∷◌, ◌≡◌,
}
use greentags_lt213a_opendis.Panel.Gpio.{Board, cmd}
use greentags_lt213a_opendis.Panel.Ready.{wait_ready}
use greentags_lt213a_opendis.Panel.Driver.{Epd, full_waveform, epd_finish}
use greentags_lt213a_opendis.Panel.Bench.{Bench, Chip, bench, ordered}
use greentags_lt213a_opendis.Panel.Bench.Transfer.{cmd-chip}
use greentags_lt213a_opendis.Panel.Bench.Waiting.{wait_ready-chip}
use greentags_lt213a_opendis.Panel.Bench.Sequences.{heard_all, out_all, out_all-roused}
use greentags_lt213a_opendis.Panel.Bench.Off.{IsAttentive, epd_off-IsAttentive}

-- A controller that was refreshed and polled.
abbrev refreshed : Chip → Chip
refreshed c = record c { asleep = false; selected = 113; shown = some (c.old_plane, c.new_plane) }

module _ (level : Chip → ℕ → Bool) (deep_sleep : Bool) where
  abbrev g : Board Bench
  g = bench level

  waveform-chip :
      (wanted : Bool) (b : Bench)
      → b.chip.asleep ≡ false
      → (if wanted then full_waveform g deep_sleep b else b).chip
        ≡ record b.chip { asleep = false; selected = if wanted then 80 else b.chip.selected }
  unfolding out_all heard_all
  waveform-chip true b h =
      out_all-roused level ((false, 0) ∷ (true, 31) ∷ (true, 13) ∷ (false, 80) ∷ (true, 151) ∷ []) b
        h
  waveform-chip false b h = ground (arith, h)

  refresh-chip :
      (b : Bench)
      → b.chip.asleep ≡ false
      → (wait_ready g (g.msleep 100 (cmd g 18 b))).1.chip ≡ refreshed b.chip
  refresh-chip b h =
      let c : (cmd g 18 b).chip ≡ ordered 18 b.chip = cmd-chip level 18 b in
      let awake : (cmd g 18 b).chip.asleep ≡ false = ground (arith, c, h) in
      let w = wait_ready-chip level (g.msleep 100 (cmd g 18 b)) awake in ground (arith, w, c, h)

  leave-chip :
      (region : Bool) (b : Bench)
      → b.chip.asleep ≡ false
      → (if region then cmd g 146 b else b).chip
        ≡ record b.chip { asleep = false; selected = if region then 146 else b.chip.selected }
  leave-chip true b h = cmd-chip level 146 b ∙ ground (arith, h)
  leave-chip false b h = ground (arith, h)

  -- The refresh shows what the planes hold, whatever the panel says afterwards.
  pub epd_finish-shows :
      (mode : ℕ) (p : Epd Bench)
      → IsAttentive p
      → p.awake ≡ true
      → IsAttentive (epd_finish g deep_sleep mode p).1
        × ((epd_finish g deep_sleep mode p).1.board.chip.shown
            ≡ some (p.board.chip.old_plane, p.board.chip.new_plane))
  unfolding epd_finish
  epd_finish-shows mode p h awake =
      let wanted = p.partial && mode == 0 in
      let b = if wanted then full_waveform g deep_sleep p.board else p.board in
      let c = waveform-chip wanted p.board (h.0 awake) in
      let r = refresh-chip b (ap (λ c. c.asleep) c) in
      let b' = (wait_ready g (g.msleep 100 (cmd g 18 b))).1 in
      let l = leave-chip p.partial b' (ap (λ c. c.asleep) r) in
      let q : Epd Bench = record p { board = if p.partial then cmd g 146 b' else b' } in
      let off = epd_off-IsAttentive level deep_sleep q in
      let attentive : IsAttentive q = ground (arith, h, c, r, l) in
      let rest = off attentive in
      let shows : q.board.chip.shown ≡ some (p.board.chip.old_plane, p.board.chip.new_plane) =
        ap (λ c. c.shown) l ∙ ap (λ c. c.shown) r ∙ ap (λ c. some (c.old_plane, c.new_plane)) c in
      (rest.0, rest.2.2 ∙ shows)
