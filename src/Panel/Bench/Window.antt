-- ===== src/Panel/Bench/Window.antt =====
-- `epd_region` of epd.c on the bench.
use greentags_lt213a_opendis.Prelude.{
  Bool, Bool-cases, List, [], ap, arith, done, failed, false, if◌then◌else◌, inl, inr, length, refl,
  suc, sym, true, u8, ℕ, ◌*◌, ◌+◌, ◌-◌, ◌/◌, ◌<◌, ◌==◌, ◌^◌, ◌∙◌, ◌∷◌, ◌≡◌, ◌≤◌,
}
use greentags_lt213a_opendis.Panel.Gpio.{Board, cmd}
use greentags_lt213a_opendis.Panel.Driver.{
  Epd, configure, panel_begin, send_lut, send_luts, vcom_setting, send_window, epd_region,
}
use greentags_lt213a_opendis.Panel.Waveform.{lut_from, transitions, bad_region}
use greentags_lt213a_opendis.Panel.Bench.{Bench, Chip, bench}
use greentags_lt213a_opendis.Panel.Bench.Transfer.{fed, cmd-chip, data_all-chip}
use greentags_lt213a_opendis.Panel.Bench.Sequences.{heard_all, out_all, out_all-roused}
use greentags_lt213a_opendis.Panel.Bench.Planes.{storing_old}
use greentags_lt213a_opendis.Panel.Bench.Off.{IsAttentive, SameImages}
use greentags_lt213a_opendis.Panel.Bench.Opening.{
  awaited, awaited-chip, wake-flags, panel_begin-fail,
}

-- A controller that takes the arguments of another order.
abbrev pub taking : ℕ → Chip → Chip
taking order c = record c { asleep = false; selected = order }

-- An order that is neither deep sleep nor one of the planes.
abbrev IsSetting : ℕ → Type 0
IsSetting order =
    ((order == 7) ≡ false)
    × ((order == 16) ≡ false)
    × ((order == 18) ≡ false)
    × ((order == 19) ≡ false)

fed-setting :
    (vs : List ℕ) (order : ℕ) (c : Chip)
    → IsSetting order
    → fed vs (taking order c) ≡ taking order c
unfolding fed
fed-setting [] order c h = refl
fed-setting (v ∷ vs) order c h = rw (h.0, h.1, h.3) (fed-setting vs order c h)

module _ (level : Chip → ℕ → Bool) (deep_sleep : Bool) where
  abbrev g : Board Bench
  g = bench level

  send_lut-chip :
      (lut transition frames : ℕ) (b : Bench)
      → lut < 5
      → b.chip.asleep ≡ false
      → (send_lut g deep_sleep lut transition frames b).chip ≡ taking (32 + lut) b.chip
  send_lut-chip lut transition frames b few awake =
      let values = lut_from transition frames 0 (if lut == 0 then 44 else 42) in
      let whole : u8 (u8 (32 + lut)) ≡ 32 + lut = omega arith in
      let h : IsSetting (32 + lut) = ground arith in
      let first : (cmd g (u8 (32 + lut)) b).chip ≡ taking (32 + lut) b.chip =
        cmd-chip level (u8 (32 + lut)) b ∙ rw (whole, awake, h.1, h.2, h.3) refl in
      data_all-chip level values (cmd g (u8 (32 + lut)) b)
      ∙ ap (fed values) first
      ∙ fed-setting values (32 + lut) b.chip h

  send_luts-chip :
      (frames lut : ℕ) (transitions : List ℕ) (order : ℕ) (b : Bench)
      → lut + length transitions ≤ 5
      → b.chip ≡ taking order b.chip
      → (last : ℕ) × ((send_luts g deep_sleep frames lut transitions b).chip ≡ taking last b.chip)
  unfolding send_luts
  send_luts-chip frames lut [] order b few h = (order, h)
  send_luts-chip frames lut (t ∷ ts) order b few h =
      let b' = send_lut g deep_sleep lut t frames b in
      let e = send_lut-chip lut t frames b (omega arith) (ap (λ c. c.asleep) h) in
      let settled : b'.chip ≡ taking (32 + lut) b'.chip = e ∙ ap (taking (32 + lut)) (sym e) in
      let (last, rest) = send_luts-chip frames (suc lut) ts (32 + lut) b' (omega arith) settled in
      (last, rest ∙ ap (taking last) e)

  vcom_setting-chip :
      (b : Bench) → b.chip.asleep ≡ false → (vcom_setting g deep_sleep b).chip ≡ taking 80 b.chip
  unfolding out_all heard_all
  vcom_setting-chip b h =
      out_all-roused level ((false, 130) ∷ (true, 8) ∷ (false, 80) ∷ (true, 71) ∷ []) b h

  send_window-chip :
      (x y w h : ℕ) (b : Bench)
      → b.chip.asleep ≡ false
      → (send_window g deep_sleep x y w h b).chip ≡ storing_old [] b.chip
  unfolding send_window out_all heard_all
  send_window-chip x y w h b awake =
      let items : List (Bool × ℕ) =
        (false, 145)
        ∷ (false, 144)
        ∷ (true, u8 x)
        ∷ (true, u8 (x + w - 1))
        ∷ (true, u8 (y / 2 ^ 8))
        ∷ (true, u8 y)
        ∷ (true, u8 ((y + h - 1) / 2 ^ 8))
        ∷ (true, u8 (y + h - 1))
        ∷ (true, 40)
        ∷ (false, 16)
        ∷ [] in
      out_all-roused level items b awake

  settings-chip :
      (b : Bench) → b.chip.asleep ≡ false → (configure g deep_sleep true b).chip ≡ taking 97 b.chip
  unfolding configure out_all heard_all
  settings-chip b h =
      let items : List (Bool × ℕ) =
        (false, 0)
        ∷ (true, 191)
        ∷ (true, 13)
        ∷ (false, 48)
        ∷ (true, 60)
        ∷ (false, 97)
        ∷ (true, 104)
        ∷ (true, 0)
        ∷ (true, 212)
        ∷ [] in
      out_all-roused level items b h

  -- `panel_begin` for a region.
  begin_region-done :
      (p : Epd Bench)
      → failed (panel_begin g deep_sleep true p).0 ≡ false
      → ((panel_begin g deep_sleep true p).1.awake ≡ true)
        × ((panel_begin g deep_sleep true p).1.board.chip ≡ taking 97 p.board.chip)
  unfolding panel_begin
  begin_region-done p ok =
      let c = awaited-chip level deep_sleep true p in
      let flags = wake-flags level deep_sleep true p in
      let b = (awaited level deep_sleep true p).1 in
      let r = settings-chip b (ap (λ c. c.asleep) c) in
      let last : taking 97 b.chip ≡ taking 97 p.board.chip = ap (taking 97) c in
      elim (Bool-cases (failed (awaited level deep_sleep true p).0)) [
        | inr n ↦ rw n (flags.1, r ∙ last)
        | inl y ↦ absurd (ground (arith, y, ok))
      ]

  -- The controller stores the old plane of the window.
  pub epd_region-done :
      (frames x y w h : ℕ) (p : Epd Bench)
      → (epd_region g deep_sleep frames x y w h p).0 ≡ done
      → let q = (epd_region g deep_sleep frames x y w h p).1 in
        (q.partial ≡ true)
        × (q.awake ≡ true)
        × (q.plane_bytes ≡ w / 8 * h)
        × (q.plane_written ≡ 0)
        × (q.board.chip ≡ storing_old [] p.board.chip)
  unfolding epd_region
  epd_region-done frames x y w h p ok =
      let accepted : bad_region x y w h ≡ false = ground (arith, ok) in
      let begun : failed (panel_begin g deep_sleep true p).0 ≡ false =
        ground (arith, ok, accepted) in
      let (awake, c) = begin_region-done p begun in
      let b = (panel_begin g deep_sleep true p).1.board in
      let e = vcom_setting-chip b (ap (λ c. c.asleep) c) in
      let (last, luts) =
        send_luts-chip frames 0 transitions 80 (vcom_setting g deep_sleep b) (omega arith)
          (e ∙ ap (taking 80) (sym e)) in
      let b' = send_luts g deep_sleep frames 0 transitions (vcom_setting g deep_sleep b) in
      let window = send_window-chip x y w h b' (ap (λ c. c.asleep) luts) in
      let whole : storing_old [] b'.chip ≡ storing_old [] p.board.chip =
        ap (storing_old []) (luts ∙ ap (taking last) (e ∙ ap (taking 80) c)) in
      rw (accepted, begun) (refl, awake, refl, refl, window ∙ whole)

  pub epd_region-fail :
      (frames x y w h : ℕ) (p : Epd Bench)
      → IsAttentive p
      → failed (epd_region g deep_sleep frames x y w h p).0 ≡ true
      → IsAttentive (epd_region g deep_sleep frames x y w h p).1
        × SameImages (epd_region g deep_sleep frames x y w h p).1.board.chip p.board.chip
  unfolding epd_region
  epd_region-fail frames x y w h p attentive bad =
      let r = panel_begin-fail level deep_sleep true p attentive.1 in
      ground (arith, bad, attentive, r)
