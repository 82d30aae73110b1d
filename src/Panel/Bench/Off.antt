-- ===== src/Panel/Bench/Off.antt =====
-- `epd_off` of epd.c on the bench.
use greentags_lt213a_opendis.Prelude.{
  Bool, Bool-cases, Status-cases, [], ap, arith, false, if◌then◌else◌, inl, inr, true, ℕ, ◌∙◌, ◌∷◌,
  ◌≡◌,
}
use greentags_lt213a_opendis.Panel.Gpio.{Board}
use greentags_lt213a_opendis.Panel.Ready.{wait_ready}
use greentags_lt213a_opendis.Panel.Driver.{Epd, sleep_panel, power_off, epd_off}
use greentags_lt213a_opendis.Panel.Bench.{Bench, Chip, bench}
use greentags_lt213a_opendis.Panel.Bench.Waiting.{wait_ready-chip}
use greentags_lt213a_opendis.Panel.Bench.Sequences.{heard_all, out_all, out_all-roused}

-- When the driver takes the panel to be awake, it is; and no byte was sent to it in deep sleep.
abbrev pub IsAttentive : Epd Bench → Type 0
IsAttentive p = (p.awake ≡ true → p.board.chip.asleep ≡ false) × (p.board.chip.unheard ≡ 0)

-- Neither the planes nor the display change.
abbrev pub SameImages : Chip → Chip → Type 0
SameImages c d = (c.old_plane ≡ d.old_plane) × (c.new_plane ≡ d.new_plane) × (c.shown ≡ d.shown)

module _ (level : Chip → ℕ → Bool) (deep_sleep : Bool) where
  abbrev g : Board Bench
  g = bench level

  power_off-chip :
      (b : Bench)
      → b.chip.asleep ≡ false
      → (power_off g deep_sleep b).chip ≡ record b.chip { asleep = false; selected = 2 }
  unfolding out_all heard_all
  power_off-chip b h = out_all-roused level ((false, 80) ∷ (true, 247) ∷ (false, 2) ∷ []) b h

  sleep_panel-chip :
      (b : Bench)
      → b.chip.asleep ≡ false
      → (sleep_panel g deep_sleep b).chip ≡ record b.chip {
        asleep = deep_sleep;
        selected = if deep_sleep then 7 else b.chip.selected;
      }
  unfolding sleep_panel out_all heard_all
  sleep_panel-chip b h = elim (Bool-cases deep_sleep) [
    | inl y ↦ rw y (out_all-roused level ((false, 7) ∷ (true, 165) ∷ []) b h)
    | inr n ↦ rw n (ground (arith, h))
  ]

  pub epd_off-IsAttentive :
      (p : Epd Bench)
      → IsAttentive p
      → IsAttentive (epd_off g deep_sleep p).1
        × ((epd_off g deep_sleep p).1.partial ≡ false)
        × SameImages (epd_off g deep_sleep p).1.board.chip p.board.chip
  unfolding epd_off
  epd_off-IsAttentive p h = elim (Bool-cases p.awake) [
    | inr n ↦ ground (arith, n, h)
    | inl y ↦
        let b = power_off g deep_sleep p.board in
        let c = power_off-chip p.board (h.0 y) in
        let w = wait_ready-chip level b (ap (λ c. c.asleep) c) in
        let r = (wait_ready g b).1 in
        let s = sleep_panel-chip r (ap (λ c. c.asleep) w ∙ ap (λ c. c.asleep) c) in
        elim (Status-cases (wait_ready g b).0) [
          | inl ok ↦ ground (arith, ok, c, w, s, h)
          | inr (e, bad) ↦ ground (arith, bad, c, w, h)
        ]
  ]
