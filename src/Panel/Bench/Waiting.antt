-- ===== src/Panel/Bench/Waiting.antt =====
-- `wait_ready` on the bench.
use greentags_lt213a_opendis.Prelude.{Bool, ap, arith, false, refl, suc, zero, ℕ, ◌+◌, ◌∙◌, ◌≡◌}
use greentags_lt213a_opendis.Panel.Gpio.{Board, cmd}
use greentags_lt213a_opendis.Panel.Ready.{wait_rounds, wait_ready}
use greentags_lt213a_opendis.Panel.Bench.{Bench, Chip, bench}
use greentags_lt213a_opendis.Panel.Bench.Transfer.{cmd-chip}

module _ (level : Chip → ℕ → Bool) where
  abbrev g : Board Bench
  g = bench level

  abbrev polled : Chip → Chip
  polled c = record c { selected = 113 }

  round-chip : (b : Bench) → b.chip.asleep ≡ false → (cmd g 113 b).chip ≡ polled b.chip
  round-chip b h = cmd-chip level 113 b ∙ rw h refl

  wait_rounds-chip :
      (n deadline : ℕ) (b : Bench)
      → b.chip.asleep ≡ false
      → (wait_rounds g (suc n) deadline b).1.chip ≡ polled b.chip
  unfolding wait_rounds
  wait_rounds-chip zero deadline b h = let r = round-chip b h in ground (arith, r)
  wait_rounds-chip (suc n) deadline b h =
      let r = round-chip b h in
      let awake : (cmd g 113 b).chip.asleep ≡ false = ap (λ c. c.asleep) r ∙ h in
      let rest = wait_rounds-chip n deadline (g.msleep 10 (cmd g 113 b)) awake in
      let same : polled (cmd g 113 b).chip ≡ polled b.chip = ap polled r in
      ground (arith, r, rest, same)

  pub wait_ready-chip :
      (b : Bench)
      → b.chip.asleep ≡ false
      → (wait_ready g b).1.chip ≡ record b.chip { selected = 113 }
  unfolding wait_ready
  wait_ready-chip b h = wait_rounds-chip 3000 (b.clock + 30000) b h
