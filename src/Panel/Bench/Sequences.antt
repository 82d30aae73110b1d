-- ===== src/Panel/Bench/Sequences.antt =====
-- The fixed sequences of epd.c on the bench: what the controller gets from them.
use greentags_lt213a_opendis.Prelude.{
  Bool, List, [], ap, arith, false, refl, true, u8, ℕ, ◌∙◌, ◌∷◌, ◌≡◌,
}
use greentags_lt213a_opendis.Panel.Gpio.{Board, byte_out}
use greentags_lt213a_opendis.Panel.Bench.{Bench, Chip, bench, heard}
use greentags_lt213a_opendis.Panel.Bench.Transfer.{cmd-chip, datum-chip}

-- Bytes with the level of DC.
unfoldable pub heard_all : List (Bool × ℕ) → Chip → Chip
heard_all [] c = c
heard_all ((is_data, v) ∷ items) c = heard_all items (heard is_data (u8 v) c)

abbrev pub roused : Chip → Chip
roused c = record c { asleep = false }

module _ (level : Chip → ℕ → Bool) where
  abbrev g : Board Bench
  g = bench level

  unfoldable pub out_all : List (Bool × ℕ) → Bench → Bench
  out_all [] b = b
  out_all ((is_data, v) ∷ items) b = out_all items (byte_out g v is_data b)

  out_all-chip :
      (items : List (Bool × ℕ)) (b : Bench) → (out_all items b).chip ≡ heard_all items b.chip
  unfolding out_all heard_all
  out_all-chip [] b = refl
  out_all-chip ((true, v) ∷ items) b =
      out_all-chip items (byte_out g v true b) ∙ ap (heard_all items) (datum-chip level v b)
  out_all-chip ((false, v) ∷ items) b =
      out_all-chip items (byte_out g v false b) ∙ ap (heard_all items) (cmd-chip level v b)

  -- A controller that is awake can be taken to be so by computation.
  pub out_all-roused :
      (items : List (Bool × ℕ)) (b : Bench)
      → b.chip.asleep ≡ false
      → (out_all items b).chip ≡ heard_all items (roused b.chip)
  out_all-roused items b h =
      let e : b.chip ≡ roused b.chip = ground (arith, h) in
      out_all-chip items b ∙ ap (heard_all items) e
