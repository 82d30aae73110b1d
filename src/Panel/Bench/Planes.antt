-- ===== src/Panel/Bench/Planes.antt =====
-- Image bytes that reach a plane of the controller.
use greentags_lt213a_opendis.Prelude.{
  Bool, List, [], ap, append-nil, append_assoc, false, map, refl, replicate, suc, sym, u8, zero, ℕ,
  ◌++◌, ◌∙◌, ◌∷◌, ◌≡◌,
}
use greentags_lt213a_opendis.Panel.Gpio.{Board, cs, ◌▸◌, gpio_pin_set_dt, shift_all}
use greentags_lt213a_opendis.Panel.Bench.{Bench, Chip, bench}
use greentags_lt213a_opendis.Panel.Bench.Transfer.{fed, shift_all-Takes, selecting}

-- A controller that stores data bytes in one of its planes.
abbrev pub storing_old : List ℕ → Chip → Chip
storing_old plane c = record c { asleep = false; selected = 16; old_plane = plane }

abbrev pub storing_new : List ℕ → Chip → Chip
storing_new plane c = record c { asleep = false; selected = 19; new_plane = plane }

pub map-replicate : (f : ℕ → ℕ) (n v : ℕ) → map f (replicate n v) ≡ replicate n (f v)
map-replicate f zero v = refl
map-replicate f (suc n) v = ap (λ t. f v ∷ t) (map-replicate f n v)

pub fed-old :
    (vs plane : List ℕ) (c : Chip)
    → fed vs (storing_old plane c) ≡ storing_old (plane ++ map u8 vs) c
unfolding fed
fed-old [] plane c = ap (λ t. storing_old t c) (sym (append-nil plane))
fed-old (v ∷ vs) plane c =
    fed-old vs (plane ++ u8 v ∷ []) c
    ∙ ap (λ t. storing_old t c) (append_assoc plane (u8 v ∷ []) (map u8 vs))

pub fed-new :
    (vs plane : List ℕ) (c : Chip)
    → fed vs (storing_new plane c) ≡ storing_new (plane ++ map u8 vs) c
unfolding fed
fed-new [] plane c = ap (λ t. storing_new t c) (sym (append-nil plane))
fed-new (v ∷ vs) plane c =
    fed-new vs (plane ++ u8 v ∷ []) c
    ∙ ap (λ t. storing_new t c) (append_assoc plane (u8 v ∷ []) (map u8 vs))

module _ (level : Chip → ℕ → Bool) where
  abbrev g : Board Bench
  g = bench level

  -- The loop over bytes with CS low, as `panel_begin` and `epd_write` have it.
  pub stored :
      (vs : List ℕ) (b : Bench)
      → (shift_all g vs (selecting b) ▸ gpio_pin_set_dt g cs false).chip ≡ fed vs b.chip
  stored vs b =
      let (b', e, c) = shift_all-Takes level vs b in
      ap (λ t. (gpio_pin_set_dt g cs false t).chip) e ∙ c
