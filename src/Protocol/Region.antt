-- ===== src/Protocol/Region.antt =====
-- The windows of `start_region` of protocol.c.
use greentags_lt213a_opendis.Prelude.{
  Bool, all_below, all_below_sound, arith, bit_and, bit_or, false, refl, true, ℕ, ◌!=◌, ◌%◌, ◌&&◌,
  ◌*◌, ◌+◌, ◌/◌, ◌<◌, ◌==◌, ◌||◌, ◌≡◌, ◌≤◌,
}
use greentags_lt213a_opendis.Protocol.Base.{System, World, epd_width, epd_height}
use greentags_lt213a_opendis.Protocol.Transfer.{start_region, outside}

aligned : ℕ → ℕ → Bool
aligned x width = bit_and (bit_or x width) 7 != 0 || x % 8 == 0 && width % 8 == 0

aligned_everywhere : all_below 104 (λ x. all_below 105 (aligned x)) ≡ true
unfolding aligned
aligned_everywhere = refl

aligned_lem :
    (x width : ℕ)
    → x < 104
    → width ≤ 104
    → bit_and (bit_or x width) 7 ≡ 0
    → (x % 8 ≡ 0) × (width % 8 ≡ 0)
unfolding aligned
aligned_lem x width left narrow bits =
    let h =
      all_below_sound 105 (aligned x) width
        (all_below_sound 104 (λ x. all_below 105 (aligned x)) x aligned_everywhere left)
        (omega arith) in
    ground (arith, h)

-- Whole bytes of the panel.
abbrev pub IsWindow : ℕ → ℕ → ℕ → ℕ → Type 0
IsWindow x y width height =
    (0 < width)
    × (0 < height)
    × (x + width ≤ epd_width)
    × (y + height ≤ epd_height)
    × (x % 8 ≡ 0)
    × (width % 8 ≡ 0)

pub inside-IsWindow :
    (x y width height : ℕ)
    → outside x y width height ≡ false
    → bit_and (bit_or x width) 7 ≡ 0
    → IsWindow x y width height
unfolding outside
inside-IsWindow x y width height inside bits =
    let whole = aligned_lem x width (ground (arith)) (ground (arith)) bits in ground (arith, whole)

module _ {Z F W : Type 0} (sys : System Z F W) where
  -- A partial update that start_region accepts names the etag of the image on the display, which is
  -- not zero, and a window of whole bytes that is not empty and lies inside the panel; the transfer
  -- is active and expects two planes of that window.
  pub start_region-IsWindow :
      (old x y width height : ℕ) (w : World Z F W)
      → (start_region sys old x y width height w).0 ≡ 0
      → let w' = (start_region sys old x y width height w).1 in
        (¬ (old ≡ 0))
        × (old ≡ w.proto.displayed_etag)
        × IsWindow x y width height
        × (w'.proto.active ≡ true)
        × (w'.proto.expected ≡ width / 8 * height * 2)
  unfolding start_region
  start_region-IsWindow old x y width height w ok = ground (arith, inside-IsWindow x y width height)
