-- ===== src/Panel/Bench/Writing.antt =====
-- `epd_write` of epd.c on the bench: where the image bytes go.
use greentags_lt213a_opendis.Prelude.{
  Bool, Bool-cases, List, [], ap, ap₂, arith, false, if◌then◌else◌, inl, inr, length, refl, suc,
  true, u32, u8, ℕ, ◌+◌, ◌<◌, ◌==◌, ◌^◌, ◌∙◌, ◌∷◌, ◌≡◌,
}
use greentags_lt213a_opendis.Panel.Gpio.{Board, cs, gpio_pin_set_dt, cmd, shift_out, shift_all}
use greentags_lt213a_opendis.Panel.Driver.{Epd, switch_plane, write_bytes, epd_write}
use greentags_lt213a_opendis.Panel.Waveform.{invert}
use greentags_lt213a_opendis.Panel.Bench.{Bench, Chip, bench, ordered, given}
use greentags_lt213a_opendis.Panel.Bench.Transfer.{fed, selecting, cmd-chip, Takes, shift_out-Takes}
use greentags_lt213a_opendis.Panel.Bench.Planes.{stored}

-- One byte of a region, when `k` are written and a plane has `n`.
abbrev pub one_byte : ℕ → ℕ → ℕ → Chip → Chip
one_byte n k v c = given (invert v) (if k == n then ordered 19 c else c)

unfoldable pub region_bytes_given : ℕ → ℕ → List ℕ → Chip → Chip
region_bytes_given n k [] c = c
region_bytes_given n k (v ∷ vs) c = region_bytes_given n (suc k) vs (one_byte n k v c)

-- The driver between two bytes of a region.
abbrev between : Bool → ℕ → ℕ → Bench → Epd Bench
between awake n k b = record {
  partial = true;
  awake = awake;
  plane_bytes = n;
  plane_written = k;
  board = selecting b;
}

-- A whole image, or none.
abbrev whole : Bool → ℕ → ℕ → Bench → Epd Bench
whole awake n k b = record {
  partial = false;
  awake = awake;
  plane_bytes = n;
  plane_written = k;
  board = b;
}

module _ (level : Chip → ℕ → Bool) (deep_sleep : Bool) where
  abbrev g : Board Bench
  g = bench level

  write_whole :
      (vs : List ℕ) (awake : Bool) (n k : ℕ) (b : Bench)
      → write_bytes g deep_sleep vs (whole awake n k b) ≡ whole awake n k (shift_all g vs b)
  unfolding write_bytes shift_all
  write_whole [] awake n k b = refl
  write_whole (v ∷ vs) awake n k b = write_whole vs awake n k (shift_out g v b)

  -- Bytes of a whole image.
  pub epd_write-whole :
      (vs : List ℕ) (p : Epd Bench)
      → p.partial ≡ false
      → let q = (epd_write g deep_sleep vs p).1 in
        (q.partial ≡ false) × (q.awake ≡ p.awake) × (q.board.chip ≡ fed vs p.board.chip)
  unfolding epd_write fed
  epd_write-whole [] p h = (h, refl, refl)
  epd_write-whole (v ∷ vs) p h =
      let e : write_bytes g deep_sleep (v ∷ vs) (record p { board = selecting p.board })
          ≡ whole p.awake p.plane_bytes p.plane_written (shift_all g (v ∷ vs) (selecting p.board)) =
        ap
          (λ t.
            write_bytes g deep_sleep (v ∷ vs) (record p { partial = t; board = selecting p.board }))
          h
        ∙ write_whole (v ∷ vs) p.awake p.plane_bytes p.plane_written (selecting p.board) in
      (
        ap (λ t. t.partial) e,
        ap (λ t. t.awake) e,
        ap (λ t. t.board.chip) e ∙ stored level (v ∷ vs) p.board,
      )

  -- The byte before which the planes are switched, or another one.
  shift-Takes :
      (n k v : ℕ) (b : Bench)
      → Takes level
          (shift_out g
            (invert v)
            (if k == n then switch_plane g deep_sleep (selecting b) else selecting b))
          (one_byte n k v b.chip)
  unfolding switch_plane
  shift-Takes n k v b =
      let s = cmd g 19 (gpio_pin_set_dt g cs false (selecting b)) in
      let c : s.chip ≡ ordered 19 b.chip =
        cmd-chip level 19 (gpio_pin_set_dt g cs false (selecting b)) in
      let byte_fits : u8 (invert v) ≡ invert v = omega arith in
      let (b₁, e₁, c₁) = shift_out-Takes level (invert v) s in
      let (b₂, e₂, c₂) = shift_out-Takes level (invert v) b in
      elim (Bool-cases (k == n)) [
        | inl y ↦ rw y (b₁, e₁, c₁ ∙ ap₂ given byte_fits c)
        | inr other ↦ rw other (b₂, e₂, c₂ ∙ ap (λ t. given t b.chip) byte_fits)
      ]

  write_region :
      (vs : List ℕ) (awake : Bool) (n k : ℕ) (b : Bench)
      → k + length vs < 2 ^ 32
      → (b' : Bench) × (write_bytes g deep_sleep vs (between awake n k b)
          ≡ between awake n (k + length vs) b')
        × (b'.chip ≡ region_bytes_given n k vs b.chip)
  unfolding write_bytes region_bytes_given
  write_region [] awake n k b small = (b, ap (λ t. between awake n t b) (omega arith), refl)
  write_region (v ∷ vs) awake n k b small =
      let (b₁, e₁, c₁) = shift-Takes n k v b in
      let (b₂, e₂, c₂) = write_region vs awake n (suc k) b₁ (omega arith) in
      let counted : u32 (k + 1) ≡ suc k = omega arith in
      let total : suc k + length vs ≡ k + suc (length vs) = omega arith in
      (
        b₂,
        ap₂
              (λ c board. write_bytes g deep_sleep vs (record {
                partial = true;
                awake = awake;
                plane_bytes = n;
                plane_written = c;
                board = board;
              }))
              counted e₁
            ∙ e₂
            ∙ ap (λ t. between awake n t b₂) total,
        c₂ ∙ ap (region_bytes_given n (suc k) vs) c₁,
      )

  -- Bytes of a region.
  pub epd_write-region :
      (vs : List ℕ) (p : Epd Bench)
      → p.partial ≡ true
      → p.plane_written + length vs < 2 ^ 32
      → let q = (epd_write g deep_sleep vs p).1 in
        (q.partial ≡ true)
        × (q.awake ≡ p.awake)
        × (q.plane_bytes ≡ p.plane_bytes)
        × (q.plane_written ≡ p.plane_written + length vs)
        × (q.board.chip ≡ region_bytes_given p.plane_bytes p.plane_written vs p.board.chip)
  unfolding epd_write region_bytes_given
  epd_write-region [] p h small = (h, refl, refl, omega arith, refl)
  epd_write-region (v ∷ vs) p h small =
      let (b, e, c) = write_region (v ∷ vs) p.awake p.plane_bytes p.plane_written p.board small in
      let start : write_bytes g deep_sleep (v ∷ vs) (record p { board = selecting p.board })
          ≡ between p.awake p.plane_bytes (p.plane_written + length (v ∷ vs)) b =
        ap
          (λ t.
            write_bytes g deep_sleep (v ∷ vs) (record p { partial = t; board = selecting p.board }))
          h
        ∙ e in
      (
        ap (λ t. t.partial) start,
        ap (λ t. t.awake) start,
        ap (λ t. t.plane_bytes) start,
        ap (λ t. t.plane_written) start,
        ap (λ t. t.board.chip) start ∙ c,
      )
