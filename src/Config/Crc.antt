-- ===== src/Config/Crc.antt =====
-- `crc` of config_store.c: CRC16-CCITT-FALSE, with the length field read as zero for the container.
use greentags_lt213a_opendis.Prelude.{
  Bool, List, [], arith, bit_and, bit_xor, false, if◌then◌else◌, ltb, refl, suc, u16, zero, ℕ, ◌&&◌,
  ◌*◌, ◌<◌, ◌==◌, ◌^◌, ◌∷◌, ◌≡◌,
}

-- one round of the inner loop
crc_round : ℕ → ℕ
crc_round c = u16 (bit_xor (c * 2) (if bit_and c 0x8000 == 0 then 0 else 0x1021))

crc_rounds : ℕ → ℕ → ℕ
unfolding crc_round
crc_rounds zero c = c
crc_rounds (suc b) c = crc_rounds b (crc_round c)

-- The outer loop from index `i` on, with `c` so far.
crc_from : Bool → ℕ → ℕ → List ℕ → ℕ
unfolding crc_rounds
crc_from outer i c [] = c
crc_from outer i c (x ∷ xs) =
    crc_from outer (suc i)
      (crc_rounds 8 (bit_xor c (u16 ((if outer && ltb i 2 then 0 else x) * 256)))) xs

unfoldable pub crc : List ℕ → Bool → ℕ
unfolding crc_from
crc bytes outer = crc_from outer 0 0xffff bytes

-- The check value of CRC16-CCITT-FALSE, over "123456789".
crc_check_value :
    crc (0x31 ∷ 0x32 ∷ 0x33 ∷ 0x34 ∷ 0x35 ∷ 0x36 ∷ 0x37 ∷ 0x38 ∷ 0x39 ∷ []) false ≡ 0x29b1
unfolding crc
crc_check_value = refl

crc_round-lt : (c : ℕ) → crc_round c < 2 ^ 16
unfolding crc_round
crc_round-lt c = omega arith

crc_rounds-lt : (b c : ℕ) → c < 2 ^ 16 → crc_rounds b c < 2 ^ 16
unfolding crc_rounds
crc_rounds-lt zero c h = h
crc_rounds-lt (suc b) c h = crc_rounds-lt b (crc_round c) (crc_round-lt c)

crc_from-lt : (outer : Bool) (i c : ℕ) (xs : List ℕ) → c < 2 ^ 16 → crc_from outer i c xs < 2 ^ 16
unfolding crc_from
crc_from-lt outer i c [] h = h
crc_from-lt outer i c (x ∷ xs) h =
    let mixed = bit_xor c (u16 ((if outer && ltb i 2 then 0 else x) * 256)) in
    crc_from-lt outer (suc i) (crc_rounds 8 mixed) xs
      (crc_rounds-lt 7 (crc_round mixed) (crc_round-lt mixed))

pub crc-lt : (bytes : List ℕ) (outer : Bool) → crc bytes outer < 2 ^ 16
unfolding crc
crc-lt bytes outer = crc_from-lt outer 0 0xffff bytes (omega arith)
