-- ===== src/Protocol/Wire.antt =====
-- `le` and `be` of protocol.c: numbers on the wire.
use greentags_lt213a_opendis.Prelude.{List, [], bit_or, refl, suc, u32, zero, ℕ, ◌*◌, ◌∷◌, ◌≡◌}

-- The first `n` bytes, the least significant first: v |= p[i] << 8 * i.
unfoldable pub le : ℕ → List ℕ → ℕ
le zero p = 0
le (suc n) [] = 0
le (suc n) (x ∷ p) = bit_or x (u32 (le n p * 256))

be_from : ℕ → ℕ → List ℕ → ℕ
be_from v zero p = v
be_from v (suc n) [] = v
be_from v (suc n) (x ∷ p) = be_from (bit_or (u32 (v * 256)) x) n p

-- The first `n` bytes, the most significant first: v = v << 8 | p[i].
unfoldable pub be : ℕ → List ℕ → ℕ
unfolding be_from
be n p = be_from 0 n p

le_check : le 4 (0xc4 ∷ 0x0a ∷ 0 ∷ 0 ∷ 7 ∷ []) ≡ 2756
unfolding le
le_check = refl

be_check : be 4 (0x12 ∷ 0x34 ∷ 0x56 ∷ 0x78 ∷ []) ≡ 0x12345678
unfolding be
be_check = refl
