-- ===== src/Telemetry/Int.antt =====
-- The signed numbers of telemetry.c, and the arithmetic that it does with them.
use greentags_lt213a_opendis.Prelude.{if◌then◌else◌, leb, ltb, suc, ℕ, ◌*◌, ◌+◌, ◌-◌, ◌/◌}

-- `negsuc n` is -(n + 1).
pub data ℤ : Type 0 where
  pos : ℕ → ℤ
  negsuc : ℕ → ℤ

abbrev pub pos_part : ℤ → ℕ
pos_part (pos n) = n
pos_part (negsuc n) = 0

abbrev pub neg_part : ℤ → ℕ
neg_part (pos n) = 0
neg_part (negsuc n) = suc n

-- a - b, as an integer.
abbrev pub sub_ℕ : ℕ → ℕ → ℤ
sub_ℕ a b = if leb b a then pos (a - b) else negsuc (b - a - 1)

infixl 65 ◌+ℤ◌
unfoldable pub ◌+ℤ◌ : ℤ → ℤ → ℤ
a +ℤ b = sub_ℕ (pos_part a + pos_part b) (neg_part a + neg_part b)

-- Multiplication by 2, and the division of C, which rounds towards zero.
abbrev pub double : ℤ → ℤ
double a = sub_ℕ (pos_part a * 2) (neg_part a * 2)

abbrev pub div_toward_zero : ℤ → ℕ → ℤ
div_toward_zero a d = sub_ℕ (pos_part a / d) (neg_part a / d)

-- CLAMP(a, 0, high)
abbrev pub clamp : ℕ → ℤ → ℕ
clamp high (pos n) = if ltb high n then high else n
clamp high (negsuc n) = 0
