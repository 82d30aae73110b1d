-- ===== src/Prelude/Bits.antt =====
-- The binary digits of a number, and what the bitwise operations do to them.
use Prim.Native.Nat.{
  ℕ, zero, suc, ◌+◌, ◌*◌, ◌-◌, ◌/◌, ◌%◌, ◌^◌, ◌<◌, ◌≤◌, max, min, digits, bit_or, bit_or-bitwise,
  bit_and, bit_and-bitwise, bit_xor, bit_xor-bitwise, differ,
}
use mathlib.Core.Path.{◌≡◌, refl, sym, ap, ap₂, ◌∙◌}
use native.Mathlib.Nat.{pow-suc, div-add-mod, mod-lt, mod-eq_of_lt, mul-add-mod_self_right}
use native.Mathlib.Omega.{arith}

-- Digit `i`, the lowest first.
abbrev pub digit : ℕ → ℕ → ℕ
digit m zero = m % 2
digit m (suc i) = digit (m / 2) i

abbrev or_run : ℕ → ℕ → ℕ → ℕ
or_run n a b = digits (λ b. b) max n a b

or_run-enough : (n m a b : ℕ) → a ≤ n → a ≤ m → or_run n a b ≡ or_run m a b
or_run-enough zero zero a b p q = refl
or_run-enough zero (suc m) zero b p q = refl
or_run-enough zero (suc m) (suc a) b p q = omega arith
or_run-enough (suc n) zero zero b p q = refl
or_run-enough (suc n) zero (suc a) b p q = omega arith
or_run-enough (suc n) (suc m) zero b p q = refl
or_run-enough (suc n) (suc m) (suc a) b p q =
    ap (λ t. t * 2 + max (suc a % 2) (b % 2))
      (or_run-enough n m (suc a / 2) (b / 2) (omega arith) (omega arith))

pub bit_or_halves : (a b : ℕ) → bit_or a b ≡ bit_or (a / 2) (b / 2) * 2 + max (a % 2) (b % 2)
bit_or_halves zero b = omega (arith, bit_or-bitwise 0 b, bit_or-bitwise 0 (b / 2))
bit_or_halves (suc a) b = omega (
  arith,
  bit_or-bitwise (suc a) b,
  bit_or-bitwise (suc a / 2) (b / 2),
  or_run-enough a (suc a / 2) (suc a / 2) (b / 2) (omega arith) (omega arith),
)

pub digit-bit_or : (a b i : ℕ) → digit (bit_or a b) i ≡ max (digit a i) (digit b i)
digit-bit_or a b zero = omega (arith, bit_or_halves a b)
digit-bit_or a b (suc i) =
    ap (λ t. digit t i) (let h = bit_or_halves a b in omega (arith, h))
    ∙ digit-bit_or (a / 2) (b / 2) i

and_run : ℕ → ℕ → ℕ → ℕ
and_run n a b = digits (λ b. zero) min n a b

and_run-enough : (n m a b : ℕ) → a ≤ n → a ≤ m → and_run n a b ≡ and_run m a b
unfolding and_run
and_run-enough zero zero a b p q = refl
and_run-enough zero (suc m) zero b p q = refl
and_run-enough zero (suc m) (suc a) b p q = omega arith
and_run-enough (suc n) zero zero b p q = refl
and_run-enough (suc n) zero (suc a) b p q = omega arith
and_run-enough (suc n) (suc m) zero b p q = refl
and_run-enough (suc n) (suc m) (suc a) b p q =
    ap (λ t. t * 2 + min (suc a % 2) (b % 2))
      (and_run-enough n m (suc a / 2) (b / 2) (omega arith) (omega arith))

bit_and_halves : (a b : ℕ) → bit_and a b ≡ bit_and (a / 2) (b / 2) * 2 + min (a % 2) (b % 2)
unfolding and_run
bit_and_halves zero b = omega (arith, bit_and-bitwise 0 b, bit_and-bitwise 0 (b / 2))
bit_and_halves (suc a) b = omega (
  arith,
  bit_and-bitwise (suc a) b,
  bit_and-bitwise (suc a / 2) (b / 2),
  and_run-enough a (suc a / 2) (suc a / 2) (b / 2) (omega arith) (omega arith),
)

and_run_zero : (n a : ℕ) → and_run n a 0 ≡ 0
unfolding and_run
and_run_zero zero a = refl
and_run_zero (suc n) zero = refl
and_run_zero (suc n) (suc a) = omega (arith, and_run_zero n (suc a / 2))

bit_and_zero : (a : ℕ) → bit_and a 0 ≡ 0
unfolding and_run
bit_and_zero a = bit_and-bitwise a 0 ∙ and_run_zero a a

power_step : (b : ℕ) → 2 ^ suc b ≡ 2 ^ b * 2
power_step b = pow-suc 2 b

shift_step : (m a : ℕ) → m * 2 ^ suc a ≡ m * 2 ^ a * 2
shift_step m a = rw (power_step a) (omega arith)

-- A mask of one digit.
pub bit_and_power : (m b : ℕ) → bit_and m (2 ^ b) ≡ digit m b * 2 ^ b
bit_and_power m zero = omega (arith, bit_and_halves m 1, bit_and_zero (m / 2))
bit_and_power m (suc b) =
    let step = power_step b in
    let half : 2 ^ suc b / 2 ≡ 2 ^ b = omega (arith, step) in
    let halves = bit_and_halves m (2 ^ suc b) in
    let rest : bit_and (m / 2) (2 ^ suc b / 2) ≡ digit (m / 2) b * 2 ^ b =
      ap (bit_and (m / 2)) half ∙ bit_and_power (m / 2) b in
    let goal = shift_step (digit (m / 2) b) b in omega (arith, halves, rest, step, goal)

pub power_positive : (b : ℕ) → 0 < 2 ^ b
power_positive zero = omega arith
power_positive (suc b) = omega (arith, power_step b, power_positive b)

pub digit_lt : (m i : ℕ) → digit m i < 2
digit_lt m zero = omega arith
digit_lt m (suc i) = digit_lt (m / 2) i

-- The digits of a number that was moved up.
pub digit-shift : (m a i : ℕ) → a ≤ i → digit (m * 2 ^ a) i ≡ digit m (i - a)
digit-shift m zero i low =
    let same : m * 2 ^ 0 ≡ m = omega arith in
    let place : i ≡ i - 0 = omega arith in ap₂ digit same place
digit-shift m (suc a) zero low = omega arith
digit-shift m (suc a) (suc i) low =
    let s = shift_step m a in
    let place : i - a ≡ suc i - suc a = omega arith in
    ap (λ t. digit t i) (omega (arith, s)) ∙ digit-shift m a i (omega arith) ∙ ap (digit m) place

pub digit-shift_low : (m a i : ℕ) → i < a → digit (m * 2 ^ a) i ≡ 0
digit-shift_low m zero i low = omega arith
digit-shift_low m (suc a) zero low = omega (arith, shift_step m a)
digit-shift_low m (suc a) (suc i) low =
    ap (λ t. digit t i) (let s = shift_step m a in omega (arith, s))
    ∙ digit-shift_low m a i (omega arith)

half-mod : (m k : ℕ) → (m % 2 ^ suc k / 2 ≡ m / 2 % 2 ^ k) × (m % 2 ^ suc k % 2 ≡ m % 2)
half-mod m k =
    let q = m / 2 ^ suc k in
    let r = m % 2 ^ suc k in
    let split : r + q * 2 ^ k * 2 ≡ m =
      let s = div-add-mod m (2 ^ suc k) in let t = shift_step q k in omega (arith, s, t) in
    let small = mod-lt m (power_positive (suc k)) in
    let half : m / 2 ≡ q * 2 ^ k + r / 2 = omega (arith, split) in
    (
      sym (
          ap (λ t. t % 2 ^ k) half
          ∙ mul-add-mod_self_right q (2 ^ k) (r / 2)
          ∙ mod-eq_of_lt (omega (arith, small, power_step k))),
      omega (arith, split),
    )

pub digit-mod : (m k i : ℕ) → i < k → digit (m % 2 ^ k) i ≡ digit m i
digit-mod m zero i low = omega arith
digit-mod m (suc k) zero low = (half-mod m k).1
digit-mod m (suc k) (suc i) low =
    ap (λ t. digit t i) (half-mod m k).0 ∙ digit-mod (m / 2) k i (omega arith)

bit_or_zero : (n a : ℕ) → a ≤ n → bit_or a 0 ≡ a
bit_or_zero zero a p = (let e : a ≡ 0 = omega arith in ap (λ t. bit_or t 0) e ∙ sym e)
bit_or_zero (suc n) zero p = refl
bit_or_zero (suc n) (suc a) p =
    let h = bit_or_halves (suc a) 0 in
    let rest = bit_or_zero n (suc a / 2) (omega arith) in omega (arith, h, rest)

-- Digits below those of the other number.
pub bit_or_add : (a k x : ℕ) → x < 2 ^ k → bit_or (a * 2 ^ k) x ≡ a * 2 ^ k + x
bit_or_add a zero x small =
    let none_left : x ≡ 0 = omega arith in
    ap (bit_or (a * 2 ^ 0)) none_left
    ∙ bit_or_zero (a * 2 ^ 0) (a * 2 ^ 0) (omega arith)
    ∙ omega arith
bit_or_add a (suc k) x small =
    let s = shift_step a k in
    let p = power_step k in
    let h = bit_or_halves (a * 2 ^ suc k) x in
    let half : a * 2 ^ suc k / 2 ≡ a * 2 ^ k = omega (arith, s) in
    let moved = ap (λ t. bit_or t (x / 2)) half in
    let rest = bit_or_add a k (x / 2) (omega (arith, small, p)) in omega (arith, h, moved, rest, s)

pub bit_or_under : (a k x : ℕ) → x < 2 ^ k → bit_or x (a * 2 ^ k) ≡ x + a * 2 ^ k
bit_or_under a zero x small =
    let none_left : x ≡ 0 = omega arith in
    let alone = bit_or-bitwise 0 (a * 2 ^ 0) in
    ap (λ t. bit_or t (a * 2 ^ 0)) none_left ∙ omega (arith, alone, none_left)
bit_or_under a (suc k) x small =
    let s = shift_step a k in
    let p = power_step k in
    let h = bit_or_halves x (a * 2 ^ suc k) in
    let half : a * 2 ^ suc k / 2 ≡ a * 2 ^ k = omega (arith, s) in
    let moved = ap (bit_or (x / 2)) half in
    let rest = bit_or_under a k (x / 2) (omega (arith, small, p)) in
    omega (arith, h, moved, rest, s)

-- Nothing is zero together but zeros.
none_of_bit_or : (n a b : ℕ) → a ≤ n → b ≤ n → bit_or a b ≡ 0 → (a ≡ 0) × (b ≡ 0)
none_of_bit_or zero a b p q h = (omega arith, omega arith)
none_of_bit_or (suc n) a b p q h =
    let halves = bit_or_halves a b in
    let rest =
      none_of_bit_or n (a / 2) (b / 2) (omega arith) (omega arith) (omega (arith, halves, h)) in
    (omega (arith, halves, h, rest), omega (arith, halves, h, rest))

pub bit_or_none : (a b : ℕ) → bit_or a b ≡ 0 → (a ≡ 0) × (b ≡ 0)
bit_or_none a b h = none_of_bit_or (max a b) a b (omega arith) (omega arith) h

abbrev xor_run : ℕ → ℕ → ℕ → ℕ
xor_run n a b = digits (λ b. b) differ n a b

xor_run-enough : (n m a b : ℕ) → a ≤ n → a ≤ m → xor_run n a b ≡ xor_run m a b
xor_run-enough zero zero a b p q = refl
xor_run-enough zero (suc m) zero b p q = refl
xor_run-enough zero (suc m) (suc a) b p q = omega arith
xor_run-enough (suc n) zero zero b p q = refl
xor_run-enough (suc n) zero (suc a) b p q = omega arith
xor_run-enough (suc n) (suc m) zero b p q = refl
xor_run-enough (suc n) (suc m) (suc a) b p q =
    ap (λ t. t * 2 + differ (suc a % 2) (b % 2))
      (xor_run-enough n m (suc a / 2) (b / 2) (omega arith) (omega arith))

bit_xor_halves : (a b : ℕ) → bit_xor a b ≡ bit_xor (a / 2) (b / 2) * 2 + differ (a % 2) (b % 2)
bit_xor_halves zero b = omega (arith, bit_xor-bitwise 0 b, bit_xor-bitwise 0 (b / 2))
bit_xor_halves (suc a) b = omega (
  arith,
  bit_xor-bitwise (suc a) b,
  bit_xor-bitwise (suc a / 2) (b / 2),
  xor_run-enough a (suc a / 2) (suc a / 2) (b / 2) (omega arith) (omega arith),
)

differ_none : (x y : ℕ) → differ x y ≡ 0 → x ≡ y
differ_none zero y h = sym h
differ_none (suc x) zero h = h
differ_none (suc x) (suc y) h = ap suc (differ_none x y h)

none_of_bit_xor : (n a b : ℕ) → a ≤ n → b ≤ n → bit_xor a b ≡ 0 → a ≡ b
none_of_bit_xor zero a b p q h = omega arith
none_of_bit_xor (suc n) a b p q h =
    let halves = bit_xor_halves a b in
    let low = differ_none (a % 2) (b % 2) (omega (arith, halves, h)) in
    let rest =
      none_of_bit_xor n (a / 2) (b / 2) (omega arith) (omega arith) (omega (arith, halves, h)) in
    omega (arith, low, rest)

pub bit_xor_none : (a b : ℕ) → bit_xor a b ≡ 0 → a ≡ b
bit_xor_none a b h = none_of_bit_xor (max a b) a b (omega arith) (omega arith) h
