-- ===== src/Security/Session/Window.antt =====
-- The replay window of security.c, against the set of the counters that were accepted.
use greentags_lt213a_opendis.Prelude.{
  Bool, Bool-cases, all_below, all_below_sound, ap, arith, bit_and, bit_and_power, bit_or, digit,
  digit-bit_or, digit-mod, digit_lt, false, if◌then◌else◌, inl, inr, ltb, power_positive, refl, suc,
  true, u32, zero, ℕ, ◌!=◌, ◌*◌, ◌+◌, ◌-◌, ◌<◌, ◌==◌, ◌^◌, ◌||◌, ◌∙◌, ◌≡◌, ◌≤◌,
}
use greentags_lt213a_opendis.Security.Session.{Session, blank_session, sub64, is_replay}

-- A set of counters, with one more.
abbrev pub insert : ℕ → (ℕ → Bool) → ℕ → Bool
insert counter seen c = c == counter || seen c

abbrev pub as_digit : Bool → ℕ
as_digit true = 1
as_digit false = 0

-- What the window says of the set: nothing is in it before the first counter; the largest one is
-- `rx_counter`; and digit `i` of `replay` tells whether the counter `i` below is in it.
unfoldable pub Covers : (ℕ → Bool) → Session → Type 0
Covers seen w =
    (w.rx_seen ≡ false → (c : ℕ) → seen c ≡ false)
    × (w.rx_seen ≡ true → (c : ℕ) → w.rx_counter < c → seen c ≡ false)
    × (w.rx_seen ≡ true
        → (i : ℕ) → i < 32
        → i ≤ w.rx_counter
        → digit w.replay i ≡ as_digit (seen (w.rx_counter - i)))
    × (w.rx_counter < 2 ^ 63)

pub blank-Covers : Covers (λ c. false) blank_session
unfolding Covers
blank-Covers = ((λ e c. refl), (λ e c lt. refl), (λ e i lt le. ground (arith)), omega arith)

masked : (m b : ℕ) → (bit_and m (2 ^ b) != 0) ≡ (digit m b == 1)
masked m b =
    let h = bit_and_power m b in
    let p = power_positive b in
    let d = digit_lt m b in
    elim (Bool-cases (digit m b == 1)) [
      | inl y ↦
          (let one : digit m b ≡ 1 = ground (arith) in
            let h' : bit_and m (2 ^ b) ≡ 1 * 2 ^ b = h ∙ ap (λ t. t * 2 ^ b) one in
            ground (arith, h', p, y))
      | inr n ↦
          (let none_left : digit m b ≡ 0 = ground (arith) in
            let h' : bit_and m (2 ^ b) ≡ 0 * 2 ^ b = h ∙ ap (λ t. t * 2 ^ b) none_left in
            ground (arith, h', p, n))
    ]

-- The digit of a counter that is not too old.
is_replay_recent :
    (seen : ℕ → Bool) (counter : ℕ) (w : Session)
    → Covers seen w
    → w.rx_seen ≡ true
    → counter ≤ w.rx_counter
    → w.rx_counter < counter + 32
    → is_replay counter w ≡ seen counter
unfolding Covers is_replay
is_replay_recent seen counter w (first, largest, digits, small) has old recent =
    let b = sub64 w.rx_counter counter in
    let distance : b ≡ w.rx_counter - counter = omega arith in
    let place : w.rx_counter - b ≡ counter = omega (arith, distance) in
    let told : digit w.replay b ≡ as_digit (seen (w.rx_counter - b)) =
      digits has b (omega (arith, distance)) (omega (arith, distance)) in
    let told' : digit w.replay b ≡ as_digit (seen counter) =
      told ∙ ap (λ c. as_digit (seen c)) place in
    let mask = masked w.replay b in
    elim (Bool-cases (seen counter)) [
      | inl y ↦
          (let one : digit w.replay b ≡ 1 = told' ∙ ap as_digit y in
            ground (arith, distance, one, mask, y))
      | inr n ↦
          (let no : digit w.replay b ≡ 0 = told' ∙ ap as_digit n in
            ground (arith, distance, no, mask, n))
    ]

-- A counter that was accepted is refused.
pub is_replay-seen :
    (seen : ℕ → Bool) (counter : ℕ) (w : Session)
    → Covers seen w
    → seen counter ≡ true
    → is_replay counter w ≡ true
unfolding Covers is_replay
is_replay-seen seen counter w h taken = elim (Bool-cases w.rx_seen) [
  | inr n ↦ (let no = h.0 n counter in ground (arith, no, taken))
  | inl y ↦ elim (Bool-cases (ltb w.rx_counter counter)) [
    | inl ahead ↦ (let no = h.1 y counter (ground (arith, ahead)) in ground (arith, no, taken))
    | inr behind ↦ elim (Bool-cases (ltb w.rx_counter (counter + 32))) [
      | inl recent ↦
          is_replay_recent seen counter w h y (ground (arith, behind)) (ground (arith, recent))
          ∙ taken
      | inr old ↦ (let small = h.3 in ground (arith, y, behind, old, small))
    ]
  ]
]

-- When the replay window describes a set of counters, a counter outside of the set that is less than
-- 32 below the largest one, or above it, is not taken for a replay.
pub is_replay-fresh :
    (seen : ℕ → Bool) (counter : ℕ) (w : Session)
    → Covers seen w
    → seen counter ≡ false
    → w.rx_counter < counter + 32
    → is_replay counter w ≡ false
unfolding is_replay
is_replay-fresh seen counter w h fresh recent = elim (Bool-cases w.rx_seen) [
  | inr n ↦ ground (arith, n)
  | inl y ↦ elim (Bool-cases (ltb w.rx_counter counter)) [
    | inl ahead ↦ ground (arith, ahead)
    | inr behind ↦ is_replay_recent seen counter w h y (ground (arith, behind)) recent ∙ fresh
  ]
]

pub digit_zero : (i : ℕ) → digit 0 i ≡ 0
digit_zero zero = refl
digit_zero (suc i) = digit_zero i

pub digit_one : (i : ℕ) → 0 < i → digit 1 i ≡ 0
digit_one zero pos = omega arith
digit_one (suc i) pos = digit_zero i

power_digit : ℕ → ℕ → Bool
power_digit b i = digit (2 ^ b) i == (if i == b then 1 else 0)

power_table : all_below 32 (λ b. all_below 32 (power_digit b)) ≡ true
unfolding power_digit
power_table = refl

digit_power : (b i : ℕ) → b < 32 → i < 32 → digit (2 ^ b) i ≡ (if i == b then 1 else 0)
unfolding power_digit
digit_power b i hb hi =
    let h =
      all_below_sound 32 (power_digit b) i
        (all_below_sound 32 (λ b. all_below 32 (power_digit b)) b power_table hb) hi in
    ground (arith, h)

-- The digits of a window that moved up, and of one with another digit set.
pub moved :
    (m a i : ℕ) → i < 32 → 0 < i → digit (bit_or (u32 (m * 2 ^ a)) 1) i ≡ digit (m * 2 ^ a) i
moved m a i low pos =
    let or = digit-bit_or (u32 (m * 2 ^ a)) 1 i in
    let cut = digit-mod (m * 2 ^ a) 32 i low in
    let one = digit_one i pos in omega (arith, or, cut, one)

pub moved_zero : (m a : ℕ) → digit (bit_or (u32 (m * 2 ^ a)) 1) 0 ≡ 1
moved_zero m a = let or = digit-bit_or (u32 (m * 2 ^ a)) 1 0 in omega (arith, or)

pub marked :
    (m b i : ℕ) → b < 32 → i < 32 → digit (bit_or m (2 ^ b)) i ≡ (if i == b then 1 else digit m i)
marked m b i hb hi =
    let or = digit-bit_or m (2 ^ b) i in
    let p = digit_power b i hb hi in let d = digit_lt m i in ground (arith, or, p, d)
