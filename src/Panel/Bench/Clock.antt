-- ===== src/Panel/Bench/Clock.antt =====
-- The bench keeps the promises about time that `wait_ready` relies on.
use greentags_lt213a_opendis.Prelude.{
  Bool, [], arith, false, if◌then◌else◌, length, not, refl, true, ℕ, ◌&&◌, ◌++◌, ◌==◌, ◌∷◌, ◌≡◌,
}
use greentags_lt213a_opendis.Panel.Ready.Ends.{BoardLaws}
use greentags_lt213a_opendis.Panel.Bench.{Bench, Chip, bench, set_level}

-- Both branches of a test leave the clock.
if-clock :
    (c : Bool) (x y : Bench) (t : ℕ) → x.clock ≡ t → y.clock ≡ t → (if c then x else y).clock ≡ t
if-clock true x y t hx hy = hx
if-clock false x y t hx hy = hy

set_level-clock : (pin : ℕ) (high : Bool) (b : Bench) → (set_level pin high b).clock ≡ b.clock
set_level-clock pin high b =
    let shift = if-clock (length (b.bits ++ b.mosi_level ∷ []) == 8) _ _ b.clock refl refl in
    let sck = if-clock (high && not b.sck_level && not b.cs_level) _ _ b.clock shift refl in
    let rst = if-clock (high && not b.reset_level) _ _ b.clock refl refl in
    if-clock (pin == 30) _ _ b.clock refl (
      if-clock (pin == 0) _ _ b.clock sck (
        if-clock (pin == 1) _ _ b.clock refl
          (if-clock (pin == 2) _ _ b.clock refl (if-clock (pin == 3) _ _ b.clock rst refl))))

pub bench-BoardLaws : (level : Chip → ℕ → Bool) → BoardLaws (bench level)
bench-BoardLaws level = record {
  write_time = λ pin high b. let e = set_level-clock pin high b in omega (arith, e);
  wait_time = λ us b. omega arith;
  sleep_time = λ ms b. omega arith;
}
