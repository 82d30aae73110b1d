-- ===== src/Prelude/Erased.antt =====
-- Places of an array that hold one blank value: the erased bytes of a flash page.
use Prim.Native.Nat.{ℕ, zero, suc, ◌+◌, ◌≤◌}
use native.Mathlib.Nat.{zero-add, suc-add}
use mathlib.Core.Path.{◌≡◌, refl}
use mathlib.Core.List.{List, [], ◌∷◌, ◌++◌}
use native.Mathlib.Omega.{arith}
use greentags_lt213a_opendis.Prelude.Lists.{length, drop, replicate, splice}

module _ {ℓ} {A : Type ℓ} where
  -- The places that the new bytes take hold `blank`.
  abbrev pub Blank : A → ℕ → List A → List A → Type ℓ
  Blank blank zero [] xs = Unit
  Blank blank zero (n ∷ new) [] = Unit
  Blank blank zero (n ∷ new) (x ∷ xs) = (x ≡ blank) × Blank blank zero new xs
  Blank blank (suc i) new [] = Unit
  Blank blank (suc i) new (x ∷ xs) = Blank blank i new xs

  pub Blank-nil : (blank : A) (i : ℕ) (new : List A) → Blank blank i new []
  Blank-nil blank zero [] = tt
  Blank-nil blank zero (n ∷ new) = tt
  Blank-nil blank (suc i) new = tt

  pub Blank-append :
      (blank : A) (i : ℕ) (us vs xs : List A)
      → Blank blank i (us ++ vs) xs
      → Blank blank i us xs × Blank blank (i + length us) vs (splice i us xs)
  Blank-append blank zero [] vs xs h = (tt, h)
  Blank-append blank zero (u ∷ us) vs [] h = (tt, Blank-nil blank (0 + suc (length us)) vs)
  Blank-append blank zero (u ∷ us) vs (x ∷ xs) h =
      let rest = Blank-append blank zero us vs xs h.1 in
      ((h.0, rest.0), rw zero-add (rw zero-add at rest.1))
  Blank-append blank (suc i) us vs [] h = (tt, Blank-nil blank (suc i + length us) vs)
  Blank-append blank (suc i) us vs (x ∷ xs) h = rw suc-add (Blank-append blank i us vs xs h)

  pub Blank-drop :
      (blank : A) (base i : ℕ) (new xs : List A)
      → Blank blank (base + i) new xs
      → Blank blank i new (drop base xs)
  Blank-drop blank zero i new xs h = rw zero-add at h
  Blank-drop blank (suc base) zero [] [] h = tt
  Blank-drop blank (suc base) zero (n ∷ new) [] h = tt
  Blank-drop blank (suc base) (suc i) new [] h = tt
  Blank-drop blank (suc base) i new (x ∷ xs) h = Blank-drop blank base i new xs (rw suc-add at h)

  pub Blank-replicate : (blank : A) (i n : ℕ) (new : List A) → Blank blank i new (replicate n blank)
  Blank-replicate blank zero n [] = tt
  Blank-replicate blank zero zero (m ∷ new) = tt
  Blank-replicate blank zero (suc n) (m ∷ new) = (refl, Blank-replicate blank zero n new)
  Blank-replicate blank (suc i) zero new = tt
  Blank-replicate blank (suc i) (suc n) new = Blank-replicate blank i n new

  -- Bytes copied behind a blank place leave it blank.
  pub Blank-splice :
      (blank : A) (j i : ℕ) (new other xs : List A)
      → j + length new ≤ i
      → Blank blank j new xs
      → Blank blank j new (splice i other xs)
  Blank-splice blank zero i [] other xs h k = tt
  Blank-splice blank zero zero (n ∷ new) other xs h k = absurd (omega arith)
  Blank-splice blank zero (suc i) (n ∷ new) other [] h k = tt
  Blank-splice blank zero (suc i) (n ∷ new) other (x ∷ xs) h k =
      (k.0, Blank-splice blank zero i new other xs (omega arith) k.1)
  Blank-splice blank (suc j) zero new other xs h k = absurd (omega arith)
  Blank-splice blank (suc j) (suc i) new other [] h k = tt
  Blank-splice blank (suc j) (suc i) new other (x ∷ xs) h k =
      Blank-splice blank j i new other xs (omega arith) k
