-- ===== src/Prelude/Splice.antt =====
-- Laws of `splice`, the copy of bytes into an array.
use Prim.Native.Nat.{ℕ, zero, suc, ◌+◌, ◌≤◌, ◌<◌}
use native.Mathlib.Nat.{zero-add, suc-add}
use mathlib.Core.Path.{◌≡◌, refl, ap, sym}
use mathlib.Core.List.{List, [], ◌∷◌, ◌++◌}
use native.Mathlib.Omega.{arith}
use greentags_lt213a_opendis.Prelude.Lists.{length, get_or, take, drop, replicate, splice}

module _ {ℓ} {A : Type ℓ} where
  pub length-splice : (i : ℕ) (new xs : List A) → length (splice i new xs) ≡ length xs
  length-splice zero [] xs = refl
  length-splice zero (n ∷ new) [] = refl
  length-splice zero (n ∷ new) (x ∷ xs) = ap suc (length-splice zero new xs)
  length-splice (suc i) new [] = refl
  length-splice (suc i) new (x ∷ xs) = ap suc (length-splice i new xs)

  pub get_or-splice_before :
      (i j : ℕ) (new xs : List A) (d : A) → j < i → get_or (splice i new xs) j d ≡ get_or xs j d
  get_or-splice_before zero j new xs d h = elim h [ ]
  get_or-splice_before (suc i) j new [] d h = refl
  get_or-splice_before (suc i) zero new (x ∷ xs) d h = refl
  get_or-splice_before (suc i) (suc j) new (x ∷ xs) d h =
      get_or-splice_before i j new xs d (omega arith)

  pub get_or-splice_after :
      (i j : ℕ) (new xs : List A) (d : A)
      → i + length new ≤ j
      → get_or (splice i new xs) j d ≡ get_or xs j d
  get_or-splice_after zero j [] xs d h = refl
  get_or-splice_after zero j (n ∷ new) [] d h = refl
  get_or-splice_after zero zero (n ∷ new) (x ∷ xs) d h = absurd (omega arith)
  get_or-splice_after zero (suc j) (n ∷ new) (x ∷ xs) d h =
      get_or-splice_after zero j new xs d (omega arith)
  get_or-splice_after (suc i) j new [] d h = refl
  get_or-splice_after (suc i) zero new (x ∷ xs) d h = absurd (omega arith)
  get_or-splice_after (suc i) (suc j) new (x ∷ xs) d h =
      get_or-splice_after i j new xs d (omega arith)

  -- Bytes copied into a copy of the first `n`, which is then copied back.
  splice_front :
      (i n : ℕ) (new xs : List A)
      → i + length new ≤ n
      → splice 0 (splice i new (take n xs)) xs ≡ splice i new xs
  splice_front zero zero [] xs h = refl
  splice_front zero (suc n) [] [] h = refl
  splice_front zero (suc n) [] (x ∷ xs) h =
      ap (λ t. x ∷ t) (splice_front zero n [] xs (omega arith))
  splice_front zero zero (m ∷ new) xs h = absurd (omega arith)
  splice_front zero (suc n) (m ∷ new) [] h = refl
  splice_front zero (suc n) (m ∷ new) (x ∷ xs) h =
      ap (λ t. m ∷ t) (splice_front zero n new xs (omega arith))
  splice_front (suc i) zero new xs h = absurd (omega arith)
  splice_front (suc i) (suc n) new [] h = refl
  splice_front (suc i) (suc n) new (x ∷ xs) h =
      ap (λ t. x ∷ t) (splice_front i n new xs (omega arith))

  pub splice_empty : (i : ℕ) (xs : List A) → splice i [] xs ≡ xs
  splice_empty zero xs = refl
  splice_empty (suc i) [] = refl
  splice_empty (suc i) (x ∷ xs) = ap (λ t. x ∷ t) (splice_empty i xs)

  splice-nil : (i : ℕ) (new : List A) → splice i new [] ≡ []
  splice-nil zero [] = refl
  splice-nil zero (n ∷ new) = refl
  splice-nil (suc i) new = refl

  -- Read, change and write back a word: only the bytes of the change are new.
  pub splice_word :
      (base i n : ℕ) (new xs : List A)
      → i + length new ≤ n
      → splice base (splice i new (take n (drop base xs))) xs ≡ splice (base + i) new xs
  splice_word zero i n new xs h = rw zero-add (splice_front i n new xs h)
  splice_word (suc base) i n new [] h = sym (splice-nil (suc base + i) new)
  splice_word (suc base) i n new (x ∷ xs) h =
      rw suc-add (ap (λ t. x ∷ t) (splice_word base i n new xs h))

  pub splice-splice :
      (i : ℕ) (us vs xs : List A)
      → splice (i + length us) vs (splice i us xs) ≡ splice i (us ++ vs) xs
  splice-splice zero [] vs xs = refl
  splice-splice zero (a ∷ us) vs [] = splice-nil (0 + suc (length us)) vs
  splice-splice zero (a ∷ us) vs (x ∷ xs) =
      rw zero-add (ap (λ t. a ∷ t) (rw zero-add at (splice-splice zero us vs xs)))
  splice-splice (suc i) us vs [] = splice-nil (suc i + length us) vs
  splice-splice (suc i) us vs (x ∷ xs) = rw suc-add (ap (λ t. x ∷ t) (splice-splice i us vs xs))

  pub drop-splice : (i : ℕ) (new xs : List A) → drop i (splice i new xs) ≡ splice 0 new (drop i xs)
  drop-splice zero new xs = refl
  drop-splice (suc i) [] [] = refl
  drop-splice (suc i) (n ∷ new) [] = refl
  drop-splice (suc i) new (x ∷ xs) = drop-splice i new xs

  pub drop-splice_before :
      (n i : ℕ) (new xs : List A) → i + length new ≤ n → drop n (splice i new xs) ≡ drop n xs
  drop-splice_before n zero [] xs h = refl
  drop-splice_before zero zero (m ∷ new) xs h = absurd (omega arith)
  drop-splice_before (suc n) zero (m ∷ new) [] h = refl
  drop-splice_before (suc n) zero (m ∷ new) (x ∷ xs) h =
      drop-splice_before n zero new xs (omega arith)
  drop-splice_before zero (suc i) new xs h = absurd (omega arith)
  drop-splice_before (suc n) (suc i) new [] h = refl
  drop-splice_before (suc n) (suc i) new (x ∷ xs) h = drop-splice_before n i new xs (omega arith)

  pub take-splice :
      (new xs : List A) → length new ≤ length xs → take (length new) (splice 0 new xs) ≡ new
  take-splice [] xs h = refl
  take-splice (n ∷ new) [] h = absurd (omega arith)
  take-splice (n ∷ new) (x ∷ xs) h = ap (λ t. n ∷ t) (take-splice new xs (omega arith))

  -- A byte of the new ones.
  pub get_or-splice :
      (i j k : ℕ) (new xs : List A) (d : A)
      → j ≡ i + k
      → k < length new
      → i + length new ≤ length xs
      → get_or (splice i new xs) j d ≡ get_or new k d
  get_or-splice zero j k [] xs d e lt h = absurd (omega arith)
  get_or-splice zero j k (n ∷ new) [] d e lt h = absurd (omega arith)
  get_or-splice zero zero zero (n ∷ new) (x ∷ xs) d e lt h = refl
  get_or-splice zero zero (suc k) (n ∷ new) (x ∷ xs) d e lt h = absurd (omega arith)
  get_or-splice zero (suc j) zero (n ∷ new) (x ∷ xs) d e lt h = absurd (omega arith)
  get_or-splice zero (suc j) (suc k) (n ∷ new) (x ∷ xs) d e lt h =
      get_or-splice zero j k new xs d (omega arith) (omega arith) (omega arith)
  get_or-splice (suc i) zero k new xs d e lt h = absurd (omega arith)
  get_or-splice (suc i) (suc j) k new [] d e lt h = absurd (omega arith)
  get_or-splice (suc i) (suc j) k new (x ∷ xs) d e lt h =
      get_or-splice i j k new xs d (omega arith) (omega arith) (omega arith)

  pub get_or-replicate : (n i : ℕ) (a d : A) → i < n → get_or (replicate n a) i d ≡ a
  get_or-replicate zero i a d h = elim h [ ]
  get_or-replicate (suc n) zero a d h = refl
  get_or-replicate (suc n) (suc i) a d h = get_or-replicate n i a d (omega arith)

  pub splice_whole : (new xs : List A) → length new ≡ length xs → splice 0 new xs ≡ new
  splice_whole [] [] h = refl
  splice_whole [] (x ∷ xs) h = absurd (omega arith)
  splice_whole (n ∷ new) [] h = absurd (omega arith)
  splice_whole (n ∷ new) (x ∷ xs) h = ap (λ t. n ∷ t) (splice_whole new xs (omega arith))
