-- ===== src/Security/Session/Proof.antt =====
-- The comparison of a proof in security.c: what passes is the CMAC, byte by byte.
use greentags_lt213a_opendis.Prelude.{
  List, Option, [], arith, bit_or_none, bit_xor_none, byte, drop, none, refl, some, suc, sym, true,
  zero, ℕ, ◌<◌, ◌∙◌, ◌∷◌, ◌≡◌,
}
use greentags_lt213a_opendis.Security.Crypto.{same_bytes}
use greentags_lt213a_opendis.Security.Session.{proves}

byte_behind : (a : List ℕ) (i : ℕ) → byte a (suc i) ≡ byte (drop 1 a) i
byte_behind [] i = refl
byte_behind (x ∷ a) i = refl

same_bytes-diff : (n : ℕ) (a b : List ℕ) (diff : ℕ) → same_bytes n a b diff ≡ 0 → diff ≡ 0
same_bytes-diff zero a b diff h = h
same_bytes-diff (suc n) a b diff h =
    (bit_or_none diff _ (same_bytes-diff n (drop 1 a) (drop 1 b) _ h)).0

-- Bytes that the comparison takes for equal are equal.
same_bytes-byte :
    (n : ℕ) (a b : List ℕ) (diff : ℕ)
    → same_bytes n a b diff ≡ 0
    → (i : ℕ) → i < n
    → byte a i ≡ byte b i
same_bytes-byte zero a b diff h i low = absurd (omega (arith, low))
same_bytes-byte (suc n) a b diff h zero low =
    bit_xor_none (byte a 0) (byte b 0)
      (bit_or_none diff _ (same_bytes-diff n (drop 1 a) (drop 1 b) _ h)).1
same_bytes-byte (suc n) a b diff h (suc i) low =
    byte_behind a i
    ∙ same_bytes-byte n (drop 1 a) (drop 1 b) _ h i (omega (arith, low))
    ∙ sym (byte_behind b i)

-- The message ends with the 16 bytes of the CMAC.
abbrev pub IsProof : Option (List ℕ) → List ℕ → Type 0
IsProof cmac claim =
    (proof : List ℕ) × (cmac ≡ some proof) × ((i : ℕ) → i < 16 → byte claim i ≡ byte proof i)

pub proves-IsProof :
    (cmac : Option (List ℕ)) (claim : List ℕ) → proves cmac claim ≡ true → IsProof cmac claim
proves-IsProof none claim h = absurd (ground (arith, h))
proves-IsProof (some proof) claim h =
    let equal : same_bytes 16 claim proof 0 ≡ 0 = ground (arith, h) in
    (proof, refl, same_bytes-byte 16 claim proof 0 equal)
