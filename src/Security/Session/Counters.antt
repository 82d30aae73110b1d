-- ===== src/Security/Session/Counters.antt =====
-- The counter of a frame in security.c: read64 reads what put64 wrote.
use greentags_lt213a_opendis.Prelude.{
  List, ap, arith, bit_or, bit_or_add, refl, suc, u8, ℕ, ◌*◌, ◌++◌, ◌+◌, ◌/◌, ◌<◌, ◌^◌, ◌∙◌, ◌∷◌,
  ◌≡◌,
}
use greentags_lt213a_opendis.Security.Session.{read64, put64, u64}

-- One byte more of a number below 2^64.
read64_step :
    (v w x n : ℕ) (p : List ℕ)
    → x < 256
    → w ≡ v * 256 + x
    → w < 2 ^ 64
    → read64 v (suc n) (x ∷ p) ≡ read64 w n p
unfolding read64
read64_step v w x n p byte_x sum small =
    let whole : u64 (v * 256) ≡ v * 2 ^ 8 = omega (arith, sum) in
    let low = bit_or_add v 8 x (omega arith) in
    ap (λ t. read64 t n p) (ap (λ t. bit_or t x) whole ∙ low ∙ omega (arith, sum))

read64_end : (v : ℕ) (p : List ℕ) → read64 v 0 p ≡ v
unfolding read64
read64_end v p = refl

pub read64-put64 : (c : ℕ) (rest : List ℕ) → c < 2 ^ 64 → read64 0 8 (put64 c ++ rest) ≡ c
read64-put64 c rest small =
    read64_step 0 (c / 2 ^ 56) (u8 (c / 2 ^ 56)) 7 _ (omega arith) (omega arith) (omega arith)
    ∙ read64_step (c / 2 ^ 56) (c / 2 ^ 48) (u8 (c / 2 ^ 48)) 6 _ (omega arith) (omega arith)
        (omega arith)
    ∙ read64_step (c / 2 ^ 48) (c / 2 ^ 40) (u8 (c / 2 ^ 40)) 5 _ (omega arith) (omega arith)
        (omega arith)
    ∙ read64_step (c / 2 ^ 40) (c / 2 ^ 32) (u8 (c / 2 ^ 32)) 4 _ (omega arith) (omega arith)
        (omega arith)
    ∙ read64_step (c / 2 ^ 32) (c / 2 ^ 24) (u8 (c / 2 ^ 24)) 3 _ (omega arith) (omega arith)
        (omega arith)
    ∙ read64_step (c / 2 ^ 24) (c / 2 ^ 16) (u8 (c / 2 ^ 16)) 2 _ (omega arith) (omega arith)
        (omega arith)
    ∙ read64_step (c / 2 ^ 16) (c / 2 ^ 8) (u8 (c / 2 ^ 8)) 1 _ (omega arith) (omega arith)
        (omega arith)
    ∙ read64_step (c / 2 ^ 8) c (u8 c) 0 _ (omega arith) (omega arith) small
    ∙ read64_end c rest
