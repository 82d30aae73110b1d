-- ===== src/Security/Crypto/RoundTrip.antt =====
-- What `od_ccm` encrypts, it decrypts.
use greentags_lt213a_opendis.Prelude.{
  Bool, Bool-cases, List, [], all_below, all_below_sound, ap, ap₂, arith, bit_xor, byte, drop,
  drop_exact, false, inl, inr, length, length-append, length-drop, length-take, ltb, refl, some,
  suc, take, take-append-drop, take_exact, true, u8, zero, ℕ, ◌&&◌, ◌++◌, ◌+◌, ◌/◌, ◌<◌, ◌==◌, ◌^◌,
  ◌∙◌, ◌∷◌, ◌≡◌, ◌≤◌, ◌⊎◌,
}
use greentags_lt213a_opendis.Security.Crypto.{
  Aes, xor_bytes, xor_blocks, tag_blocks, ccm_xor, same_bytes, ccm_tag, ccm_encrypt, ccm_decrypt,
  od_ccm,
}

abbrev pub AllBytes : List ℕ → Type 0
AllBytes [] = Unit {0}
AllBytes (x ∷ xs) = (x < 256) × AllBytes xs

xor_back : ℕ → ℕ → Bool
xor_back x k = bit_xor (bit_xor x k) k == x && ltb (bit_xor x k) 256 && bit_xor x x == 0

xor_table : all_below 256 (λ x. all_below 256 (xor_back x)) ≡ true
unfolding xor_back
xor_table = refl

pub xor_byte :
    (x k : ℕ)
    → x < 256
    → k < 256
    → (bit_xor (bit_xor x k) k ≡ x) × (bit_xor x k < 256) × (bit_xor x x ≡ 0)
unfolding xor_back
xor_byte x k hx hk =
    let h =
      all_below_sound 256 (xor_back x) k
        (all_below_sound 256 (λ x. all_below 256 (xor_back x)) x xor_table hx) hk in
    ground (arith, h)

xor_bytes-twice :
    (block mask : List ℕ)
    → AllBytes block
    → AllBytes mask
    → xor_bytes (xor_bytes block mask) mask ≡ block
xor_bytes-twice [] mask hb hm = refl
xor_bytes-twice (x ∷ block) [] hb hm = refl
xor_bytes-twice (x ∷ block) (k ∷ mask) (hx, hb) (hk, hm) =
    ap₂ ◌∷◌ (xor_byte x k hx hk).0 (xor_bytes-twice block mask hb hm)

length-xor_bytes : (block mask : List ℕ) → length (xor_bytes block mask) ≡ length block
length-xor_bytes [] mask = refl
length-xor_bytes (x ∷ block) [] = refl
length-xor_bytes (x ∷ block) (k ∷ mask) = ap suc (length-xor_bytes block mask)

xor_bytes-AllBytes :
    (block mask : List ℕ) → AllBytes block → AllBytes mask → AllBytes (xor_bytes block mask)
xor_bytes-AllBytes [] mask hb hm = tt
xor_bytes-AllBytes (x ∷ block) [] hb hm = hb
xor_bytes-AllBytes (x ∷ block) (k ∷ mask) (hx, hb) (hk, hm) =
    ((xor_byte x k hx hk).1, xor_bytes-AllBytes block mask hb hm)

AllBytes-take : (n : ℕ) (xs : List ℕ) → AllBytes xs → AllBytes (take n xs)
AllBytes-take zero xs h = tt
AllBytes-take (suc n) [] h = tt
AllBytes-take (suc n) (x ∷ xs) (hx, h) = (hx, AllBytes-take n xs h)

AllBytes-drop : (n : ℕ) (xs : List ℕ) → AllBytes xs → AllBytes (drop n xs)
AllBytes-drop zero xs h = h
AllBytes-drop (suc n) [] h = tt
AllBytes-drop (suc n) (x ∷ xs) (hx, h) = AllBytes-drop n xs h

-- The tag bytes that were stored compare equal.
same_bytes-take :
    (n : ℕ) (tag rest : List ℕ)
    → AllBytes tag
    → n ≤ length tag
    → same_bytes n tag (take n tag ++ rest) 0 ≡ 0
same_bytes-take zero tag rest h long = refl
same_bytes-take (suc n) [] rest h long = ground (arith)
same_bytes-take (suc n) (x ∷ tag) rest (hx, h) long =
    rw (xor_byte x x hx hx).2 (same_bytes-take n tag rest h (omega arith))

-- What is in front of a full block, or of nothing.
take-whole :
    (n : ℕ) (xs ys : List ℕ) → (length xs ≡ n) ⊎ (ys ≡ []) → length xs ≤ n → take n (xs ++ ys) ≡ xs
take-whole zero [] ys h short = refl
take-whole zero (x ∷ xs) ys h short = ground (arith)
take-whole (suc n) [] ys (inl e) short = ground (arith)
take-whole (suc n) [] ys (inr e) short = rw e refl
take-whole (suc n) (x ∷ xs) ys (inl e) short =
    ap (λ t. x ∷ t) (take-whole n xs ys (inl (omega arith)) (omega arith))
take-whole (suc n) (x ∷ xs) ys (inr e) short =
    ap (λ t. x ∷ t) (take-whole n xs ys (inr e) (omega arith))

drop-whole :
    (n : ℕ) (xs ys : List ℕ) → (length xs ≡ n) ⊎ (ys ≡ []) → length xs ≤ n → drop n (xs ++ ys) ≡ ys
drop-whole zero [] ys h short = refl
drop-whole zero (x ∷ xs) ys h short = ground (arith)
drop-whole (suc n) [] ys (inl e) short = ground (arith)
drop-whole (suc n) [] ys (inr e) short = rw e refl
drop-whole (suc n) (x ∷ xs) ys (inl e) short = drop-whole n xs ys (inl (omega arith)) (omega arith)
drop-whole (suc n) (x ∷ xs) ys (inr e) short = drop-whole n xs ys (inr e) (omega arith)

no_bytes : (xs : List ℕ) → length xs ≡ 0 → xs ≡ []
no_bytes [] e = refl
no_bytes (x ∷ xs) e = ground (arith)

-- A block is full, or the last one.
full-or-last : (d r : List ℕ) → length r ≡ length (drop 16 d) → (length (take 16 d) ≡ 16) ⊎ (r ≡ [])
full-or-last d r same = elim (Bool-cases (ltb (length d) 16)) [
  | inl short ↦ inr (no_bytes r (let l = length-drop 16 d in ground (arith, l)))
  | inr long ↦ inl (let l = length-take 16 d in ground (arith, l))
]

module _ (aes : Aes) (key nonce : List ℕ)
    (works : (block : List ℕ)
      → (out : List ℕ) × (aes key block ≡ some out) × (length out ≡ 16) × AllBytes out) where
  abbrev counter : ℕ → List ℕ
  counter n = 1 ∷ (nonce ++ u8 (n / 2 ^ 8) ∷ u8 n ∷ [])

  xor_blocks-step :
      (fuel n : ℕ) (d stream rest : List ℕ)
      → 0 < length d
      → aes key (counter n) ≡ some stream
      → xor_blocks fuel (n + 1) aes key nonce (drop 16 d) ≡ some rest
      → xor_blocks (suc fuel) n aes key nonce d ≡ some (xor_bytes (take 16 d) stream ++ rest)
  unfolding xor_blocks
  xor_blocks-step fuel n [] stream rest has e e' = ground (arith)
  xor_blocks-step fuel n (x ∷ d) stream rest has e e' = rw (xor_blocks, e, e') refl

  xor_blocks-twice :
      (fuel n : ℕ) (d : List ℕ)
      → length d ≤ fuel
      → AllBytes d
      → (c : List ℕ) × (xor_blocks fuel n aes key nonce d ≡ some c)
        × (xor_blocks fuel n aes key nonce c ≡ some d)
        × (length c ≡ length d)
  unfolding xor_blocks
  xor_blocks-twice fuel n [] enough h = ([], refl, refl, refl)
  xor_blocks-twice zero n (x ∷ d) enough h = ground (arith)
  xor_blocks-twice (suc fuel) n (x ∷ d) enough h =
      let all = x ∷ d in
      let fewer = length-drop 16 all in
      let size = length-take 16 all in
      let (rest, there, back, same) =
        xor_blocks-twice fuel (n + 1) (drop 16 all) (omega (arith, fewer))
          (AllBytes-drop 16 all h) in
      let (stream, e, _, ok) = works (counter n) in
      let block = xor_bytes (take 16 all) stream in
      let len = length-xor_bytes (take 16 all) stream in
      let whole = full-or-last all rest same in
      let whole' : (length block ≡ 16) ⊎ (rest ≡ []) = elim whole [
        | inl y ↦ inl (len ∙ y)
        | inr r ↦ inr r
      ] in
      let short : length block ≤ 16 = ground (arith, len, size) in
      let taken = take-whole 16 block rest whole' short in
      let dropped = drop-whole 16 block rest whole' short in
      let sum = length-append block rest in
      let twice = xor_bytes-twice (take 16 all) stream (AllBytes-take 16 all h) ok in
      let size' : length (block ++ rest) ≡ suc (length d) =
        ground (arith, sum, len, size, same, fewer) in
      (
        block ++ rest,
        xor_blocks-step fuel n all stream rest (omega arith) e there,
        xor_blocks-step fuel n (block ++ rest) stream (drop 16 all) (omega (arith, size')) e
              (ap (xor_blocks fuel (n + 1) aes key nonce) dropped ∙ back)
            ∙ ap (λ b. some (xor_bytes b stream ++ drop 16 all)) taken
            ∙ ap (λ b. some (b ++ drop 16 all)) twice
            ∙ ap some (take-append-drop 16 all),
        size',
      )

  tag_blocks-some :
      (fuel : ℕ) (tag d : List ℕ)
      → length d ≤ fuel
      → length tag ≡ 16
      → AllBytes tag
      → (out : List ℕ) × (tag_blocks fuel aes key tag d ≡ some out)
        × (length out ≡ 16)
        × AllBytes out
  unfolding tag_blocks
  tag_blocks-some fuel tag [] enough long ok = (tag, refl, long, ok)
  tag_blocks-some zero tag (x ∷ d) enough long ok = ground (arith)
  tag_blocks-some (suc fuel) tag (x ∷ d) enough long ok =
      let fewer = length-drop 16 (x ∷ d) in
      let (next, e, long', ok') = works (xor_bytes tag (take 16 (x ∷ d))) in
      let (out, e', long'', ok'') =
        tag_blocks-some fuel next (drop 16 (x ∷ d)) (omega (arith, fewer)) long' ok' in
      (out, rw e e', long'', ok'')

  ccm_tag-some :
      (aad d : List ℕ)
      → (out : List ℕ) × (ccm_tag aes key nonce aad d ≡ some out) × (length out ≡ 16) × AllBytes out
  unfolding ccm_tag
  ccm_tag-some aad d =
      let (start, e1, _, _) =
        works (0x69 ∷ (nonce ++ u8 (length d / 2 ^ 8) ∷ u8 (length d) ∷ [])) in
      let (tag, e2, long, ok) = works (xor_bytes start (0 ∷ 2 ∷ byte aad 0 ∷ byte aad 1 ∷ [])) in
      let (out, e3, long', ok') = tag_blocks-some (length d) tag d (omega arith) long ok in
      let (block, e4, _, ok4) = works (1 ∷ (nonce ++ 0 ∷ 0 ∷ [])) in
      (
        xor_bytes out (take 12 block),
        rw (e1, e2, e3, e4) refl,
        length-xor_bytes out (take 12 block) ∙ long',
        xor_bytes-AllBytes out (take 12 block) ok' (AllBytes-take 12 block ok4),
      )

  -- With a block cipher that never fails and gives 16 bytes, od_ccm encrypts a payload of at most
  -- 214 bytes, with room for a tag of 12 behind it, into 12 bytes more, and decrypts the result with
  -- the same key, nonce and associated data to the same payload; both report success.
  pub od_ccm-decrypts :
      (aad plain room : List ℕ)
      → length plain ≤ 214
      → length room ≡ 12
      → AllBytes plain
      → (sealed : List ℕ) × (od_ccm aes key nonce aad (plain ++ room) (length plain) false
          ≡ (true, sealed))
        × (length sealed ≡ length plain + 12)
        × (od_ccm aes key nonce aad sealed (length plain) true
            ≡ (true, plain ++ drop (length plain) sealed))
  unfolding od_ccm ccm_encrypt ccm_decrypt ccm_xor
  od_ccm-decrypts aad plain room short size bytes =
      let (tag, t, long, ok) = ccm_tag-some aad plain in
      let (cipher, there, back, same) =
        xor_blocks-twice (length plain) 1 plain (omega arith) bytes in
      let fits : ltb 214 (length plain) ≡ false = ground (arith) in
      let sum = length-append plain room in
      let past = length-drop (length plain + 12) (plain ++ room) in
      let gone =
        no_bytes (drop (length plain + 12) (plain ++ room)) (omega (arith, past, sum, size)) in
      let front = take_exact (length plain) plain room refl in
      let sealed = cipher ++ (take 12 tag ++ []) in
      let front' = take_exact (length plain) cipher (take 12 tag ++ []) same in
      let behind = drop_exact (length plain) cipher (take 12 tag ++ []) same in
      let equal = same_bytes-take 12 tag [] ok (omega (arith, long)) in
      (
        sealed,
        rw (od_ccm, fits, ccm_encrypt, ccm_xor, front, t, there, gone) refl,
        (let a = length-append cipher (take 12 tag ++ []) in
            let b = length-append (take 12 tag) [] in
            let c = length-take 12 tag in ground (arith, a, b, c, same, long)),
        rw (od_ccm, fits, ccm_decrypt, ccm_xor, front', same, back, t, behind, equal) refl,
      )
