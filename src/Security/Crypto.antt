-- ===== src/Security/Crypto.antt =====
-- crypto.c: AES-CMAC, and the CCM profile with a nonce of 13 bytes, 2 bytes of associated data and a
-- tag of 12 bytes. The block cipher `od_aes_block` is a parameter; a call that fails gives none.
pub mod RoundTrip
use greentags_lt213a_opendis.Prelude.{
  Bool, List, Option, [], bit_or, bit_xor, byte, drop, false, if◌then◌else◌, length, ltb, none,
  replicate, some, suc, take, true, u8, zero, ℕ, ◌*◌, ◌++◌, ◌+◌, ◌/◌, ◌==◌, ◌^◌, ◌∷◌,
}

abbrev pub Aes : Type 0
Aes = List ℕ → List ℕ → Option (List ℕ)

-- if (f(...)) goto done;
abbrev pub and_then : {A B : Type 0} → Option A → (A → Option B) → Option B
and_then none f = none
and_then (some a) f = f a

-- The bytes of a mask go into the first bytes of a block.
abbrev pub xor_bytes : List ℕ → List ℕ → List ℕ
xor_bytes [] mask = []
xor_bytes (x ∷ block) [] = x ∷ block
xor_bytes (x ∷ block) (k ∷ mask) = bit_xor x k ∷ xor_bytes block mask

-- The loop of `double_block` and its last byte.
abbrev pub shift_block : ℕ → List ℕ → List ℕ
shift_block carry [] = []
shift_block carry (x ∷ []) = u8 (bit_xor (x * 2) (carry * 0x87)) ∷ []
shift_block carry (x ∷ y ∷ block) = u8 (bit_or (x * 2) (y / 2 ^ 7)) ∷ shift_block carry (y ∷ block)

unfoldable pub double_block : List ℕ → List ℕ
double_block block = shift_block (byte block 0 / 2 ^ 7) block

abbrev pub zero_block : List ℕ
zero_block = replicate 16 0

-- The loop over the blocks before the last one: what the block and the input are after it. The input
-- gets shorter in each round.
unfoldable pub cmac_blocks : ℕ → Aes → List ℕ → List ℕ → List ℕ → Option (List ℕ × List ℕ)
cmac_blocks zero aes key block input = none
cmac_blocks (suc fuel) aes key block input =
    let rest : List ℕ → Option (List ℕ × List ℕ) =
      λ next. cmac_blocks fuel aes key next (drop 16 input) in
    if ltb 16 (length input)
    then and_then (aes key (xor_bytes block (take 16 input))) rest
    else some (block, input)

-- block[len] ^= 0x80
abbrev pub pad : ℕ → List ℕ → List ℕ
pad len block = xor_bytes block (replicate len 0 ++ 0x80 ∷ [])

unfoldable pub od_cmac : Aes → List ℕ → List ℕ → Option (List ℕ)
od_cmac aes key input = and_then (aes key zero_block) (λ first.
    and_then (cmac_blocks (length input + 1) aes key zero_block input) (λ (block, last).
      let subkey = double_block first in
      let short = ltb (length last) 16 in
      let padded = if short then pad (length last) block else block in
      aes key (xor_bytes (xor_bytes padded last) (if short then double_block subkey else subkey))))

-- The loop of `ccm_tag`, with a round of fuel for each byte.
unfoldable pub tag_blocks : ℕ → Aes → List ℕ → List ℕ → List ℕ → Option (List ℕ)
tag_blocks fuel aes key tag [] = some tag
tag_blocks zero aes key tag (x ∷ data_bytes) = none
tag_blocks (suc fuel) aes key tag (x ∷ data_bytes) =
    and_then (aes key (xor_bytes tag (take 16 (x ∷ data_bytes))))
      (λ next. tag_blocks fuel aes key next (drop 16 (x ∷ data_bytes)))

unfoldable pub ccm_tag : Aes → List ℕ → List ℕ → List ℕ → List ℕ → Option (List ℕ)
ccm_tag aes key nonce aad data_bytes =
    let len = length data_bytes in
    and_then (aes key (0x69 ∷ (nonce ++ u8 (len / 2 ^ 8) ∷ u8 len ∷ []))) (λ start.
      and_then (aes key (xor_bytes start (0 ∷ 2 ∷ byte aad 0 ∷ byte aad 1 ∷ []))) (λ tag.
        and_then (tag_blocks len aes key tag data_bytes) (λ tag.
          and_then (aes key (1 ∷ (nonce ++ 0 ∷ 0 ∷ [])))
            (λ block. some (xor_bytes tag (take 12 block))))))

-- The loop of `ccm_xor` from block `n` on.
unfoldable pub xor_blocks : ℕ → ℕ → Aes → List ℕ → List ℕ → List ℕ → Option (List ℕ)
xor_blocks fuel n aes key nonce [] = some []
xor_blocks zero n aes key nonce (x ∷ data_bytes) = none
xor_blocks (suc fuel) n aes key nonce (x ∷ data_bytes) =
    and_then (aes key (1 ∷ (nonce ++ u8 (n / 2 ^ 8) ∷ u8 n ∷ []))) (λ stream.
      and_then (xor_blocks fuel (n + 1) aes key nonce (drop 16 (x ∷ data_bytes)))
        (λ rest. some (xor_bytes (take 16 (x ∷ data_bytes)) stream ++ rest)))

unfoldable pub ccm_xor : Aes → List ℕ → List ℕ → List ℕ → Option (List ℕ)
ccm_xor aes key nonce data_bytes = xor_blocks (length data_bytes) 1 aes key nonce data_bytes

-- diff == 0, of the bytes of two tags
abbrev pub same_bytes : ℕ → List ℕ → List ℕ → ℕ → ℕ
same_bytes zero a b diff = diff
same_bytes (suc n) a b diff =
    same_bytes n (drop 1 a) (drop 1 b) (bit_or diff (bit_xor (byte a 0) (byte b 0)))

-- The buffer after a failure.
abbrev pub wiped : ℕ → List ℕ → List ℕ
wiped len buffer = replicate len 0 ++ drop len buffer

-- The buffer has `len` bytes of payload, and room for a tag behind them.
unfoldable pub ccm_encrypt : Aes → List ℕ → List ℕ → List ℕ → List ℕ → ℕ → Option (List ℕ)
ccm_encrypt aes key nonce aad buffer len =
    and_then (ccm_tag aes key nonce aad (take len buffer)) (λ tag.
      and_then (ccm_xor aes key nonce (take len buffer))
        (λ cipher. some (cipher ++ (take 12 tag ++ drop (len + 12) buffer))))

unfoldable pub ccm_decrypt : Aes → List ℕ → List ℕ → List ℕ → List ℕ → ℕ → Option (List ℕ)
ccm_decrypt aes key nonce aad buffer len =
    and_then (ccm_xor aes key nonce (take len buffer)) (λ plain.
      and_then (ccm_tag aes key nonce aad plain) (λ tag.
        if same_bytes 12 tag (drop len buffer) 0 == 0
        then some (plain ++ drop len buffer)
        else none))

-- Whether it succeeds, and the buffer afterwards.
unfoldable pub od_ccm : Aes → List ℕ → List ℕ → List ℕ → List ℕ → ℕ → Bool → Bool × List ℕ
od_ccm aes key nonce aad buffer len decrypt =
    let run = if decrypt then ccm_decrypt else ccm_encrypt in
    if ltb 214 len then (false, buffer) else elim (run aes key nonce aad buffer len) [
      | none ↦ (false, wiped len buffer)
      | some result ↦ (true, result)
    ]
