-- ===== src/Security/Session/Exchange.antt =====
-- A frame from a host that has the session key, through `od_security_decrypt` of security.c.
use greentags_lt213a_opendis.Prelude.{
  Bool, List, [], ap, append_assoc, ap₂, arith, done, drop, drop-append, drop_exact, false, leb,
  length, length-append, length-drop, ltb, refl, replicate, some, subst, suc, sym, take, take_exact,
  true, zero, ℕ, ◌!=◌, ◌++◌, ◌+◌, ◌-◌, ◌<◌, ◌^◌, ◌∙◌, ◌∷◌, ◌≡◌, ◌≤◌,
}
use greentags_lt213a_opendis.Security.Crypto.{Aes, same_bytes, od_ccm}
use greentags_lt213a_opendis.Security.Crypto.RoundTrip.{AllBytes, xor_byte, od_ccm-decrypts}
use greentags_lt213a_opendis.Security.Session.{
  Security, session_of, read64, put64, is_replay, od_security_decrypt,
}
use greentags_lt213a_opendis.Security.Session.Counters.{read64-put64}
use greentags_lt213a_opendis.Security.Session.Window.{insert, Covers, is_replay-fresh}
use greentags_lt213a_opendis.Security.Session.Replay.{decrypt-Covers}

same_bytes-front :
    (n : ℕ) (id rest : List ℕ) → length id ≡ n → AllBytes id → same_bytes n (id ++ rest) id 0 ≡ 0
same_bytes-front zero id rest size h = refl
same_bytes-front (suc n) [] rest size h = absurd (omega (arith, size))
same_bytes-front (suc n) (x ∷ id) rest size (hx, h) =
    rw (xor_byte x x hx hx).2 (same_bytes-front n id rest (omega (arith, size)) h)

-- The header of a frame: the command, the session and the counter. The nonce is its end.
abbrev pub host_header : List ℕ → ℕ → ℕ → ℕ → List ℕ
host_header id counter a b = a ∷ b ∷ (id ++ put64 counter)

abbrev pub nonce_of : List ℕ → ℕ → List ℕ
nonce_of id counter = drop 3 (id ++ put64 counter)

pub length-nonce_of :
    (id : List ℕ) (counter : ℕ) → length id ≡ 8 → length (nonce_of id counter) ≡ 13
length-nonce_of id counter eight =
    let joined = length-append id (put64 counter) in
    let rest = length-drop 3 (id ++ put64 counter) in omega (arith, joined, rest, eight)

-- What a receiver finds in a frame: its length, what is sealed, the nonce, and the counter.
pub frame_parts :
    (id : List ℕ) (counter a b : ℕ) (sealed : List ℕ)
    → length id ≡ 8
    → counter < 2 ^ 64
    → let frame = host_header id counter a b ++ sealed in
      (length frame ≡ length sealed + 18)
      × (drop 18 frame ≡ sealed)
      × (take 13 (drop 5 frame) ≡ nonce_of id counter)
      × (read64 0 8 (drop 10 frame) ≡ counter)
frame_parts id counter a b sealed eight small =
    let tail = id ++ put64 counter in
    let apart = append_assoc id (put64 counter) sealed in
    let joined = length-append id (put64 counter) in
    let sixteen : length tail ≡ 16 = omega (arith, joined, eight) in
    let sum = length-append tail sealed in
    (
      omega (arith, sum, sixteen),
      drop_exact 16 tail sealed sixteen,
      ap (take 13) (drop-append 3 tail sealed (omega (arith, sixteen)))
          ∙ take_exact 13 (drop 3 tail) sealed (length-nonce_of id counter eight),
      ap (λ t. read64 0 8 (drop 8 t)) apart
          ∙ ap (read64 0 8) (drop_exact 8 id (put64 counter ++ sealed) eight)
          ∙ read64-put64 counter sealed small,
    )

-- The frame of a host: a header, and the payload with its length, sealed.
abbrev pub host_frame : Aes → List ℕ → List ℕ → ℕ → ℕ → ℕ → List ℕ → List ℕ
host_frame aes key id counter a b payload =
    let header = host_header id counter a b in
    header
    ++ (od_ccm aes key (drop 5 header) (a ∷ b ∷ []) ((length payload ∷ payload) ++ replicate 12 0)
        (suc (length payload)) false).1

-- What the checks of `od_security_decrypt` find in a frame that they let through.
decrypt-plain :
    (aes : Aes) (frame payload rest : List ℕ) (s : Security)
    → s.authenticated ≡ true
    → length frame ≡ length payload + 31
    → length payload ≤ 213
    → same_bytes 8 (drop 2 frame) s.id 0 ≡ 0
    → read64 0 8 (drop 10 frame) < 2 ^ 63
    → is_replay (read64 0 8 (drop 10 frame)) (session_of s.phase) ≡ false
    → od_ccm aes s.key
        (take 13 (drop 5 frame))
        (take 2 frame)
        (drop 18 frame)
        (length frame - 30)
        true
      ≡ (true, (length payload ∷ payload) ++ rest)
    → ((od_security_decrypt aes frame s).0 ≡ done)
      × ((od_security_decrypt aes frame s).1 ≡ take 2 frame ++ payload)
unfolding od_security_decrypt
decrypt-plain aes frame payload rest s valid size short mine small fresh plain =
    let front = take_exact (length payload) payload rest refl in
    let here : ltb (length frame) 31 ≡ false = ground (arith, size) in
    let fits : ltb 244 (length frame) ≡ false = ground (arith, size, short) in
    let below : leb (2 ^ 63) (read64 0 8 (drop 10 frame)) ≡ false = ground (arith, small) in
    let whole : (length payload != length frame - 31) ≡ false = ground (arith, size) in
    rw (plain, valid, here, fits, mine, below, fresh, whole, front) (refl, refl)

-- A header and what is sealed behind it.
sealed-plain :
    (aes : Aes) (s : Security) (counter a b : ℕ) (payload sealed rest : List ℕ)
    → s.authenticated ≡ true
    → length s.id ≡ 8
    → AllBytes s.id
    → length payload ≤ 213
    → counter < 2 ^ 63
    → is_replay counter (session_of s.phase) ≡ false
    → length sealed ≡ length payload + 13
    → od_ccm aes s.key (nonce_of s.id counter) (a ∷ b ∷ []) sealed (suc (length payload)) true
      ≡ (true, (length payload ∷ payload) ++ rest)
    → let frame = host_header s.id counter a b ++ sealed in
      (read64 0 8 (drop 10 frame) ≡ counter)
      × ((od_security_decrypt aes frame s).0 ≡ done)
      × ((od_security_decrypt aes frame s).1 ≡ a ∷ b ∷ payload)
sealed-plain aes s counter a b payload sealed rest valid eight id_bytes short small fresh size dec =
    let frame = host_header s.id counter a b ++ sealed in
    let (long, behind, same_nonce, number) =
      frame_parts s.id counter a b sealed eight (omega (arith, small)) in
    let mine : same_bytes 8 (drop 2 frame) s.id 0 ≡ 0 =
      ap (λ t. same_bytes 8 t s.id 0) (append_assoc s.id (put64 counter) sealed)
      ∙ same_bytes-front 8 s.id (put64 counter ++ sealed) eight id_bytes in
    let count : length frame - 30 ≡ suc (length payload) = omega (arith, long, size) in
    let opens =
      ap (λ n. od_ccm aes s.key n (a ∷ b ∷ []) (drop 18 frame) (length frame - 30) true) same_nonce
      ∙ ap₂ (λ d l. od_ccm aes s.key (nonce_of s.id counter) (a ∷ b ∷ []) d l true) behind count
      ∙ dec in
    let new = ap (λ c. is_replay c (session_of s.phase)) number ∙ fresh in
    let (taken, text) =
      decrypt-plain aes frame payload rest s valid (omega (arith, long, size)) short mine
        (omega (arith, number, small)) new opens in
    (number, taken, text)

-- With a block cipher that never fails and gives 16 bytes: a frame that a host seals with the key of
-- an open session, with a payload of at most 213 bytes and a counter below 2^63 that was not
-- accepted before and is less than 32 below the largest one, or above it, is taken by
-- od_security_decrypt, gives back the command and the payload, and adds the counter to the replay
-- window.
pub decrypt-opens :
    (aes : Aes) (s : Security)
    → ((block : List ℕ)
        → (out : List ℕ) × (aes s.key block ≡ some out) × (length out ≡ 16) × AllBytes out)
    → (seen : ℕ → Bool) (counter a b : ℕ) (payload : List ℕ) → s.authenticated ≡ true
    → length s.id ≡ 8
    → AllBytes s.id
    → AllBytes payload
    → length payload ≤ 213
    → counter < 2 ^ 63
    → Covers seen (session_of s.phase)
    → seen counter ≡ false
    → (session_of s.phase).rx_counter < counter + 32
    → let r = od_security_decrypt aes (host_frame aes s.key s.id counter a b payload) s in
      (r.0 ≡ done) × (r.1 ≡ a ∷ b ∷ payload) × Covers (insert counter seen) (session_of r.2.phase)
decrypt-opens aes s works seen counter a b payload valid eight id_bytes bytes short small h fresh
      recent =
    let plain = length payload ∷ payload in
    let (sealed, enc, size, dec) =
      od_ccm-decrypts aes s.key (nonce_of s.id counter) works (a ∷ b ∷ []) plain (replicate 12 0)
        (omega (arith, short)) refl (omega (arith, short), bytes) in
    let frame = host_header s.id counter a b ++ sealed in
    let Opens : List ℕ → Type 0 = λ f.
      let r = od_security_decrypt aes f s in
      (r.0 ≡ done)
      × (r.1 ≡ a ∷ b ∷ payload)
      × Covers (insert counter seen) (session_of r.2.phase) in
    let same = ap (λ r. host_header s.id counter a b ++ r.1) enc in
    let new = is_replay-fresh seen counter (session_of s.phase) h fresh recent in
    let (number, taken, text) =
      sealed-plain aes s counter a b payload sealed (drop (length plain) sealed) valid eight
        id_bytes short small new (omega (arith, size)) dec in
    let (_, next) = decrypt-Covers aes frame s seen h taken in
    let Next : ℕ → Type 0 =
      λ c. Covers (insert c seen) (session_of (od_security_decrypt aes frame s).2.phase) in
    subst Opens (sym same) (taken, text, subst Next number next)
