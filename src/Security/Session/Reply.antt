-- ===== src/Security/Session/Reply.antt =====
-- A frame of the device, from `od_security_encrypt` of security.c to a host that has the session key, and
-- back to the device itself.
use greentags_lt213a_opendis.Prelude.{
  Bool, Bool-cases, List, [], ap, append-nil, ap₂, arith, byte, done, drop, eacces, fail, false,
  inl, inr, leb, length, ltb, not, refl, replicate, some, subst, suc, sym, take, take_exact, true,
  u8, ℕ, ◌!=◌, ◌++◌, ◌+◌, ◌-◌, ◌<◌, ◌==◌, ◌^◌, ◌||◌, ◌∙◌, ◌∷◌, ◌≡◌, ◌≢◌, ◌≤◌,
}
use greentags_lt213a_opendis.Security.Crypto.{Aes, same_bytes, od_ccm}
use greentags_lt213a_opendis.Security.Crypto.RoundTrip.{AllBytes, od_ccm-decrypts}
use greentags_lt213a_opendis.Security.Session.{
  Security, session_of, read64, od_security_decrypt, od_security_encrypt,
}
use greentags_lt213a_opendis.Security.Session.Exchange.{
  host_header, nonce_of, length-nonce_of, frame_parts,
}
use greentags_lt213a_opendis.Security.Session.Phases.{Secured, IsTagged, secured-IsTagged}

-- What a host reads: whether the tag is right, and the payload.
abbrev pub host_reads : Aes → List ℕ → List ℕ → Bool × List ℕ
host_reads aes key frame =
    let (ok, buffer) =
      od_ccm aes key (take 13 (drop 5 frame)) (take 2 frame) (drop 18 frame) (length frame - 30)
        true in
    (ok, take (byte buffer 0) (drop 1 buffer))

-- A counter of the upper half is refused, in every state.
refused_half :
    (aes : Aes) (frame : List ℕ) (s : Security)
    → 2 ^ 63 ≤ read64 0 8 (drop 10 frame)
    → od_security_decrypt aes frame s ≡ (fail eacces, frame, s)
unfolding od_security_decrypt
refused_half aes frame s high =
    let len = length frame in
    let half : leb (2 ^ 63) (read64 0 8 (drop 10 frame)) ≡ true = ground (arith, high) in
    let closed =
      not s.authenticated || ltb len 31 || ltb 244 len || same_bytes 8 (drop 2 frame) s.id 0 != 0 in
    elim (Bool-cases closed) [ inl y ↦ rw y refl | inr n ↦ rw (n, half) refl ]

-- The frame that an encryption gives.
encrypt-framed :
    (aes : Aes) (a b : ℕ) (payload sealed : List ℕ) (capacity : ℕ) (s : Security)
    → s.authenticated ≡ true
    → length s.id ≡ 8
    → length payload ≤ 213
    → length payload + 31 ≤ capacity
    → (session_of s.phase).tx_counter < 2 ^ 64 - 1
    → let counter = (session_of s.phase).tx_counter in
      od_ccm aes s.key
          (nonce_of s.id counter)
          (a ∷ b ∷ [])
          ((length payload ∷ payload) ++ replicate 12 0)
          (suc (length payload))
          false
        ≡ (true, sealed)
      → let r = od_security_encrypt aes (a ∷ b ∷ payload) capacity s in
        (r.0 ≡ done) × (r.1 ≡ host_header s.id counter a b ++ sealed)
unfolding od_security_encrypt
encrypt-framed aes a b payload sealed capacity s valid eight short fits left enc =
    let counter = (session_of s.phase).tx_counter in
    let plain = a ∷ b ∷ payload in
    let size : u8 (length plain - 2) ≡ length payload = omega (arith, short) in
    let count : length plain - 1 ≡ suc (length payload) = omega arith in
    let nonce : take 13 (nonce_of s.id counter) ≡ nonce_of s.id counter =
      ap (take 13) (sym (append-nil (nonce_of s.id counter)))
      ∙ take_exact 13 (nonce_of s.id counter) [] (length-nonce_of s.id counter eight) in
    let call =
      ap
        (λ n.
          od_ccm aes s.key n (a ∷ b ∷ []) ((u8 (length plain - 2) ∷ payload) ++ replicate 12 0)
            (length plain - 1) false)
        nonce
      ∙ ap₂
          (λ l c.
            od_ccm aes s.key (nonce_of s.id counter) (a ∷ b ∷ []) ((l ∷ payload) ++ replicate 12 0)
              c false)
          size count
      ∙ enc in
    let some_bytes : ltb (length plain) 2 ≡ false = ground arith in
    let few : ltb 215 (length plain) ≡ false = ground (arith, short) in
    let room : ltb capacity (length plain + 29) ≡ false = ground (arith, fits) in
    let more : (counter == 2 ^ 64 - 1) ≡ false = ground (arith, left) in
    rw (call, valid, some_bytes, few, room, more) (refl, refl)

-- What the host reads in a frame with these parts.
host_reads-plain :
    (aes : Aes) (key id : List ℕ) (counter a b : ℕ) (payload sealed rest : List ℕ)
    → length id ≡ 8
    → counter < 2 ^ 64
    → length sealed ≡ length payload + 13
    → od_ccm aes key (nonce_of id counter) (a ∷ b ∷ []) sealed (suc (length payload)) true
      ≡ (true, (length payload ∷ payload) ++ rest)
    → host_reads aes key (host_header id counter a b ++ sealed) ≡ (true, payload)
host_reads-plain aes key id counter a b payload sealed rest eight small size dec =
    let frame = host_header id counter a b ++ sealed in
    let (long, behind, same_nonce, _) = frame_parts id counter a b sealed eight small in
    let count : length frame - 30 ≡ suc (length payload) = omega (arith, long, size) in
    let opens =
      ap (λ n. od_ccm aes key n (a ∷ b ∷ []) (drop 18 frame) (length frame - 30) true) same_nonce
      ∙ ap₂ (λ d l. od_ccm aes key (nonce_of id counter) (a ∷ b ∷ []) d l true) behind count
      ∙ dec in
    ap (λ r. (r.0, take (byte r.1 0) (drop 1 r.1))) opens
    ∙ ap (λ t. (true, t)) (take_exact (length payload) payload rest refl)

-- With a block cipher that never fails and gives 16 bytes: in a state that the session code reaches,
-- with an open session whose counter for sending is not used up, od_security_encrypt seals a payload
-- of at most 213 bytes, if the buffer has room for 29 bytes more than the plain frame. A host with
-- the key gets command and payload back from the result, and od_security_decrypt of the device
-- refuses that result in every state.
pub encrypt-opens :
    (aes : Aes) (config device_id : List ℕ) {s : Security}
    → ((block : List ℕ)
        → (out : List ℕ) × (aes s.key block ≡ some out) × (length out ≡ 16) × AllBytes out)
    → Secured aes config device_id s
    → s.authenticated ≡ true
    → length s.id ≡ 8
    → (session_of s.phase).tx_counter ≢ 2 ^ 64 - 1
    → (a b capacity : ℕ) (payload : List ℕ) → AllBytes payload
    → length payload ≤ 213
    → length payload + 31 ≤ capacity
    → let r = od_security_encrypt aes (a ∷ b ∷ payload) capacity s in
      (r.0 ≡ done)
      × (take 2 r.1 ≡ a ∷ b ∷ [])
      × (host_reads aes s.key r.1 ≡ (true, payload))
      × ((later : Security) → od_security_decrypt aes r.1 later ≡ (fail eacces, r.1, later))
unfolding IsTagged
encrypt-opens aes config device_id {s} works secured valid eight left a b capacity payload bytes
      short fits =
    let counter = (session_of s.phase).tx_counter in
    let tagged = secured-IsTagged aes config device_id secured in
    let small : counter < 2 ^ 64 - 1 = ground (arith, tagged, valid, left) in
    let half : 2 ^ 63 ≤ counter = ground (arith, tagged, valid) in
    let plain = length payload ∷ payload in
    let (sealed, enc, size, dec) =
      od_ccm-decrypts aes s.key (nonce_of s.id counter) works (a ∷ b ∷ []) plain (replicate 12 0)
        (omega (arith, short)) refl (omega (arith, short), bytes) in
    let frame = host_header s.id counter a b ++ sealed in
    let (ok, same) =
      encrypt-framed aes a b payload sealed capacity s valid eight short fits small enc in
    let parts = frame_parts s.id counter a b sealed eight (omega (arith, small)) in
    let reads =
      host_reads-plain aes s.key s.id counter a b payload sealed (drop (length plain) sealed) eight
        (omega (arith, small)) (omega (arith, size)) dec in
    let refused : (later : Security)
        → od_security_decrypt aes frame later ≡ (fail eacces, frame, later) =
      λ later. refused_half aes frame later (omega (arith, half, parts)) in
    let Good : List ℕ → Type 0 = λ f.
      (take 2 f ≡ a ∷ b ∷ [])
      × (host_reads aes s.key f ≡ (true, payload))
      × ((later : Security) → od_security_decrypt aes f later ≡ (fail eacces, f, later)) in
    let (front, read, back) = subst Good (sym same) (refl, reads, refused) in
    (ok, front, read, back)
