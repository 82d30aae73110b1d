-- ===== src/Security/Session/Phases.antt =====
-- The union of struct od_security, and who opens a session.
use greentags_lt213a_opendis.Prelude.{
  Bool, Bool-cases, List, Option-cases, Status, arith, done, drop, false, inl, inr, leb, length,
  refl, replicate, sub32, take, true, u8, ℕ, ◌++◌, ◌+◌, ◌-◌, ◌<◌, ◌^◌, ◌∷◌, ◌≡◌, ◌≤◌,
}
use greentags_lt213a_opendis.Config.Fields.{config_security}
use greentags_lt213a_opendis.Security.Crypto.{Aes, od_cmac, od_ccm}
use greentags_lt213a_opendis.Security.Session.Proof.{IsProof, proves-IsProof}
use greentags_lt213a_opendis.Security.Session.{
  Phase, handshake, session, Security, blank_session, session_of, challenge_of, challenge_time,
  od_security_reset, od_security_enabled, od_security_expire, key_of, derive, proves, auth_proof,
  auth_challenge, refill, od_security_auth, od_security_decrypt, od_security_encrypt, advance,
  put64,
}

abbrev pub is_session : Phase → Bool
is_session (handshake challenge started) = false
is_session (session s) = true

-- Whoever reads the union reads the member that was written: a session when one is open, whose counter
-- for sending is in its own half, and a challenge when one is pending.
unfoldable pub IsTagged : Security → Type 0
IsTagged s =
    (s.authenticated ≡ true → is_session s.phase ≡ true)
    × (s.authenticated ≡ true → 2 ^ 63 ≤ (session_of s.phase).tx_counter)
    × ((session_of s.phase).tx_counter < 2 ^ 64)
    × (s.pending ≡ true → is_session s.phase ≡ false)

module _ (aes : Aes) (config device_id : List ℕ) where
  -- What the rest of the firmware does with the state, at any time and with any input.
  pub data Secured : Security → Type 0 where
    zeroed : (s : Security) → Secured (od_security_reset s)
    expired : {s : Security} (now : ℕ) → Secured s → Secured (od_security_expire config now s).1
    greeted :
        {s : Security} (p : List ℕ) (now : ℕ) (drawn : Status × List ℕ)
        → Secured s
        → Secured (od_security_auth aes config p now device_id drawn s).1
    received :
        {s : Security} (frame : List ℕ) → Secured s → Secured (od_security_decrypt aes frame s).2
    sent :
        {s : Security} (plain : List ℕ) (capacity : ℕ)
        → Secured s
        → Secured (od_security_encrypt aes plain capacity s).2

  reset-IsTagged : (s : Security) → IsTagged (od_security_reset s)
  unfolding IsTagged od_security_reset
  reset-IsTagged s = ground (arith)

  expire-IsTagged :
      (now : ℕ) (s : Security) → IsTagged s → IsTagged (od_security_expire config now s).1
  unfolding od_security_expire
  expire-IsTagged now s h = ground (arith, reset-IsTagged s)

  challenge-IsTagged :
      (drawn : Status × List ℕ) (now : ℕ) (s : Security)
      → IsTagged (auth_challenge drawn now device_id s).1
  unfolding IsTagged auth_challenge od_security_reset
  challenge-IsTagged (err, drawn) now s = ground (arith)

  opened-IsTagged :
      (key id : List ℕ) (now : ℕ) (s : Security)
      → s.pending ≡ false
      → IsTagged (record s {
        key = key;
        id = id;
        phase = session (record blank_session { tx_counter = 2 ^ 63; started = now });
        authenticated = true;
      })
  unfolding IsTagged
  opened-IsTagged key id now s idle = ground (arith)

  proof-IsTagged :
      (p : List ℕ) (now : ℕ) (s : Security)
      → IsTagged s
      → s.pending ≡ false
      → IsTagged (auth_proof aes (key_of (config_security config)) p now device_id s).1
  unfolding auth_proof
  proof-IsTagged p now s h idle =
      let master = key_of (config_security config) in
      let challenge = challenge_of s.phase in
      elim (Option-cases (derive aes master challenge (take 16 p) device_id)) [
        | inl e ↦ ground (arith, e, reset-IsTagged s)
        | inr ((key, id, proof), e) ↦
            ground (arith, e, reset-IsTagged s, opened-IsTagged key id now s idle)
      ]

  refill-IsTagged : (now : ℕ) (s : Security) → IsTagged s → IsTagged (refill now s)
  unfolding IsTagged
  refill-IsTagged now s h = ground (arith)

  spent-IsTagged : (s : Security) → IsTagged s → IsTagged (record s { pending = false })
  unfolding IsTagged
  spent-IsTagged s h = ground (arith)

  auth-IsTagged :
      (p : List ℕ) (now : ℕ) (drawn : Status × List ℕ) (s : Security)
      → IsTagged s
      → IsTagged (od_security_auth aes config p now device_id drawn s).1
  unfolding od_security_auth
  auth-IsTagged p now drawn s h =
      let fresh = refill-IsTagged now s h in
      let s' = refill now s in
      let spent : Security = record s' { pending = false } in
      let ok = spent-IsTagged s' fresh in
      ground
        (arith, h, fresh, ok, challenge-IsTagged drawn now s', proof-IsTagged p now spent ok refl)

  decrypt-IsTagged :
      (frame : List ℕ) (s : Security) → IsTagged s → IsTagged (od_security_decrypt aes frame s).2
  unfolding od_security_decrypt advance IsTagged
  decrypt-IsTagged frame s h = ground (arith)

  encrypt-IsTagged :
      (plain : List ℕ) (capacity : ℕ) (s : Security)
      → IsTagged s
      → IsTagged (od_security_encrypt aes plain capacity s).2
  unfolding od_security_encrypt IsTagged
  encrypt-IsTagged plain capacity s h = ground (arith)

  -- Whatever messages, times and random bytes arrive: while a session is open the union holds a
  -- session, whose counter for sending is 2^63 or more and fits 64 bits, and while a challenge is
  -- pending it holds a challenge.
  pub secured-IsTagged : {s : Security} → Secured s → IsTagged s
  secured-IsTagged (zeroed s) = reset-IsTagged s
  secured-IsTagged (expired now r) = expire-IsTagged now _ (secured-IsTagged r)
  secured-IsTagged (greeted p now drawn r) = auth-IsTagged p now drawn _ (secured-IsTagged r)
  secured-IsTagged (received frame r) = decrypt-IsTagged frame _ (secured-IsTagged r)
  secured-IsTagged (sent plain capacity r) = encrypt-IsTagged plain capacity _ (secured-IsTagged r)

  -- In every state that the session code reaches, an encryption that reports no error carries the
  -- counter for sending, which is in the upper half of the 64-bit range, behind the first two bytes
  -- and the session's identity, and counts it up by one without wrapping.
  pub encrypt-fresh :
      (plain : List ℕ) (capacity : ℕ) {s : Security}
      → Secured s
      → (od_security_encrypt aes plain capacity s).0 ≡ done
      → let counter = (session_of s.phase).tx_counter in
        let (_, out, s') = od_security_encrypt aes plain capacity s in
        (2 ^ 63 ≤ counter)
        × ((session_of s'.phase).tx_counter ≡ counter + 1)
        × ((rest : List ℕ) × (out ≡ (take 2 plain ++ s.id ++ put64 counter) ++ rest))
  unfolding od_security_encrypt IsTagged
  encrypt-fresh plain capacity {s} r ok =
      let h = secured-IsTagged r in
      let header = take 2 plain ++ s.id ++ put64 (session_of s.phase).tx_counter in
      let payload = u8 (length plain - 2) ∷ drop 2 plain in
      let rest =
        (od_ccm aes s.key (take 13 (drop 5 header)) (take 2 header) (payload ++ replicate 12 0)
          (length plain - 1) false).1 in
      (ground (arith, h), ground (arith, h), (rest, ground (arith)))

  challenge-closed :
      (drawn : Status × List ℕ) (now : ℕ) (s : Security)
      → (auth_challenge drawn now device_id s).1.authenticated ≡ false
  unfolding auth_challenge od_security_reset
  challenge-closed (err, drawn) now s = ground (arith)

  proof-proves :
      (p : List ℕ) (now : ℕ) (s : Security)
      → s.authenticated ≡ false
      → let master = key_of (config_security config) in
        (auth_proof aes master p now device_id s).1.authenticated ≡ true
        → proves (od_cmac aes master (challenge_of s.phase ++ take 16 p ++ device_id)) (drop 16 p)
          ≡ true
  unfolding auth_proof od_security_reset
  proof-proves p now s closed opens = ground (arith)

  auth_opens :
      (p : List ℕ) (now : ℕ) (drawn : Status × List ℕ) (s : Security)
      → s.authenticated ≡ false
      → (od_security_auth aes config p now device_id drawn s).1.authenticated ≡ true
      → let master = key_of (config_security config) in
        (od_security_enabled config ≡ true)
        × ((refill now s).attempts < 10)
        × (s.pending ≡ true)
        × (length p ≡ 32)
        × (sub32 now (challenge_time s.phase) < 30000)
        × (proves (od_cmac aes master (challenge_of s.phase ++ take 16 p ++ device_id)) (drop 16 p)
            ≡ true)
  unfolding od_security_auth
  auth_opens p now drawn s closed opens =
      let s' = refill now s in
      let spent : Security = record s' { pending = false } in
      let proven = proof-proves p now spent in
      elim (Bool-cases (leb 60000 (sub32 now s.rate_time))) [
        | inl y ↦ ground (arith, y, challenge-closed drawn now s', proven)
        | inr n ↦ ground (arith, n, challenge-closed drawn now s', proven)
      ]

  -- When od_security_auth opens a session that was not open: security is on, fewer than ten attempts
  -- are counted, a challenge was pending and is less than 30 seconds old, and the message is a nonce
  -- and a proof: its last 16 bytes are, byte by byte, the CMAC, under the configured key, of
  -- challenge, nonce and device identity.
  pub auth-proves :
      (p : List ℕ) (now : ℕ) (drawn : Status × List ℕ) (s : Security)
      → s.authenticated ≡ false
      → (od_security_auth aes config p now device_id drawn s).1.authenticated ≡ true
      → let master = key_of (config_security config) in
        (od_security_enabled config ≡ true)
        × ((refill now s).attempts < 10)
        × (s.pending ≡ true)
        × (length p ≡ 32)
        × (sub32 now (challenge_time s.phase) < 30000)
        × IsProof (od_cmac aes master (challenge_of s.phase ++ take 16 p ++ device_id)) (drop 16 p)
  auth-proves p now drawn s closed opens =
      let (on, few, waiting, size, young, proven) = auth_opens p now drawn s closed opens in
      (on, few, waiting, size, young, proves-IsProof _ (drop 16 p) proven)
