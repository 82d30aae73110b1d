-- ===== src/Security/Tests.antt =====
-- The session at concrete inputs, with a block cipher that is a function of a few bytes.
use greentags_lt213a_opendis.Prelude.{
  List, Option, Status, [], ap, arith, byte, done, drop, eacces, fail, false, length, none, refl,
  replicate, some, sub32, suc, take, true, u8, zero, ℕ, ◌++◌, ◌+◌, ◌<◌, ◌^◌, ◌∷◌, ◌≡◌, ◌≤◌,
}
use greentags_lt213a_opendis.Config.Fields.{config_security}
use greentags_lt213a_opendis.Config.Packets.{config_packet, find_packet, stride}
use greentags_lt213a_opendis.Security.Crypto.{
  Aes, od_cmac, od_ccm, cmac_blocks, double_block, zero_block, ccm_encrypt, ccm_decrypt, ccm_tag,
  ccm_xor, tag_blocks, xor_blocks,
}
use greentags_lt213a_opendis.Security.Crypto.RoundTrip.{AllBytes, od_ccm-decrypts}
use greentags_lt213a_opendis.Security.Session.{
  handshake, Security, session_of, challenge_of, challenge_time, od_security_reset,
  od_security_enabled, key_of, derive, auth_proof, auth_challenge, refill, od_security_auth,
  od_security_encrypt, put64, blank_session, read64, is_replay, od_security_decrypt,
}
use greentags_lt213a_opendis.Security.Session.{session}
use greentags_lt213a_opendis.Security.Session.Window.{insert, Covers, blank-Covers}
use greentags_lt213a_opendis.Security.Session.Proof.{IsProof}
use greentags_lt213a_opendis.Security.Session.Replay.{decrypt-Covers}
use greentags_lt213a_opendis.Security.Session.Reply.{host_reads, encrypt-opens}
use greentags_lt213a_opendis.Security.Session.Exchange.{host_frame, decrypt-opens}
use greentags_lt213a_opendis.Security.Session.Phases.{
  IsTagged, Secured, zeroed, greeted, secured-IsTagged, encrypt-fresh, auth-proves,
}

abbrev toy_aes : Aes
toy_aes key block = some (replicate 16 (u8 (byte block 0 + byte block 15 + byte key 0)))

replicate-AllBytes : (n x : ℕ) → x < 256 → AllBytes (replicate n x)
replicate-AllBytes zero x h = tt
replicate-AllBytes (suc n) x h = (h, replicate-AllBytes n x h)

length-replicated : (n x : ℕ) → length (replicate n x) ≡ n
length-replicated zero x = refl
length-replicated (suc n) x = ap suc (length-replicated n x)

toy_works :
    (key block : List ℕ)
    → (out : List ℕ) × (toy_aes key block ≡ some out) × (length out ≡ 16) × AllBytes out
toy_works key block =
    let x = u8 (byte block 0 + byte block 15 + byte key 0) in
    (replicate 16 x, refl, length-replicated 16 x, replicate-AllBytes 16 x (omega arith))

-- 20 bytes: a whole block and a part of one.
od_ccm-decrypts_example :
    (sealed : List ℕ) × (od_ccm toy_aes
        (1 ∷ [])
        (replicate 13 4)
        (0 ∷ 0x71 ∷ [])
        (replicate 20 9 ++ replicate 12 0)
        20
        false
      ≡ (true, sealed))
    × (length sealed ≡ 20 + 12)
    × (od_ccm toy_aes (1 ∷ []) (replicate 13 4) (0 ∷ 0x71 ∷ []) sealed 20 true
        ≡ (true, replicate 20 9 ++ drop 20 sealed))
od_ccm-decrypts_example =
    od_ccm-decrypts toy_aes (1 ∷ []) (replicate 13 4) (toy_works (1 ∷ [])) (0 ∷ 0x71 ∷ [])
      (replicate 20 9) (replicate 12 0) (omega arith) refl (replicate-AllBytes 20 9 (omega arith))

-- A security packet that turns the session on, with its key.
abbrev secure_config : List ℕ
secure_config = 0 ∷ 0 ∷ 1 ∷ 0 ∷ 39 ∷ 1 ∷ (replicate 63 5 ++ 0 ∷ 0 ∷ [])

abbrev blank : Security
blank = record {
  key = zero_block;
  id = replicate 8 0;
  phase = handshake zero_block 0;
  rate_time = 0;
  attempts = 0;
  authenticated = false;
  pending = false;
}

abbrev device : List ℕ
device = 1 ∷ 2 ∷ 3 ∷ 4 ∷ []

abbrev drawn : Status × List ℕ
drawn = (done, replicate 16 3)

abbrev started_state : Security
started_state =
    (od_security_auth toy_aes secure_config (0 ∷ []) 100 device drawn (od_security_reset blank)).1

abbrev or_empty : Option (List ℕ) → List ℕ
or_empty none = []
or_empty (some bytes) = bytes

abbrev answer : List ℕ
answer =
    replicate 16 9
    ++ or_empty (od_cmac toy_aes (replicate 16 5) (replicate 16 3 ++ replicate 16 9 ++ device))

abbrev opened_state : Security
opened_state = (od_security_auth toy_aes secure_config answer 200 device drawn started_state).1

opened : opened_state.authenticated ≡ true
unfolding od_security_auth od_security_reset od_security_enabled config_security config_packet
    find_packet stride auth_challenge auth_proof derive od_cmac cmac_blocks double_block
opened = refl

waiting : started_state.authenticated ≡ false
unfolding od_security_auth od_security_reset od_security_enabled config_security config_packet
    find_packet stride auth_challenge
waiting = refl

auth-proves_example :
    (od_security_enabled secure_config ≡ true)
    × ((refill 200 started_state).attempts < 10)
    × (started_state.pending ≡ true)
    × (length answer ≡ 32)
    × (sub32 200 (challenge_time started_state.phase) < 30000)
    × IsProof
        (od_cmac toy_aes
          (key_of (config_security secure_config))
          (challenge_of started_state.phase ++ take 16 answer ++ device))
        (drop 16 answer)
auth-proves_example =
    auth-proves toy_aes secure_config device answer 200 drawn started_state waiting opened

opened_state-Secured : Secured toy_aes secure_config device opened_state
opened_state-Secured = greeted answer 200 drawn (greeted (0 ∷ []) 100 drawn (zeroed blank))

secured-IsTagged_example : IsTagged opened_state
secured-IsTagged_example = secured-IsTagged toy_aes secure_config device opened_state-Secured

seals : (od_security_encrypt toy_aes (0 ∷ 0x40 ∷ 7 ∷ []) 64 opened_state).0 ≡ done
unfolding od_security_auth od_security_reset od_security_enabled config_security config_packet
    find_packet stride auth_challenge auth_proof derive od_cmac cmac_blocks double_block
    od_security_encrypt od_ccm ccm_encrypt ccm_tag ccm_xor tag_blocks xor_blocks
seals = refl

encrypt-fresh_example :
    let counter = (session_of opened_state.phase).tx_counter in
    let (_, out, s') = od_security_encrypt toy_aes (0 ∷ 0x40 ∷ 7 ∷ []) 64 opened_state in
    (2 ^ 63 ≤ counter)
    × ((session_of s'.phase).tx_counter ≡ counter + 1)
    × ((rest : List ℕ) × (out
          ≡ (take 2 (0 ∷ 0x40 ∷ 7 ∷ []) ++ opened_state.id ++ put64 counter) ++ rest))
encrypt-fresh_example =
    encrypt-fresh toy_aes secure_config device (0 ∷ 0x40 ∷ 7 ∷ []) 64 opened_state-Secured seals

-- A session without frames so far, and the first frame, with counter 5 and no payload.
abbrev quiet : Security
quiet = record blank { authenticated = true; phase = session blank_session }

abbrev first_header : List ℕ
first_header = (0 ∷ 0x40 ∷ replicate 8 0) ++ put64 5

abbrev first_frame : List ℕ
first_frame =
    first_header
    ++ (od_ccm toy_aes zero_block (take 13 (drop 5 first_header)) (0 ∷ 0x40 ∷ []) (replicate 13 0) 1
        false).1

takes : (od_security_decrypt toy_aes first_frame quiet).0 ≡ done
unfolding od_security_decrypt read64 is_replay od_ccm ccm_encrypt ccm_decrypt ccm_tag ccm_xor
    tag_blocks xor_blocks
takes = refl

decrypt-Covers_example :
    let counter = read64 0 8 (drop 10 first_frame) in
    (false ≡ false)
    × Covers
        (insert counter (λ c. false))
        (session_of (od_security_decrypt toy_aes first_frame quiet).2.phase)
decrypt-Covers_example = decrypt-Covers toy_aes first_frame quiet (λ c. false) blank-Covers takes

-- The same session takes a frame of a host with a payload of two bytes.
decrypt-opens_example :
    let frame = host_frame toy_aes zero_block (replicate 8 0) 5 0 0x71 (7 ∷ 8 ∷ []) in
    let r = od_security_decrypt toy_aes frame quiet in
    (r.0 ≡ done)
    × (r.1 ≡ 0 ∷ 0x71 ∷ 7 ∷ 8 ∷ [])
    × Covers (insert 5 (λ c. false)) (session_of r.2.phase)
decrypt-opens_example =
    decrypt-opens toy_aes quiet (toy_works zero_block) (λ c. false) 5 0 0x71 (7 ∷ 8 ∷ []) refl refl
      (replicate-AllBytes 8 0 (omega arith)) (omega arith, (omega arith, tt)) (omega arith)
      (omega arith) blank-Covers refl (omega arith)

opened_state-IsFresh :
    (length opened_state.id ≡ 8) × ((session_of opened_state.phase).tx_counter ≡ 2 ^ 63)
unfolding od_security_auth od_security_reset od_security_enabled config_security config_packet
    find_packet stride auth_challenge auth_proof derive od_cmac cmac_blocks double_block
opened_state-IsFresh = (refl, refl)

encrypt-opens_example :
    let r = od_security_encrypt toy_aes (0 ∷ 0x40 ∷ 7 ∷ []) 64 opened_state in
    (r.0 ≡ done)
    × (take 2 r.1 ≡ 0 ∷ 0x40 ∷ [])
    × (host_reads toy_aes opened_state.key r.1 ≡ (true, 7 ∷ []))
    × ((later : Security) → od_security_decrypt toy_aes r.1 later ≡ (fail eacces, r.1, later))
encrypt-opens_example =
    encrypt-opens toy_aes secure_config device (toy_works opened_state.key) opened_state-Secured
      opened opened_state-IsFresh.0 (λ e. omega (arith, e, opened_state-IsFresh)) 0 0x40 64 (7 ∷ [])
      (omega arith, tt) (omega arith) (omega arith)
