-- ===== src/Security/Session.antt =====
-- security.c: the session with its handshake, its counters and its replay window. The configuration in
-- force, the block cipher and what the random source draws are parameters.
pub mod Proof
pub mod Phases
pub mod Window
pub mod Replay
pub mod Counters
pub mod Exchange
pub mod Reply
use greentags_lt213a_opendis.Prelude.{
  Bool, List, Option, Status, [], bit_and, bit_or, byte, done, drop, eacces, ealready, ebadmsg,
  einval, eio, fail, failed, false, if◌then◌else◌, leb, length, ltb, none, not, replicate, some,
  sub32, suc, take, true, u32, u8, zero, ℕ, ◌!=◌, ◌%◌, ◌&&◌, ◌*◌, ◌++◌, ◌+◌, ◌-◌, ◌/◌, ◌==◌, ◌^◌,
  ◌||◌, ◌∷◌,
}
use greentags_lt213a_opendis.Config.Fields.{config_security}
use greentags_lt213a_opendis.Security.Crypto.{
  Aes, and_then, same_bytes, zero_block, od_cmac, od_ccm,
}

abbrev pub u64 : ℕ → ℕ
u64 x = x % 2 ^ 64

-- a - b on uint64_t
abbrev pub sub64 : ℕ → ℕ → ℕ
sub64 a b = (a + 2 ^ 64 - b) % 2 ^ 64

-- The session member of the union.
pub record Session : Type 0 where
  pub rx_counter : ℕ
  pub tx_counter : ℕ
  pub replay : ℕ
  pub started : ℕ
  pub rx_seen : Bool

-- The union of struct od_security: the challenge and its time, or the session.
pub data Phase : Type 0 where
  handshake : List ℕ → ℕ → Phase
  session : Session → Phase

-- struct od_security
pub record Security : Type 0 where
  pub key : List ℕ
  pub id : List ℕ
  pub phase : Phase
  pub rate_time : ℕ
  pub attempts : ℕ
  pub authenticated : Bool
  pub pending : Bool

abbrev pub blank_session : Session
blank_session = record { rx_counter = 0; tx_counter = 0; replay = 0; started = 0; rx_seen = false }

-- What the code reads through one member of the union; the other member is never behind it.
abbrev pub session_of : Phase → Session
session_of (session s) = s
session_of (handshake challenge started) = blank_session

abbrev pub challenge_of : Phase → List ℕ
challenge_of (handshake challenge started) = challenge
challenge_of (session s) = zero_block

abbrev pub challenge_time : Phase → ℕ
challenge_time (handshake challenge started) = started
challenge_time (session s) = 0

unfoldable pub read64 : ℕ → ℕ → List ℕ → ℕ
read64 v zero p = v
read64 v (suc n) [] = v
read64 v (suc n) (x ∷ p) = read64 (bit_or (u64 (v * 256)) x) n p

-- The bytes of put64, the most significant first.
abbrev pub put64 : ℕ → List ℕ
put64 v =
    u8 (v / 2 ^ 56)
    ∷ u8 (v / 2 ^ 48)
    ∷ u8 (v / 2 ^ 40)
    ∷ u8 (v / 2 ^ 32)
    ∷ u8 (v / 2 ^ 24)
    ∷ u8 (v / 2 ^ 16)
    ∷ u8 (v / 2 ^ 8)
    ∷ u8 v
    ∷ []

-- The rate limiter survives.
unfoldable pub od_security_reset : Security → Security
od_security_reset s = record {
  key = zero_block;
  id = replicate 8 0;
  phase = handshake zero_block 0;
  rate_time = s.rate_time;
  attempts = s.attempts;
  authenticated = false;
  pending = false;
}

abbrev pub is_on : Option (List ℕ) → Bool
is_on none = false
is_on (some c) = byte c 0 == 1

unfoldable pub od_security_enabled : List ℕ → Bool
od_security_enabled config = is_on (config_security config)

-- uint32_t timeout
abbrev pub timeout_of : Option (List ℕ) → ℕ
timeout_of none = 0
timeout_of (some c) = u32 (bit_or (byte c 17) (byte c 18 * 2 ^ 8) * 1000)

unfoldable pub od_security_expire : List ℕ → ℕ → Security → Bool × Security
od_security_expire config now s =
    let timeout = timeout_of (config_security config) in
    if s.authenticated && timeout != 0 && leb timeout (sub32 now (session_of s.phase).started)
    then (true, od_security_reset s)
    else (false, s)

-- A response of three bytes.
abbrev pub auth_code : ℕ → List ℕ
auth_code code = 0 ∷ 0x50 ∷ code ∷ []

-- The key of the configuration: config + 1.
abbrev pub key_of : Option (List ℕ) → List ℕ
key_of none = []
key_of (some c) = take 16 (drop 1 c)

-- "OpenDisplay session"
abbrev pub label : List ℕ
label =
    0x4f ∷ 0x70 ∷ 0x65 ∷ 0x6e ∷ 0x44 ∷ 0x69 ∷ 0x73 ∷ 0x70 ∷ 0x6c ∷ 0x61 ∷ 0x79 ∷ 0x20 ∷ 0x73 ∷ 0x65
    ∷ 0x73 ∷ 0x73 ∷ 0x69 ∷ 0x6f ∷ 0x6e ∷ []

-- The secrets of a session: its key, its id, and the proof for the client.
unfoldable pub derive : Aes → List ℕ → List ℕ → List ℕ → List ℕ → Option (List ℕ × List ℕ × List ℕ)
derive aes master challenge nonce device_id =
    and_then
      (od_cmac aes master (label ++ (0 ∷ device_id) ++ nonce ++ challenge ++ (0 ∷ 0x80 ∷ [])))
      (λ seed. and_then (aes master ((replicate 7 0 ++ (1 ∷ [])) ++ take 8 seed)) (λ key.
        and_then (od_cmac aes key (nonce ++ challenge)) (λ id.
          and_then (od_cmac aes key (challenge ++ nonce ++ device_id))
            (λ proof. some (key, take 8 id, proof)))))

abbrev pub proves : Option (List ℕ) → List ℕ → Bool
proves none claim = false
proves (some proof) claim = same_bytes 16 claim proof 0 == 0

-- The second message: the client's nonce and proof. The challenge is spent already.
unfoldable pub auth_proof : Aes → List ℕ → List ℕ → ℕ → List ℕ → Security → List ℕ × Security
auth_proof aes master p now device_id s =
    let challenge = challenge_of s.phase in
    let nonce = take 16 p in
    if not (proves (od_cmac aes master (challenge ++ nonce ++ device_id)) (drop 16 p))
    then (auth_code 1, od_security_reset s)
    else elim (derive aes master challenge nonce device_id) [
      | none ↦ (auth_code 255, od_security_reset s)
      | some (key, id, proof) ↦ (
        auth_code 0 ++ proof,
        record s {
          key = key;
          id = id;
          phase = session (record blank_session { tx_counter = 2 ^ 63; started = now });
          authenticated = true;
        },
      )
    ]

-- The first message: a challenge, with what the random source gives.
unfoldable pub auth_challenge : Status × List ℕ → ℕ → List ℕ → Security → List ℕ × Security
auth_challenge (err, drawn) now device_id s =
    let s' = od_security_reset (record s { attempts = u8 (s.attempts + 1) }) in
    if failed err then (auth_code 255, record s' { phase = handshake drawn 0 }) else (
      auth_code 0 ++ drawn ++ device_id,
      record s' { phase = handshake drawn now; pending = true },
    )

-- A minute after the last one, the limiter starts again.
abbrev pub refill : ℕ → Security → Security
refill now s =
    if leb 60000 (sub32 now s.rate_time) then record s { attempts = 0; rate_time = now } else s

unfoldable pub od_security_auth :
    Aes → List ℕ → List ℕ → ℕ → List ℕ → Status × List ℕ → Security → List ℕ × Security
od_security_auth aes config p now device_id drawn s0 =
    let s = refill now s0 in
    let spent = record s { pending = false } in
    if not (od_security_enabled config)
    then (auth_code 3, s0)
    else if leb 10 s.attempts
    then (auth_code 4, s)
    else if length p == 1 && byte p 0 == 0
    then auth_challenge drawn now device_id s
    else if length p != 32 || not s.pending || leb 30000 (sub32 now (challenge_time s.phase))
    then (auth_code 255, spent)
    else auth_proof aes (key_of (config_security config)) p now device_id spent

-- The test of the counter against the window.
unfoldable pub is_replay : ℕ → Session → Bool
is_replay counter w =
    let behind = sub64 w.rx_counter counter in
    w.rx_seen && leb counter w.rx_counter && (leb 32 behind || bit_and w.replay (2 ^ behind) != 0)

-- The window with a counter that was accepted.
unfoldable pub advance : ℕ → Session → Session
advance counter w =
    let ahead = sub64 counter w.rx_counter in
    let behind = sub64 w.rx_counter counter in
    if not w.rx_seen || ltb w.rx_counter counter
    then record w {
      replay = if not w.rx_seen || leb 32 ahead then 1 else bit_or (u32 (w.replay * 2 ^ ahead)) 1;
      rx_counter = counter;
      rx_seen = true;
    }
    else record w { replay = bit_or w.replay (2 ^ behind); rx_seen = true }

-- The result, the frame afterwards, and the state.
unfoldable pub od_security_decrypt : Aes → List ℕ → Security → Status × List ℕ × Security
od_security_decrypt aes frame s =
    let len = length frame in
    let counter = read64 0 8 (drop 10 frame) in
    let w = session_of s.phase in
    let (ok, buffer) =
      od_ccm aes s.key (take 13 (drop 5 frame)) (take 2 frame) (drop 18 frame) (len - 30) true in
    if not s.authenticated || ltb len 31 || ltb 244 len || same_bytes 8 (drop 2 frame) s.id 0 != 0
    then (fail eacces, frame, s)
    else if leb (2 ^ 63) counter
    then (fail eacces, frame, s)
    else if is_replay counter w
    then (fail ealready, frame, s)
    else if not ok || byte buffer 0 != len - 31
    then (fail ebadmsg, take 18 frame ++ buffer, s)
    else (
      done,
      take 2 frame ++ take (byte buffer 0) (drop 1 buffer),
      record s { phase = session (advance counter w) },
    )

-- The result and the wire frame, in a buffer of `capacity` bytes.
unfoldable pub od_security_encrypt : Aes → List ℕ → ℕ → Security → Status × List ℕ × Security
od_security_encrypt aes plain capacity s =
    let len = length plain in
    let w = session_of s.phase in
    let header = take 2 plain ++ s.id ++ put64 w.tx_counter in
    let payload = u8 (len - 2) ∷ drop 2 plain in
    let (ok, buffer) =
      od_ccm aes s.key (take 13 (drop 5 header)) (take 2 header) (payload ++ replicate 12 0)
        (len - 1) false in
    let s' = record s { phase = session (record w { tx_counter = u64 (w.tx_counter + 1) }) } in
    if not s.authenticated
      || ltb len 2
      || ltb 215 len
      || ltb capacity (len + 29)
      || w.tx_counter == 2 ^ 64 - 1
    then (fail einval, [], s)
    else if ok
    then (done, header ++ buffer, s')
    else (fail eio, [], s')
