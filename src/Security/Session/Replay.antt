-- ===== src/Security/Session/Replay.antt =====
-- The replay window of security.c when a counter is accepted.
use greentags_lt213a_opendis.Prelude.{
  Bool, Bool-cases, List, ap, arith, bit_or, digit, digit-shift, digit-shift_low, done, drop, false,
  if◌then◌else◌, inl, inr, leb, ltb, not, subst, suc, sym, true, u32, zero, ℕ, ◌*◌, ◌+◌, ◌-◌, ◌<◌,
  ◌==◌, ◌^◌, ◌||◌, ◌∙◌, ◌≡◌, ◌≤◌,
}
use greentags_lt213a_opendis.Security.Crypto.{Aes}
use greentags_lt213a_opendis.Security.Session.{
  Session, Security, session_of, sub64, read64, is_replay, advance, od_security_decrypt,
}
use greentags_lt213a_opendis.Security.Session.Window.{
  insert, as_digit, Covers, digit_one, moved, moved_zero, marked, is_replay-seen,
}

-- The digits of `replay` after a counter above all others.
abbrev moved_replay : ℕ → Session → ℕ
moved_replay counter w =
    if not w.rx_seen || leb 32 (sub64 counter w.rx_counter)
    then 1
    else bit_or (u32 (w.replay * 2 ^ sub64 counter w.rx_counter)) 1

newer_first : (counter : ℕ) (w : Session) → digit (moved_replay counter w) 0 ≡ 1
newer_first counter w =
    let h = moved_zero w.replay (sub64 counter w.rx_counter) in ground (arith, h)

newer_digit :
    (seen : ℕ → Bool) (counter : ℕ) (w : Session) (i : ℕ)
    → Covers seen w
    → counter < 2 ^ 63
    → not w.rx_seen || ltb w.rx_counter counter ≡ true
    → i < 32
    → 0 < i
    → i ≤ counter
    → digit (moved_replay counter w) i ≡ as_digit (seen (counter - i))
unfolding Covers
newer_digit seen counter w i (first, largest, digits, tiny) small newer low pos fits =
    let one = digit_one i pos in
    let a = sub64 counter w.rx_counter in
    elim (Bool-cases w.rx_seen) [
      | inr n ↦ (let no = first n (counter - i) in rw (n, no) one)
      | inl y ↦ elim (Bool-cases (leb 32 a)) [
        | inl far ↦
            (let no = largest y (counter - i) (ground (arith, y, newer, far)) in
              rw (y, far, no) one)
        | inr near ↦
            (let dist : a ≡ counter - w.rx_counter = ground (arith, y, newer) in
              let up = moved w.replay a i low pos in
              elim (Bool-cases (ltb i a)) [
                | inl below ↦
                    (let no = largest y (counter - i) (ground (arith, below, dist)) in
                      let z = digit-shift_low w.replay a i (ground (arith, below)) in
                      rw (y, near, no) (up ∙ z))
                | inr above ↦
                    (let z = digit-shift w.replay a i (ground (arith, above)) in
                      let told =
                        digits y (i - a) (ground (arith, low)) (ground (arith, dist, above)) in
                      let place : w.rx_counter - (i - a) ≡ counter - i =
                        ground (arith, dist, above, newer, y) in
                      rw (y, near) (up ∙ z ∙ told ∙ ap (λ c. as_digit (seen c)) place))
              ])
      ]
    ]

newer_above :
    (seen : ℕ → Bool) (counter c : ℕ) (w : Session)
    → Covers seen w
    → not w.rx_seen || ltb w.rx_counter counter ≡ true
    → counter < c
    → seen c ≡ false
unfolding Covers
newer_above seen counter c w (first, largest, digits, tiny) newer above =
    elim (Bool-cases w.rx_seen) [
      | inr n ↦ first n c
      | inl y ↦ largest y c (ground (arith, y, newer))
    ]

insert_other : (seen : ℕ → Bool) (counter c : ℕ) → ¬ (c ≡ counter) → insert counter seen c ≡ seen c
insert_other seen counter c other = ground (arith)

insert_same : (seen : ℕ → Bool) (counter c : ℕ) → c ≡ counter → insert counter seen c ≡ true
insert_same seen counter c same = ground (arith)

newer_all :
    (seen : ℕ → Bool) (counter : ℕ) (w : Session) (i : ℕ)
    → Covers seen w
    → counter < 2 ^ 63
    → not w.rx_seen || ltb w.rx_counter counter ≡ true
    → i < 32
    → i ≤ counter
    → digit (moved_replay counter w) i ≡ as_digit (insert counter seen (counter - i))
newer_all seen counter w zero h small newer low fits =
    newer_first counter w ∙ sym (ap as_digit (insert_same seen counter (counter - 0) (omega arith)))
newer_all seen counter w (suc i) h small newer low fits =
    newer_digit seen counter w (suc i) h small newer low (omega arith) fits
    ∙ sym (ap as_digit (insert_other seen counter (counter - suc i) (λ e. omega (arith, e))))

advance_newer :
    (seen : ℕ → Bool) (counter : ℕ) (w : Session)
    → Covers seen w
    → counter < 2 ^ 63
    → not w.rx_seen || ltb w.rx_counter counter ≡ true
    → Covers (insert counter seen) (advance counter w)
unfolding Covers advance
advance_newer seen counter w h small newer = rw newer (
  (λ e c. ground (arith)),
  (λ e c above.
      insert_other seen counter c (λ e. omega (arith, e, above))
      ∙ newer_above seen counter c w h newer above),
  (λ e i low fits. newer_all seen counter w i h small newer low fits),
  small,
)

older_digit :
    (seen : ℕ → Bool) (counter : ℕ) (w : Session) (i : ℕ)
    → Covers seen w
    → w.rx_seen ≡ true
    → counter ≤ w.rx_counter
    → w.rx_counter < counter + 32
    → i < 32
    → i ≤ w.rx_counter
    → digit (bit_or w.replay (2 ^ sub64 w.rx_counter counter)) i
      ≡ as_digit (insert counter seen (w.rx_counter - i))
unfolding Covers
older_digit seen counter w i (first, largest, digits, tiny) has old recent low fits =
    let b = sub64 w.rx_counter counter in
    let distance : b ≡ w.rx_counter - counter = omega arith in
    let mark = marked w.replay b i (omega (arith, distance)) low in
    elim (Bool-cases (i == b)) [
      | inl y ↦
          (let same = insert_same seen counter (w.rx_counter - i) (ground (arith, y, distance)) in
            let set : digit (bit_or w.replay (2 ^ b)) i ≡ 1 = ground (arith, y, mark) in
            set ∙ sym (ap as_digit same))
      | inr n ↦
          (let other =
              insert_other seen counter (w.rx_counter - i) (λ e. ground (arith, n, distance, e)) in
            let kept : digit (bit_or w.replay (2 ^ b)) i ≡ digit w.replay i =
              ground (arith, n, mark) in
            kept ∙ digits has i low fits ∙ sym (ap as_digit other))
    ]

advance_older :
    (seen : ℕ → Bool) (counter : ℕ) (w : Session)
    → Covers seen w
    → not w.rx_seen || ltb w.rx_counter counter ≡ false
    → w.rx_counter < counter + 32
    → Covers (insert counter seen) (advance counter w)
unfolding Covers advance
advance_older seen counter w h older recent =
    let has : w.rx_seen ≡ true = ground (arith, older) in
    let below : counter ≤ w.rx_counter = ground (arith, older) in
    rw older (
      (λ e c. ground (arith)),
      (λ e c above.
          insert_other seen counter c (λ e. omega (arith, e, above, below)) ∙ h.1 has c above),
      (λ e i low fits. older_digit seen counter w i h has below recent low fits),
      h.3,
    )

Covers-small : (seen : ℕ → Bool) (w : Session) → Covers seen w → w.rx_counter < 2 ^ 63
unfolding Covers
Covers-small seen w h = h.3

not_replay_recent :
    (counter : ℕ) (w : Session)
    → w.rx_counter < 2 ^ 63
    → not w.rx_seen || ltb w.rx_counter counter ≡ false
    → is_replay counter w ≡ false
    → w.rx_counter < counter + 32
unfolding is_replay
not_replay_recent counter w small older fine = ground (arith)

pub advance-Covers :
    (seen : ℕ → Bool) (counter : ℕ) (w : Session)
    → Covers seen w
    → counter < 2 ^ 63
    → is_replay counter w ≡ false
    → Covers (insert counter seen) (advance counter w)
advance-Covers seen counter w h small fine =
    elim (Bool-cases (not w.rx_seen || ltb w.rx_counter counter)) [
      | inl newer ↦ advance_newer seen counter w h small newer
      | inr older ↦
          advance_older seen counter w h older
            (not_replay_recent counter w (Covers-small seen w h) older fine)
    ]

-- A frame that is taken.
decrypt-taken :
    (aes : Aes) (frame : List ℕ) (s : Security)
    → (od_security_decrypt aes frame s).0 ≡ done
    → let counter = read64 0 8 (drop 10 frame) in
      let w = session_of s.phase in
      (counter < 2 ^ 63)
      × (is_replay counter w ≡ false)
      × (session_of (od_security_decrypt aes frame s).2.phase ≡ advance counter w)
unfolding od_security_decrypt
decrypt-taken aes frame s taken = (ground (arith), ground (arith), ground (arith))

fresh-taken :
    (seen : ℕ → Bool) (counter : ℕ) (w : Session)
    → Covers seen w
    → is_replay counter w ≡ false
    → seen counter ≡ false
fresh-taken seen counter w h fine = elim (Bool-cases (seen counter)) [
  | inr n ↦ n
  | inl y ↦ (let again = is_replay-seen seen counter w h y in ground (arith, again, fine))
]

-- When the replay window describes the set of the counters accepted so far, the counter of a frame
-- that od_security_decrypt takes is not in that set, and afterwards the window describes the set
-- with that counter added. So no counter is accepted twice in a session.
pub decrypt-Covers :
    (aes : Aes) (frame : List ℕ) (s : Security) (seen : ℕ → Bool)
    → Covers seen (session_of s.phase)
    → (od_security_decrypt aes frame s).0 ≡ done
    → let counter = read64 0 8 (drop 10 frame) in
      (seen counter ≡ false)
      × Covers (insert counter seen) (session_of (od_security_decrypt aes frame s).2.phase)
decrypt-Covers aes frame s seen h taken =
    let counter = read64 0 8 (drop 10 frame) in
    let (small, fine, next) = decrypt-taken aes frame s taken in
    (
      fresh-taken seen counter (session_of s.phase) h fine,
      subst (Covers (insert counter seen)) (sym next)
          (advance-Covers seen counter (session_of s.phase) h small fine),
    )
