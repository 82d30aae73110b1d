-- ===== src/Protocol/Window.antt =====
-- The window of the pipe in protocol.c: the frames that `sack` names, and the retransmissions.
use greentags_lt213a_opendis.Prelude.{
  Bool, Bool-cases, all_below, all_below_sound, arith, if◌then◌else◌, inl, inr, ltb, not, refl,
  sub8, true, u8, ℕ, ◌%◌, ◌+◌, ◌-◌, ◌/◌, ◌<◌, ◌==◌, ◌^◌, ◌↔◌, ◌≡◌, ◌≤◌,
}
use greentags_lt213a_opendis.Protocol.Base.{Protocol}
use greentags_lt213a_opendis.Protocol.Transfer.{sack_mask}
use greentags_lt213a_opendis.Protocol.PipeCommands.{is_repeat}

-- Bit `i` of a number.
abbrev pub bit : ℕ → ℕ → Bool
bit m i = m / 2 ^ i % 2 == 1

-- Frame `k` before the last one of `n` frames, by its number on the wire.
abbrev pub seq_before : ℕ → ℕ → ℕ
seq_before n k = u8 (n - 1 - k)

-- A frame is taken for a retransmission exactly when it has the number of one of the last 33 frames.
behind-lt : (a b : ℕ) → a < 256 → b < 256 → sub8 a b < 256
behind-lt a b small small' = omega arith

-- When the next sequence number is the frame count modulo 256, a sequence number counts as a
-- retransmission exactly when it belongs to one of the last 33 frames that arrived.
pub is_repeat_iff :
    (p : Protocol) (seq : ℕ)
    → p.next_seq ≡ u8 p.pipe_frames
    → seq < 256
    → is_repeat p seq ≡ true
      ↔ ((k : ℕ) × (k < 33) × (k < p.pipe_frames) × (seq ≡ seq_before p.pipe_frames k))
unfolding is_repeat
is_repeat_iff p seq at byte_sized = (
  (λ h. let b = sub8 p.next_seq seq in (b - 1, ground (arith), ground (arith), ground (arith))),
  λ (k, few, old, same). ground (arith),
)

bit_is : ℕ → ℕ → Bool
bit_is n i = if ltb (i + 1) n then bit (sack_mask n) i else not (bit (sack_mask n) i)

mask_small : all_below 34 (λ n. all_below 32 (bit_is n)) ≡ true
unfolding bit_is sack_mask
mask_small = refl

bit_is_small : (n i : ℕ) → n < 34 → i < 32 → bit_is n i ≡ true
bit_is_small n i few low =
    all_below_sound 32 (bit_is n) i
      (all_below_sound 34 (λ n. all_below 32 (bit_is n)) n mask_small few) low

mask_full : (n : ℕ) → 33 ≤ n → sack_mask n ≡ sack_mask 33
unfolding sack_mask
mask_full n many = ground (arith)

-- Bit i of the 32 bits that a selective acknowledgement carries is set exactly when at least i + 2
-- frames arrived, so that the frame i + 1 before the last one is among them.
pub sack_mask_iff : (n i : ℕ) → i < 32 → bit (sack_mask n) i ≡ true ↔ i + 1 < n
unfolding bit_is
sack_mask_iff n i low = elim (Bool-cases (ltb n 34)) [
  | inl few ↦ (let h = bit_is_small n i (ground (arith)) low in ground (arith, h))
  | inr many ↦
      let h = bit_is_small 33 i (omega arith) low in
      rw (mask_full n (ground (arith))) (ground (arith, h))
]
