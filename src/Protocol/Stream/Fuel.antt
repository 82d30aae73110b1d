-- ===== src/Protocol/Stream/Fuel.antt =====
-- The loop of `stream` in protocol.c, round by round and without fuel.
use greentags_lt213a_opendis.Prelude.{
  Bool, Bool-cases, List, Status, [], arith, done, ebadmsg, fail, failed, false, if◌then◌else◌, inl,
  inr, length, ltb, refl, subst, suc, sym, true, zero, ℕ, ◌+◌, ◌<◌, ◌^◌, ◌||◌, ◌∷◌, ◌≡◌, ◌≤◌, ◌⊎◌,
}
use greentags_lt213a_opendis.Protocol.Base.{
  System, World, ZlibStatus, needs_input, output_ready, finished, error,
}
use greentags_lt213a_opendis.Protocol.Stream.{
  write_panel, drain, stream_zlib, room, add_received, after_poll, is_error,
}

module _ {Z F W : Type 0} (sys : System Z F W) where
  -- A round: what the decompressor says and gives, and the panel's answer.
  abbrev polled : World Z F W → ZlibStatus × List ℕ × World Z F W
  polled w =
      let (status, out, z) = sys.zlib.poll 32 w.inflater in (status, out, record w { inflater = z })

  abbrev written : World Z F W → Status × World Z F W
  written w = let (_, out, w') = polled w in write_panel sys out w'

  abbrev next : World Z F W → World Z F W
  next w =
      let w' = (written w).1 in record w' { proto = add_received (length (polled w).1) w'.proto }

  abbrev refused : World Z F W → Bool
  refused w = is_error (polled w).0 || ltb (room w.proto) (length (polled w).1)

  -- The loop ends in a round with its result, or the next round starts.
  pub data Rounds (final : Bool) : World Z F W → Status × World Z F W → Type 0 where
    refuses : {w : World Z F W} → refused w ≡ true → Rounds final w (fail ebadmsg, (polled w).2)
    breaks :
        {w : World Z F W}
        → refused w ≡ false
        → failed (written w).0 ≡ true
        → Rounds final w (written w)
    ends :
        {w : World Z F W}
        → refused w ≡ false
        → failed (written w).0 ≡ false
        → (polled w).0 ≡ finished
        → Rounds final w (done, record (next w) { proto = record (next w).proto { zdone = true } })
    waits :
        {w : World Z F W}
        → refused w ≡ false
        → failed (written w).0 ≡ false
        → (polled w).0 ≡ needs_input
        → Rounds final w (if final then fail ebadmsg else done, next w)
    goes_on :
        {w : World Z F W} {r : Status × World Z F W}
        → refused w ≡ false
        → failed (written w).0 ≡ false
        → (polled w).0 ≡ output_ready
        → Rounds final (next w) r
        → Rounds final w r

  write_panel-proto :
      (bytes : List ℕ) (w : World Z F W) → (write_panel sys bytes w).1.proto ≡ w.proto
  unfolding write_panel
  write_panel-proto [] w = refl
  write_panel-proto (x ∷ bytes) w = refl

  -- A round that is not refused nor broken, by its status.
  after_poll-Rounds :
      (final : Bool) (w : World Z F W) (again : Status × World Z F W) (status : ZlibStatus)
      → refused w ≡ false
      → failed (written w).0 ≡ false
      → (polled w).0 ≡ status
      → (status ≡ output_ready → Rounds final (next w) again)
      → Rounds final w (after_poll sys status final (next w) again)
  after_poll-Rounds final w again finished fits good at more = ends fits good at
  after_poll-Rounds final w again needs_input fits good at more = waits fits good at
  after_poll-Rounds final w again output_ready fits good at more = goes_on fits good at (more refl)
  after_poll-Rounds final w again error fits good at more = ground (arith)

  next-proto : (w : World Z F W) → (next w).proto ≡ add_received (length (polled w).1) w.proto
  next-proto w = rw (write_panel-proto (polled w).1 (polled w).2) refl

  -- What a round gives fits.
  room-fits :
      (w : World Z F W)
      → w.proto.received ≤ w.proto.expected
      → w.proto.expected < 2 ^ 32
      → refused w ≡ false
      → w.proto.received + length (polled w).1 ≤ w.proto.expected
  room-fits w low small fits = ground (arith)

  module _
      (fills : (z : Z)
        → (sys.zlib.poll 32 z).0 ≡ output_ready
        → 0 < length (sys.zlib.poll 32 z).1) where
    drain-Rounds :
        (fuel : ℕ) (final : Bool) (w : World Z F W)
        → w.proto.received ≤ w.proto.expected
        → w.proto.expected < 2 ^ 32
        → room w.proto < fuel
        → Rounds final w (drain sys fuel final w)
    unfolding drain
    drain-Rounds zero final w low small enough = ground (arith)
    drain-Rounds (suc fuel) final w low small enough =
        let again = drain sys fuel final (next w) in
        let more : refused w ≡ false → (polled w).0 ≡ output_ready → Rounds final (next w) again =
          λ fits at.
            let sum = room-fits w low small fits in
            let some_out = fills w.inflater at in
            drain-Rounds fuel final (next w)
              (subst (λ p. p.received ≤ p.expected) (sym (next-proto w)) (omega (arith, sum)))
              (subst (λ p. p.expected < 2 ^ 32) (sym (next-proto w)) small)
              (subst (λ p. room p < fuel) (sym (next-proto w)) (omega (arith, sum, some_out))) in
        elim (Bool-cases (refused w)) [
          | inl y ↦ rw (y, drain) (refuses y)
          | inr fits ↦ elim (Bool-cases (failed (written w).0)) [
            | inl bad ↦ rw (fits, bad, drain) (breaks fits bad)
            | inr good ↦
                rw (fits, good, drain)
                  (after_poll-Rounds final w again (polled w).0 fits good refl (more fits))
          ]
        ]

    -- With a decompressor that reports output only when it gives some, and the bytes received at
    -- most the bytes expected, below 2^32: the decompressing branch of stream reports -EBADMSG and
    -- does nothing more if the decompressor refuses the input, and otherwise what it returns is the
    -- result of the unbounded loop, which therefore ends.
    pub stream_zlib-Rounds :
        (bytes : List ℕ) (final : Bool) (w : World Z F W)
        → w.proto.received ≤ w.proto.expected
        → w.proto.expected < 2 ^ 32
        → let (status, z) = sys.zlib.push bytes final w.inflater in
          let pushed : World Z F W = record w { inflater = z } in
          ((is_error status ≡ true) × (stream_zlib sys bytes final w ≡ (fail ebadmsg, pushed)))
          ⊎ ((is_error status ≡ false) × Rounds final pushed (stream_zlib sys bytes final w))
    unfolding stream_zlib
    stream_zlib-Rounds bytes final w low small =
        elim (Bool-cases (is_error (sys.zlib.push bytes final w.inflater).0)) [
          | inl bad ↦ inl (bad, rw bad refl)
          | inr ok ↦
              inr (ok, rw ok (drain-Rounds (suc (room w.proto)) final _ low small (omega arith)))
        ]
