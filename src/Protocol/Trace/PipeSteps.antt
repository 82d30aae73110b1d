-- ===== src/Protocol/Trace/PipeSteps.antt =====
-- The steps of a pipe upload through `od_handle` of protocol.c.
use greentags_lt213a_opendis.Prelude.{
  Bool, Bool-cases, List, [], ap, arith, done, failed, false, inl, inr, length, length-append, ltb,
  refl, some, suc, true, u8, ℕ, ◌++◌, ◌+◌, ◌<◌, ◌∷◌, ◌≡◌, ◌≤◌,
}
use greentags_lt213a_opendis.Config.Flash.{FlashOps}
use greentags_lt213a_opendis.Protocol.Base.{Protocol, Zlib, System, World, frame_bytes, od_reset}
use greentags_lt213a_opendis.Protocol.Stream.{stream}
use greentags_lt213a_opendis.Protocol.Wire.{le}
use greentags_lt213a_opendis.Protocol.Transfer.{
  send, reply, od_abort, sack, refresh, finish_transfer,
}
use greentags_lt213a_opendis.Protocol.ConfigCommands.{cancel_config}
use greentags_lt213a_opendis.Protocol.DirectCommands.{set_compressed, set_active}
use greentags_lt213a_opendis.Protocol.PipeCommands.{
  pipe_open, pipe_start_full, bad_pipe_start, pipe_start, is_repeat, next_frame, pipe_next,
  pipe_data,
}
use greentags_lt213a_opendis.Protocol.Trace.{Event, Device, recorded}
use greentags_lt213a_opendis.Protocol.Window.{seq_before, is_repeat_iff}
use greentags_lt213a_opendis.Protocol.Trace.Display.{
  whole_frame, loaded, whole_image, add_bytes, opening, image, shown,
}
use greentags_lt213a_opendis.Protocol.Stream.{write_panel, stream_raw, room}
use greentags_lt213a_opendis.Protocol.Handle.{dispatch, od_handle}
use greentags_lt213a_opendis.Protocol.Trace.Moves.{
  Move, new_frame, again, pipe_start_frame, frame_of, IsChunk, IsMove,
}

module _ {Z F : Type 0} (zlib : Zlib Z) (flash : FlashOps F) (build_sha : List ℕ) (d : Device) where
  abbrev sys : System Z F (List Event)
  sys = recorded zlib flash build_sha d

  abbrev Run : Type 0
  Run = World Z F (List Event)

  -- `n` frames arrived, with these bytes, and the image is not complete.
  unfoldable pub Piping : List ℕ → ℕ → Run → Type 0
  Piping bytes n w =
      (w.proto.active ≡ true)
      × (w.proto.compressed ≡ false)
      × (w.proto.pipe ≡ true)
      × (w.proto.partial ≡ false)
      × (w.proto.pipe_failed ≡ false)
      × (w.proto.received ≡ length bytes)
      × (w.proto.expected ≡ frame_bytes)
      × (w.proto.pipe_frames ≡ n)
      × (w.proto.next_seq ≡ u8 n)
      × (w.proto.pipe_frame ≡ 244)
      × (n ≤ length bytes)
      × (loaded w.device ≡ whole_image bytes)

  module _ (yes : (h : List Event) → d.answer h ≡ done) where
    pub start-Piping : (w : Run) → Piping [] 0 (od_handle sys pipe_start_frame w).1
    unfolding Piping od_handle dispatch pipe_start bad_pipe_start pipe_start_full pipe_open od_abort
        od_reset cancel_config set_compressed set_active send le image opening
    start-Piping w = elim (Bool-cases w.proto.active) [
      | inl y ↦
          simp (y, yes)
            (refl, refl, refl, refl, refl, refl, refl, refl, refl, refl, omega arith, refl)
      | inr n ↦
          simp (n, yes)
            (refl, refl, refl, refl, refl, refl, refl, refl, refl, refl, omega arith, refl)
    ]

    sack-Piping :
        (bytes : List ℕ) (n code : ℕ) (w : Run)
        → Piping bytes n w
        → Piping bytes n (sack sys code w).1
    unfolding Piping sack send image opening
    sack-Piping bytes n code w up = up

    pipe-Piping : (bytes : List ℕ) (n : ℕ) (w : Run) → Piping bytes n w → w.proto.pipe ≡ true
    unfolding Piping
    pipe-Piping bytes n w (_, _, pipe, _, _, _, _, _, _, _, _, _) = pipe

    repeat-Piping :
        (bytes : List ℕ) (n k : ℕ) (w : Run)
        → Piping bytes n w
        → k < 33
        → k < n
        → is_repeat w.proto (seq_before n k) ≡ true
    unfolding Piping
    repeat-Piping bytes n k w up recent old =
        let (_, _, _, _, _, _, _, count, at, _, _, _) = up in
        (is_repeat_iff w.proto (seq_before n k) (rw count at) (omega arith)).1
          (k, recent, rw count old, rw count refl)

    -- A retransmission changes nothing.
    pub again-Piping :
        (bytes : List ℕ) (n k : ℕ) (chunk : List ℕ) (w : Run)
        → Piping bytes n w
        → IsMove n (again k chunk)
        → Piping bytes n (od_handle sys (frame_of n (again k chunk)) w).1
    unfolding Piping od_handle dispatch pipe_data frame_of
    again-Piping bytes n k chunk w up (recent, old, fits) =
        let same = repeat-Piping bytes n k w up recent old in
        ground (arith, same, sack-Piping bytes n 0 w up)

    -- The bytes of a new frame reach the panel.
    stream-Piping :
        (bytes chunk : List ℕ) (n : ℕ) (w : Run)
        → Piping bytes n w
        → 0 < length chunk
        → length bytes + length chunk ≤ frame_bytes
        → let (err, w') = stream sys chunk false w in
          (failed err ≡ false) × Piping (bytes ++ chunk) n w'
    unfolding Piping stream stream_raw write_panel image opening
    stream-Piping bytes [] n w up has fits = elim has [ ]
    stream-Piping bytes (x ∷ chunk) n w up has fits =
        let (active, raw, pipe, full, going, received, expected, count, at, size, few, written) =
          up in
        let sum = length-append bytes (x ∷ chunk) in
        let fits' : ltb (room w.proto) (suc (length chunk)) ≡ false = ground (arith) in
        rw (raw, fits', yes w.device)
          (
            refl,
            (
              active,
              refl,
              pipe,
              full,
              going,
              rw sum (omega arith),
              expected,
              count,
              at,
              size,
              rw sum (omega arith),
              ap (add_bytes (x ∷ chunk)) written,
            ),
          )

    next_frame-Piping :
        (bytes : List ℕ) (n : ℕ) (w : Run)
        → Piping bytes n w
        → n + 1 ≤ length bytes
        → length bytes ≤ frame_bytes
        → Piping bytes (n + 1) (record w { proto = next_frame w.proto })
    unfolding Piping
    next_frame-Piping bytes n w up more fits = ground (arith)

    fresh-repeat : (p : Protocol) (n : ℕ) → p.next_seq ≡ u8 n → is_repeat p (u8 n) ≡ false
    unfolding is_repeat
    fresh-repeat p n at = ground (arith)

    pub new-Piping :
        (bytes chunk : List ℕ) (n : ℕ) (w : Run)
        → Piping bytes n w
        → IsChunk chunk
        → length bytes + length chunk < frame_bytes
        → Piping (bytes ++ chunk) (n + 1) (od_handle sys (frame_of n (new_frame chunk)) w).1
    unfolding Piping od_handle dispatch pipe_data pipe_next frame_of
    new-Piping bytes chunk n w up (has, small) low =
        let sum = length-append bytes chunk in
        let (fine, streamed) = stream-Piping bytes chunk n w up has (omega arith) in
        let w1 = (stream sys chunk false w).1 in
        let w2 : Run = record w1 { proto = next_frame w1.proto } in
        let next =
          next_frame-Piping (bytes ++ chunk) n w1 streamed (ground (arith, sum))
            (omega (arith, sum)) in
        let fresh : is_repeat w.proto (u8 n) ≡ false =
          fresh-repeat w.proto n (let (_, _, _, _, _, _, _, _, at, _, _, _) = up in at) in
        ground (arith, sum, fine, next, fresh, sack-Piping (bytes ++ chunk) (n + 1) 0 w2 next)

    reply-done : (cmd : ℕ) (success : Bool) (w : Run) → (reply sys cmd success w).0 ≡ done
    unfolding reply send
    reply-done cmd success w = yes w.device

    sack-done : (code : ℕ) (w : Run) → (sack sys code w).0 ≡ done
    unfolding sack send
    sack-done code w = yes w.device

    -- The panel has what was written, and no transfer is left.
    abbrev pub Shows : List ℕ → Run → Type 0
    Shows bytes w = (shown w.device ≡ some (0, whole_frame, bytes)) × (w.proto.active ≡ false)

    refresh-Shows :
        (bytes : List ℕ) (n cmd : ℕ) (w : Run)
        → Piping bytes n w
        → Shows bytes (refresh sys 0 0 (reply sys cmd true w).1).1
    unfolding Piping refresh reply send shown image opening od_reset
    refresh-Shows bytes n cmd w up =
        let (active, raw, pipe, full, going, received, expected, count, at, size, few, written) =
          up in
        (ap (λ t. some (0, t.0, t.1)) written, refl)

    finish-Shows :
        (bytes : List ℕ) (n cmd : ℕ) (w : Run)
        → Piping bytes n w
        → Shows bytes (finish_transfer sys cmd 0 0 w).1
    unfolding finish_transfer
    finish-Shows bytes n cmd w up =
        let sacked = (sack sys 0 w).1 in
        let shows = refresh-Shows bytes n cmd sacked (sack-Piping bytes n 0 w up) in
        let pipe = pipe-Piping bytes n w up in
        ground (arith, pipe, sack-done 0 w, reply-done cmd true sacked, shows)

    pub last-Shows :
        (bytes chunk : List ℕ) (n : ℕ) (w : Run)
        → Piping bytes n w
        → IsChunk chunk
        → length bytes + length chunk ≡ frame_bytes
        → Shows (bytes ++ chunk) (od_handle sys (frame_of n (new_frame chunk)) w).1
    unfolding od_handle dispatch pipe_data pipe_next frame_of Piping
    last-Shows bytes chunk n w up (has, small) whole =
        let sum = length-append bytes chunk in
        let (fine, streamed) = stream-Piping bytes chunk n w up has (omega arith) in
        let w1 = (stream sys chunk false w).1 in
        let w2 : Run = record w1 { proto = next_frame w1.proto } in
        let next =
          next_frame-Piping (bytes ++ chunk) n w1 streamed (ground (arith, sum))
            (omega (arith, sum)) in
        let fresh = fresh-repeat w.proto n (let (_, _, _, _, _, _, _, _, at, _, _, _) = up in at) in
        ground (arith, sum, fine, next, fresh, finish-Shows (bytes ++ chunk) (n + 1) 0x82 w2 next)

    -- After the refresh the pipe is deaf.
    pub deaf :
        (n : ℕ) (move : Move) (w : Run)
        → w.proto.active ≡ false
        → IsMove n move
        → (od_handle sys (frame_of n move) w).1 ≡ w
    unfolding od_handle dispatch pipe_data frame_of
    deaf n (new_frame chunk) w idle ok = ground (arith)
    deaf n (again k chunk) w idle ok = ground (arith)
