-- ===== src/Protocol/PipeCommands.antt =====
-- The commands 80 and 81 of `od_handle` in protocol.c: a pipe with a window of one frame.
use greentags_lt213a_opendis.Prelude.{
  Act, Bool, List, Status, [], byte, done, drop, failed, false, if◌then◌else◌, leb, length, ltb,
  not, sub8, true, u32, u8, ℕ, ◌!=◌, ◌%◌, ◌&&◌, ◌+◌, ◌/◌, ◌==◌, ◌||◌, ◌∷◌,
}
use greentags_lt213a_opendis.Protocol.Base.{
  Protocol, System, World, on_device, frame_bytes, max_frame,
}
use greentags_lt213a_opendis.Protocol.Transfer.{
  send, error_code, od_abort, sack, start_region, finish_transfer, region_bytes,
}
use greentags_lt213a_opendis.Protocol.ConfigCommands.{cancel_config}
use greentags_lt213a_opendis.Protocol.DirectCommands.{
  set_compressed, set_active, clear_etag, has_bits_above,
}
use greentags_lt213a_opendis.Protocol.Stream.{stream}
use greentags_lt213a_opendis.Protocol.Wire.{le}

-- code == 1 ? 5 : code == 7 ? 6 : 7
abbrev pub pipe_code : ℕ → ℕ
pipe_code code = if code == 1 then 5 else if code == 7 then 6 else 7

-- payload[1] & 2, where the flags are below 4.
abbrev pub wants_partial : List ℕ → Bool
wants_partial payload = leb 2 (byte payload 1)

unfoldable pub bad_pipe_start : List ℕ → Bool
bad_pipe_start payload =
    ltb (length payload) 10
    || byte payload 0 != 1
    || byte payload 2 == 0
    || byte payload 3 == 0
    || ltb (le 2 (drop 4 payload)) 4

-- A frame of the window before the next one, already received.
unfoldable pub is_repeat : Protocol → ℕ → Bool
is_repeat p seq =
    let behind = sub8 p.next_seq seq in
    seq != p.next_seq && leb behind 33 && behind != 0 && leb behind p.pipe_frames

abbrev pub next_frame : Protocol → Protocol
next_frame p = record p { next_seq = u8 (p.next_seq + 1); pipe_frames = u32 (p.pipe_frames + 1) }

module _ {Z F W : Type 0} (sys : System Z F W) where
  -- What a pipe start does once the panel is open.
  unfoldable pub pipe_open : List ℕ → Bool → Act (World Z F W) Status
  pipe_open payload partial w =
      let w1 = record w { proto = record w.proto { pipe = true } } in
      let w2 = set_compressed sys (byte payload 1 % 2 == 1) w1 in
      let asked = le 2 (drop 4 payload) in
      let frame = if ltb max_frame asked then max_frame else asked in
      send sys
        (0 ∷ 0x80 ∷ 1 ∷ 1 ∷ 1 ∷ frame % 256 ∷ u8 (frame / 256) ∷ (if partial then 3 else 1) ∷ [])
        (record w2 { proto = record w2.proto { pipe_frame = frame } })

  unfoldable pub pipe_start_full : ℕ → List ℕ → Act (World Z F W) Status
  pipe_start_full cmd payload w =
      let (err, w1) = on_device sys.io.begin w in
      if le 4 (drop 6 payload) != frame_bytes
      then error_code sys cmd 3 w
      else if failed err
      then error_code sys cmd 3 w1
      else pipe_open payload false (set_active sys w1)

  unfoldable pub pipe_start_partial : ℕ → List ℕ → Act (World Z F W) Status
  pipe_start_partial cmd payload w =
      let width = le 2 (drop 18 payload) in
      let height = le 2 (drop 20 payload) in
      let (code, w1) =
        start_region sys (le 4 (drop 10 payload)) (le 2 (drop 14 payload)) (le 2 (drop 16 payload))
          width height w in
      if le 4 (drop 6 payload) != u32 (region_bytes width height)
      then error_code sys cmd 3 w
      else if code != 0
      then error_code sys cmd (pipe_code code) (clear_etag sys w1)
      else pipe_open payload true w1

  unfoldable pub pipe_start : ℕ → List ℕ → Act (World Z F W) Status
  pipe_start cmd payload w0 =
      let w = cancel_config sys (od_abort sys w0).1 in
      let partial = wants_partial payload in
      if bad_pipe_start payload
      then error_code sys cmd 1 w
      else if has_bits_above 4 (byte payload 1)
      then error_code sys cmd 2 w
      else if length payload != (if partial then 22 else 10)
      then error_code sys cmd 1 w
      else if partial
      then pipe_start_partial cmd payload w
      else pipe_start_full cmd payload w

  -- A frame that cannot be taken: the transfer ends, and later frames are passed over in silence.
  unfoldable pub pipe_fail : ℕ → Act (World Z F W) Status
  pipe_fail code w =
      let (err, w1) = sack sys code w in
      let w2 = (od_abort sys w1).1 in
      (err, record w2 { proto = record w2.proto { pipe_failed = true } })

  unfoldable pub pipe_next : List ℕ → Act (World Z F W) Status
  pipe_next payload w =
      let (err, w1) = stream sys (drop 1 payload) false w in
      let w2 = record w1 { proto = next_frame w1.proto } in
      let p = w2.proto in
      if failed err
      then pipe_fail (if w1.proto.compressed then 2 else 3) w1
      else if not p.compressed && not p.partial && p.received == p.expected
      then finish_transfer sys 0x82 0 0 w2
      else sack sys 0 w2

  unfoldable pub pipe_data : List ℕ → Act (World Z F W) Status
  pipe_data payload w =
      let p = w.proto in
      let seq = byte payload 0 in
      if not p.active || not p.pipe || p.pipe_failed
      then (done, w)
      else if ltb (length payload) 2 || ltb p.pipe_frame (length payload + 2)
      then pipe_fail 4 w
      else if is_repeat p seq
      then sack sys 0 w
      else if seq == p.next_seq
      then pipe_next payload w
      else pipe_fail 4 w
