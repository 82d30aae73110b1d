-- ===== src/Protocol/DirectCommands.antt =====
-- The commands 70, 71, 72 and 76 of `od_handle` in protocol.c: direct image transfers. 72 and 82 end a
-- transfer of either kind.
use greentags_lt213a_opendis.Prelude.{
  Act, Bool, List, Status, [], byte, done, drop, failed, false, if◌then◌else◌, leb, length, ltb,
  not, true, ℕ, ◌!=◌, ◌%◌, ◌&&◌, ◌==◌, ◌||◌,
}
use greentags_lt213a_opendis.Protocol.Base.{Protocol, System, World, on_device, frame_bytes}
use greentags_lt213a_opendis.Protocol.Transfer.{
  reply, error_code, od_abort, sack, start_region, finish_transfer,
}
use greentags_lt213a_opendis.Protocol.ConfigCommands.{cancel_config}
use greentags_lt213a_opendis.Protocol.Stream.{stream}
use greentags_lt213a_opendis.Protocol.Wire.{le, be}

-- p->pipe == (cmd == 0x82)
abbrev pub same_kind : Bool → Bool → Bool
same_kind true b = b
same_kind false b = not b

-- The tests of END before the last call of `stream`.
unfoldable pub end_allowed : Protocol → ℕ → List ℕ → Bool
end_allowed p cmd payload =
    let size = length payload in
    p.active
    && same_kind p.pipe (cmd == 0x82)
    && (((size == 1 || size == 5) && leb (byte payload 0) (if p.partial then 2 else 1))
        || (size == 0 && p.partial && p.pipe))

-- And after it.
unfoldable pub all_received : Protocol → Bool
all_received p = p.received == p.expected && (not p.compressed || p.zdone)

-- payload[0] & ~1 of command 76, payload[1] & ~3 of command 80
abbrev pub has_bits_above : ℕ → ℕ → Bool
has_bits_above bits flags = leb bits flags

module _ {Z F W : Type 0} (sys : System Z F W) where
  -- p->compressed = ...; if (p->compressed) { od_zlib_stream_reset(p->expected); }
  unfoldable pub set_compressed : Bool → World Z F W → World Z F W
  set_compressed compressed w =
      let w' = record w { proto = record w.proto { compressed = compressed } } in
      if compressed then record w' { inflater = sys.zlib.reset w.proto.expected w.inflater } else w'

  unfoldable pub set_active : World Z F W → World Z F W
  set_active w = record w { proto = record w.proto { active = true } }

  -- A NACK after the transfer was given up.
  unfoldable pub give_up : ℕ → Act (World Z F W) Status
  give_up cmd w = reply sys cmd false (od_abort sys w).1

  -- Image bytes, and the ACK; or the transfer is given up.
  unfoldable pub stream_reply : ℕ → List ℕ → Act (World Z F W) Status
  stream_reply cmd bytes w =
      let (err, w') = stream sys bytes false w in
      if failed err then give_up cmd w' else reply sys cmd true w'

  unfoldable pub direct_start : ℕ → List ℕ → Act (World Z F W) Status
  direct_start cmd payload w0 =
      let w = cancel_config sys (od_abort sys w0).1 in
      let size = length payload in
      let (err, w1) = on_device sys.io.begin w in
      let w2 = set_compressed (size != 0) (set_active w1) in
      if size != 0 && (ltb size 4 || ltb 200 size || le 4 payload != frame_bytes)
      then reply sys cmd false w
      else if failed err
      then reply sys cmd false w1
      else if size != 0
      then stream_reply cmd (drop 4 payload) w2
      else reply sys cmd true w2

  unfoldable pub direct_data : ℕ → List ℕ → Act (World Z F W) Status
  direct_data cmd payload w =
      if not w.proto.active || w.proto.pipe || length payload == 0 || ltb 230 (length payload)
      then give_up cmd w
      else stream_reply cmd payload w

  -- END of what is not complete: an active pipe gets its receive position first.
  unfoldable pub end_incomplete : ℕ → Act (World Z F W) Status
  end_incomplete cmd w =
      let (err, w1) =
        if cmd == 0x82 && w.proto.active && w.proto.pipe then sack sys 0 w else (done, w) in
      let w2 = (od_abort sys w1).1 in if failed err then (err, w2) else reply sys cmd false w2

  unfoldable pub transfer_end : ℕ → List ℕ → Act (World Z F W) Status
  transfer_end cmd payload w =
      let size = length payload in
      let (err, w') = stream sys [] true w in
      if end_allowed w.proto cmd payload
      then if not (failed err) && all_received w'.proto
        then finish_transfer sys cmd (if size != 0 then byte payload 0 else 2)
            (if size == 5 then be 4 (drop 1 payload) else w'.proto.new_etag) w'
        else end_incomplete cmd w'
      else end_incomplete cmd w

  unfoldable pub clear_etag : World Z F W → World Z F W
  clear_etag w = record w { proto = record w.proto { displayed_etag = 0 } }

  unfoldable pub partial_start : ℕ → List ℕ → Act (World Z F W) Status
  partial_start cmd payload w0 =
      let w = cancel_config sys (od_abort sys w0).1 in
      let next = be 4 (drop 5 payload) in
      let (code, w1) =
        if next != 0
        then start_region sys (be 4 (drop 1 payload)) (be 2 (drop 9 payload))
            (be 2 (drop 11 payload)) (be 2 (drop 13 payload)) (be 2 (drop 15 payload)) w
        else (1, w) in
      let w2 =
        set_compressed (byte payload 0 % 2 == 1)
          (record w1 { proto = record w1.proto { new_etag = next } }) in
      let (err, w3) = stream sys (drop 17 payload) false w2 in
      if ltb (length payload) 17
      then error_code sys cmd 6 w
      else if has_bits_above 2 (byte payload 0)
      then error_code sys cmd 5 w
      else if code != 0
      then error_code sys cmd code (clear_etag w1)
      else if failed err
      then error_code sys cmd 6 (od_abort sys w3).1
      else reply sys cmd true w3
