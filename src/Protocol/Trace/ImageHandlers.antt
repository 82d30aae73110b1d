-- ===== src/Protocol/Trace/ImageHandlers.antt =====
-- The commands 70, 71, 72, 76 and 82 of protocol.c, against the panel.
use greentags_lt213a_opendis.Prelude.{
  List, [], arith, byte, drop, false, if◌then◌else◌, length, true, ℕ, ◌!=◌, ◌%◌, ◌==◌, ◌≡◌,
}
use greentags_lt213a_opendis.Config.Flash.{FlashOps}
use greentags_lt213a_opendis.Protocol.Base.{Protocol, Zlib, System, World, on_device}
use greentags_lt213a_opendis.Protocol.Stream.{stream}
use greentags_lt213a_opendis.Protocol.Wire.{be}
use greentags_lt213a_opendis.Protocol.Transfer.{od_abort, sack, start_region}
use greentags_lt213a_opendis.Protocol.ConfigCommands.{cancel_config}
use greentags_lt213a_opendis.Protocol.DirectCommands.{
  set_compressed, set_active, give_up, stream_reply, direct_start, direct_data, end_allowed,
  all_received, end_incomplete, transfer_end, clear_etag, partial_start,
}
use greentags_lt213a_opendis.Protocol.Trace.{Event, Device, recorded, IsValid, IsActive}
use greentags_lt213a_opendis.Protocol.Trace.Streams.{stream-IsActive}
use greentags_lt213a_opendis.Protocol.Trace.Transfers.{
  reply-IsValid, error_code-IsValid, sack-IsValid, od_abort-IsIdle, set_compressed-IsActive,
  clear_etag-IsValid, cancel_config-IsIdle, begin-IsActive, start_region-IsActive,
  finish_transfer-IsValid,
}

module _ {Z F : Type 0} (zlib : Zlib Z) (flash : FlashOps F) (build_sha : List ℕ) (d : Device) where
  abbrev sys : System Z F (List Event)
  sys = recorded zlib flash build_sha d

  abbrev Run : Type 0
  Run = World Z F (List Event)

  give_up-IsValid : (cmd : ℕ) (w : Run) → IsValid w → IsValid (give_up sys cmd w).1
  unfolding give_up
  give_up-IsValid cmd w h =
      (reply-IsValid zlib flash build_sha d cmd false _
        (od_abort-IsIdle zlib flash build_sha d w h).0).0

  stream_reply-IsValid :
      (cmd : ℕ) (bytes : List ℕ) (w : Run) → IsActive w → IsValid (stream_reply sys cmd bytes w).1
  unfolding stream_reply
  stream_reply-IsValid cmd bytes w h =
      let w' = (stream sys bytes false w).1 in
      let ok = (stream-IsActive zlib flash build_sha d bytes false w h).0 in
      ground (arith, give_up-IsValid cmd w' ok, reply-IsValid zlib flash build_sha d cmd true w' ok)

  pub direct_start-IsValid :
      (cmd : ℕ) (payload : List ℕ) (w : Run)
      → IsValid w
      → IsValid (direct_start sys cmd payload w).1
  unfolding direct_start
  direct_start-IsValid cmd payload w h =
      let idle : Run = cancel_config sys (od_abort sys w).1 in
      let ok =
        cancel_config-IsIdle zlib flash build_sha d _
          (od_abort-IsIdle zlib flash build_sha d w h) in
      let (err, begun) = on_device sys.io.begin idle in
      let started : Run = set_compressed sys (length payload != 0) (set_active sys begun) in
      ground (
        arith,
        ok,
        begin-IsActive zlib flash build_sha d idle ok,
        set_compressed-IsActive zlib flash build_sha d (length payload != 0) (set_active sys begun),
        reply-IsValid zlib flash build_sha d cmd false idle,
        reply-IsValid zlib flash build_sha d cmd false begun,
        reply-IsValid zlib flash build_sha d cmd true started,
        stream_reply-IsValid cmd (drop 4 payload) started,
      )

  pub direct_data-IsValid :
      (cmd : ℕ) (payload : List ℕ) (w : Run) → IsValid w → IsValid (direct_data sys cmd payload w).1
  unfolding direct_data
  direct_data-IsValid cmd payload w h =
      ground (arith, give_up-IsValid cmd w h, stream_reply-IsValid cmd payload w)

  end_incomplete-IsValid : (cmd : ℕ) (w : Run) → IsValid w → IsValid (end_incomplete sys cmd w).1
  unfolding end_incomplete
  end_incomplete-IsValid cmd w h =
      let sacked = (sack sys 0 w).1 in
      ground (
        arith,
        sack-IsValid zlib flash build_sha d 0 w h,
        od_abort-IsIdle zlib flash build_sha d w h,
        od_abort-IsIdle zlib flash build_sha d sacked,
        reply-IsValid zlib flash build_sha d cmd false (od_abort sys w).1,
        reply-IsValid zlib flash build_sha d cmd false (od_abort sys sacked).1,
      )

  end_allowed-active :
      (p : Protocol) (cmd : ℕ) (payload : List ℕ)
      → end_allowed p cmd payload ≡ true
      → p.active ≡ true
  unfolding end_allowed
  end_allowed-active p cmd payload h = ground (arith)

  all_received-whole : (p : Protocol) → all_received p ≡ true → p.received ≡ p.expected
  unfolding all_received
  all_received-whole p h = ground (arith)

  pub transfer_end-IsValid :
      (cmd : ℕ) (payload : List ℕ) (w : Run)
      → IsValid w
      → IsValid (transfer_end sys cmd payload w).1
  unfolding transfer_end
  transfer_end-IsValid cmd payload w h =
      let w' = (stream sys [] true w).1 in
      ground (
        arith,
        end_allowed-active w.proto cmd payload,
        all_received-whole w'.proto,
        stream-IsActive zlib flash build_sha d [] true w,
        end_incomplete-IsValid cmd w h,
        end_incomplete-IsValid cmd w',
        finish_transfer-IsValid zlib flash build_sha d cmd
            (if length payload != 0 then byte payload 0 else 2)
            (if length payload == 5 then be 4 (drop 1 payload) else w'.proto.new_etag) w',
      )

  next_etag-IsActive :
      (next : ℕ) (w : Run)
      → IsActive w
      → IsActive (record w { proto = record w.proto { new_etag = next } })
  unfolding IsValid
  next_etag-IsActive next w h = h

  pub partial_start-IsValid :
      (cmd : ℕ) (payload : List ℕ) (w : Run)
      → IsValid w
      → IsValid (partial_start sys cmd payload w).1
  unfolding partial_start
  partial_start-IsValid cmd payload w h =
      let idle : Run = cancel_config sys (od_abort sys w).1 in
      let ok =
        cancel_config-IsIdle zlib flash build_sha d _
          (od_abort-IsIdle zlib flash build_sha d w h) in
      let next = be 4 (drop 5 payload) in
      let old = be 4 (drop 1 payload) in
      let x = be 2 (drop 9 payload) in
      let y = be 2 (drop 11 payload) in
      let width = be 2 (drop 13 payload) in
      let height = be 2 (drop 15 payload) in
      let (code, w1) =
        if next != 0 then start_region sys old x y width height idle else (1, idle) in
      let tagged : Run = record w1 { proto = record w1.proto { new_etag = next } } in
      let w2 = set_compressed sys (byte payload 0 % 2 == 1) tagged in
      let w3 = (stream sys (drop 17 payload) false w2).1 in
      ground (
        arith,
        ok,
        start_region-IsActive zlib flash build_sha d old x y width height idle ok,
        next_etag-IsActive next w1,
        set_compressed-IsActive zlib flash build_sha d (byte payload 0 % 2 == 1) tagged,
        stream-IsActive zlib flash build_sha d (drop 17 payload) false w2,
        error_code-IsValid zlib flash build_sha d cmd 6 idle,
        error_code-IsValid zlib flash build_sha d cmd 5 idle,
        clear_etag-IsValid zlib flash build_sha d idle ok.0,
        error_code-IsValid zlib flash build_sha d cmd code (clear_etag sys w1),
        od_abort-IsIdle zlib flash build_sha d w3,
        error_code-IsValid zlib flash build_sha d cmd 6 (od_abort sys w3).1,
        reply-IsValid zlib flash build_sha d cmd true w3,
      )
