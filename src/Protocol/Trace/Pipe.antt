-- ===== src/Protocol/Trace/Pipe.antt =====
-- The commands 80 and 81 of protocol.c, against the panel.
use greentags_lt213a_opendis.Prelude.{Bool, List, arith, drop, false, if◌then◌else◌, true, ℕ}
use greentags_lt213a_opendis.Config.Flash.{FlashOps}
use greentags_lt213a_opendis.Protocol.Base.{Zlib, System, World, on_device}
use greentags_lt213a_opendis.Protocol.Stream.{stream}
use greentags_lt213a_opendis.Protocol.Wire.{le}
use greentags_lt213a_opendis.Protocol.Transfer.{send, od_abort, sack, start_region}
use greentags_lt213a_opendis.Protocol.ConfigCommands.{cancel_config}
use greentags_lt213a_opendis.Protocol.DirectCommands.{set_compressed, set_active, clear_etag}
use greentags_lt213a_opendis.Protocol.PipeCommands.{
  pipe_code, pipe_open, pipe_start_full, pipe_start_partial, pipe_start, next_frame, pipe_fail,
  pipe_next, pipe_data,
}
use greentags_lt213a_opendis.Protocol.Trace.{
  intact, Event, Device, recorded, panel, IsSafe, IsValid, IsActive, IsIdle,
}
use greentags_lt213a_opendis.Protocol.Trace.Streams.{stream-IsActive}
use greentags_lt213a_opendis.Protocol.Trace.Transfers.{
  error_code-IsValid, sack-IsValid, od_abort-IsIdle, cancel_config-IsIdle, begin-IsActive,
  start_region-IsActive, finish_transfer-IsValid,
}

module _ {Z F : Type 0} (zlib : Zlib Z) (flash : FlashOps F) (build_sha : List ℕ) (d : Device) where
  abbrev sys : System Z F (List Event)
  sys = recorded zlib flash build_sha d

  abbrev Run : Type 0
  Run = World Z F (List Event)

  pipe_open-IsValid :
      (payload : List ℕ) (partial : Bool) (w : Run)
      → IsActive w
      → IsValid (pipe_open sys payload partial w).1
  unfolding pipe_open send set_compressed IsValid panel IsSafe intact
  pipe_open-IsValid payload partial w h = ground (arith)

  pipe_start_full-IsValid :
      (cmd : ℕ) (payload : List ℕ) (w : Run)
      → IsIdle w
      → IsValid (pipe_start_full sys cmd payload w).1
  unfolding pipe_start_full
  pipe_start_full-IsValid cmd payload w h =
      let (err, begun) = on_device sys.io.begin w in
      ground (
        arith,
        begin-IsActive zlib flash build_sha d w h,
        error_code-IsValid zlib flash build_sha d cmd 3 w,
        error_code-IsValid zlib flash build_sha d cmd 3 begun,
        pipe_open-IsValid payload false (set_active sys begun),
      )

  pipe_start_partial-IsValid :
      (cmd : ℕ) (payload : List ℕ) (w : Run)
      → IsIdle w
      → IsValid (pipe_start_partial sys cmd payload w).1
  unfolding pipe_start_partial
  pipe_start_partial-IsValid cmd payload w h =
      let old = le 4 (drop 10 payload) in
      let x = le 2 (drop 14 payload) in
      let y = le 2 (drop 16 payload) in
      let width = le 2 (drop 18 payload) in
      let height = le 2 (drop 20 payload) in
      let (code, w1) = start_region sys old x y width height w in
      ground (
        arith,
        start_region-IsActive zlib flash build_sha d old x y width height w h,
        error_code-IsValid zlib flash build_sha d cmd 3 w,
        error_code-IsValid zlib flash build_sha d cmd (pipe_code code) (clear_etag sys w1),
        pipe_open-IsValid payload true w1,
      )

  pub pipe_start-IsValid :
      (cmd : ℕ) (payload : List ℕ) (w : Run) → IsValid w → IsValid (pipe_start sys cmd payload w).1
  unfolding pipe_start
  pipe_start-IsValid cmd payload w h =
      let idle : Run = cancel_config sys (od_abort sys w).1 in
      let ok =
        cancel_config-IsIdle zlib flash build_sha d _
          (od_abort-IsIdle zlib flash build_sha d w h) in
      ground (
        arith,
        ok,
        error_code-IsValid zlib flash build_sha d cmd 1 idle,
        error_code-IsValid zlib flash build_sha d cmd 2 idle,
        pipe_start_partial-IsValid cmd payload idle,
        pipe_start_full-IsValid cmd payload idle,
      )

  set_failed-IsValid :
      (w : Run) → IsValid w → IsValid (record w { proto = record w.proto { pipe_failed = true } })
  unfolding IsValid
  set_failed-IsValid w h = h

  pipe_fail-IsValid : (code : ℕ) (w : Run) → IsValid w → IsValid (pipe_fail sys code w).1
  unfolding pipe_fail
  pipe_fail-IsValid code w h =
      let (ok, _) = sack-IsValid zlib flash build_sha d code w h in
      set_failed-IsValid _ (od_abort-IsIdle zlib flash build_sha d (sack sys code w).1 ok).0

  next_frame-IsActive : (w : Run) → IsActive w → IsActive (record w { proto = next_frame w.proto })
  unfolding IsValid
  next_frame-IsActive w h = ground (arith)

  pipe_next-IsValid :
      (payload : List ℕ) (w : Run) → IsActive w → IsValid (pipe_next sys payload w).1
  unfolding pipe_next
  pipe_next-IsValid payload w h =
      let w1 = (stream sys (drop 1 payload) false w).1 in
      let w2 : Run = record w1 { proto = next_frame w1.proto } in
      let ok = stream-IsActive zlib flash build_sha d (drop 1 payload) false w h in
      let next = next_frame-IsActive w1 ok in
      ground (
        arith,
        pipe_fail-IsValid (if w1.proto.compressed then 2 else 3) w1 ok.0,
        finish_transfer-IsValid zlib flash build_sha d 0x82 0 0 w2 next,
        sack-IsValid zlib flash build_sha d 0 w2 next.0,
      )

  pub pipe_data-IsValid :
      (payload : List ℕ) (w : Run) → IsValid w → IsValid (pipe_data sys payload w).1
  unfolding pipe_data
  pipe_data-IsValid payload w h = ground (
    arith,
    pipe_fail-IsValid 4 w h,
    sack-IsValid zlib flash build_sha d 0 w h,
    pipe_next-IsValid payload w,
  )
