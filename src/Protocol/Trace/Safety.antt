-- ===== src/Protocol/Trace/Safety.antt =====
-- `od_handle` of protocol.c, frame by frame, against the panel.
use greentags_lt213a_opendis.Prelude.{
  List, [], arith, byte, drop, false, if◌then◌else◌, length, true, ℕ, ◌!=◌, ◌&&◌, ◌∷◌, ◌≡◌,
}
use greentags_lt213a_opendis.Config.Flash.{FlashOps}
use greentags_lt213a_opendis.Config.Store.{Config}
use greentags_lt213a_opendis.Protocol.Base.{Protocol, Zlib, System, World}
use greentags_lt213a_opendis.Protocol.Transfer.{od_abort}
use greentags_lt213a_opendis.Protocol.ConfigCommands.{cancel_config}
use greentags_lt213a_opendis.Protocol.Trace.{
  intact, Event, Device, recorded, panel, IsSafe, IsValid,
}
use greentags_lt213a_opendis.Protocol.Trace.Transfers.{
  send-IsValid, reply-IsValid, od_abort-IsIdle, cancel_config-IsIdle, rebooted-IsValid,
}
use greentags_lt213a_opendis.Protocol.Handle.{reboot, dispatch, od_handle}
use greentags_lt213a_opendis.Protocol.Trace.ConfigHandlers.{
  config_read-IsValid, config_write-IsValid, config_continue-IsValid, config_clear-IsValid,
  version-IsValid, telemetry-IsValid,
}
use greentags_lt213a_opendis.Protocol.Trace.ImageHandlers.{
  direct_start-IsValid, direct_data-IsValid, transfer_end-IsValid, partial_start-IsValid,
}
use greentags_lt213a_opendis.Protocol.Trace.Pipe.{pipe_start-IsValid, pipe_data-IsValid}

-- The static storage of main.c before the first `od_reset`.
abbrev pub zeroed : Protocol
zeroed = record {
  received = 0;
  expected = 0;
  displayed_etag = 0;
  new_etag = 0;
  pipe_frames = 0;
  pipe_frame = 0;
  next_seq = 0;
  compressed = false;
  zdone = false;
  pipe = false;
  pipe_failed = false;
  partial = false;
  active = false;
}

module _ {Z F : Type 0} (zlib : Zlib Z) (flash : FlashOps F) (build_sha : List ℕ) (d : Device) where
  abbrev sys : System Z F (List Event)
  sys = recorded zlib flash build_sha d

  abbrev Run : Type 0
  Run = World Z F (List Event)

  -- How main.c drives the protocol: frames of any content; in between a transfer is given up when the
  -- link goes down, the session ends or 30 seconds pass without a packet, and broken off when a frame
  -- is answered by an error.
  pub data Reachable : Run → Type 0 where
    booted :
        (config : Config F) (z : Z)
        → Reachable (record { proto = zeroed; config = config; inflater = z; device = [] })
    handled : {w : Run} (frame : List ℕ) → Reachable w → Reachable (od_handle sys frame w).1
    given_up : {w : Run} → Reachable w → Reachable (cancel_config sys (od_abort sys w).1)
    broken_off : {w : Run} → Reachable w → Reachable (od_abort sys w).1

  reboot-IsValid :
      (cmd : ℕ) (payload : List ℕ) (w : Run) → IsValid w → IsValid (reboot sys cmd payload w).1
  unfolding reboot
  reboot-IsValid cmd payload w h =
      let aborted = (od_abort sys w).1 in
      ground (
        arith,
        reply-IsValid zlib flash build_sha d cmd false w h,
        rebooted-IsValid zlib flash build_sha d aborted
            (od_abort-IsIdle zlib flash build_sha d w h),
      )

  dispatch-IsValid :
      (cmd : ℕ) (payload : List ℕ) (w : Run) → IsValid w → IsValid (dispatch sys cmd payload w).1
  unfolding dispatch
  dispatch-IsValid cmd payload w h = ground (
    arith,
    config_read-IsValid zlib flash build_sha d cmd payload w h,
    config_write-IsValid zlib flash build_sha d cmd payload w h,
    config_continue-IsValid zlib flash build_sha d cmd payload w h,
    config_clear-IsValid zlib flash build_sha d cmd payload w h,
    version-IsValid zlib flash build_sha d cmd payload w h,
    telemetry-IsValid zlib flash build_sha d cmd payload w h,
    send-IsValid zlib flash build_sha d (0 ∷ 0x50 ∷ 3 ∷ []) w h,
    direct_start-IsValid zlib flash build_sha d cmd payload w h,
    direct_data-IsValid zlib flash build_sha d cmd payload w h,
    transfer_end-IsValid zlib flash build_sha d cmd payload w h,
    reboot-IsValid cmd payload w h,
    send-IsValid zlib flash build_sha d (0xff ∷ cmd ∷ 0 ∷ 0 ∷ []) w h,
    partial_start-IsValid zlib flash build_sha d cmd payload w h,
    pipe_start-IsValid zlib flash build_sha d cmd payload w h,
    pipe_data-IsValid zlib flash build_sha d payload w h,
    send-IsValid zlib flash build_sha d
        (255 ∷ 0x83 ∷ 255 ∷ (if length payload != 0 && byte payload 0 != 0 then 3 else 2) ∷ []) w h,
    reply-IsValid zlib flash build_sha d cmd false w h,
  )

  pub od_handle-IsValid : (frame : List ℕ) (w : Run) → IsValid w → IsValid (od_handle sys frame w).1
  unfolding od_handle
  od_handle-IsValid frame w h = ground (
    arith,
    reply-IsValid zlib flash build_sha d (byte frame 1) false w h,
    dispatch-IsValid (byte frame 1) (drop 2 frame) w h,
  )

  zeroed-IsValid :
      (config : Config F) (z : Z)
      → IsValid (record { proto = zeroed; config = config; inflater = z; device = [] })
  unfolding IsValid panel IsSafe intact
  zeroed-IsValid config z = ground (arith)

  pub reachable-IsValid : {w : Run} → Reachable w → IsValid w
  reachable-IsValid (booted config z) = zeroed-IsValid config z
  reachable-IsValid (handled frame r) = od_handle-IsValid frame _ (reachable-IsValid r)
  reachable-IsValid (broken_off r) =
      (od_abort-IsIdle zlib flash build_sha d _ (reachable-IsValid r)).0
  reachable-IsValid (given_up r) =
      (cancel_config-IsIdle zlib flash build_sha d _
        (od_abort-IsIdle zlib flash build_sha d _ (reachable-IsValid r))).0

  -- In every state that the firmware reaches, by frames of any content and by transfers given up in
  -- between, with a device that answers each call as it likes, the calls to the panel are in order:
  -- it is opened only when it is closed, as a whole or on a window of whole bytes inside of it; no
  -- byte is written past the end of the image; it is refreshed only when every byte of the image is
  -- written; and it is closed when the chip reboots.
  pub reachable-IsSafe : {w : Run} → Reachable w → IsSafe w.device
  unfolding IsValid
  reachable-IsSafe r = (reachable-IsValid r).2

  -- In every state that the firmware reaches, when no transfer is active and the state keeps an
  -- etag, the display still shows the image of the last refresh that succeeded: since then nothing
  -- was opened, written or aborted.
  pub intact-reachable :
      {w : Run}
      → Reachable w
      → w.proto.active ≡ false
      → ¬ (w.proto.displayed_etag ≡ 0)
      → intact w.device ≡ true
  unfolding IsValid
  intact-reachable r idle known = let h = reachable-IsValid r in ground (arith, h)
