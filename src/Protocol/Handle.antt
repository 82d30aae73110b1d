-- ===== src/Protocol/Handle.antt =====
-- `od_handle` of protocol.c: the tests on the frame, and the dispatch on the command.
use greentags_lt213a_opendis.Prelude.{
  Act, List, Status, [], byte, done, drop, einval, fail, false, if◌then◌else◌, length, ltb, ℕ, ◌!=◌,
  ◌&&◌, ◌==◌, ◌||◌, ◌∷◌,
}
use greentags_lt213a_opendis.Protocol.Base.{System, World, max_frame}
use greentags_lt213a_opendis.Protocol.Transfer.{send, reply, od_abort}
use greentags_lt213a_opendis.Protocol.ConfigCommands.{
  config_read, config_write, config_continue, config_clear, version, telemetry,
}
use greentags_lt213a_opendis.Protocol.DirectCommands.{
  direct_start, direct_data, transfer_end, partial_start,
}
use greentags_lt213a_opendis.Protocol.PipeCommands.{pipe_start, pipe_data}

module _ {Z F W : Type 0} (sys : System Z F W) where
  unfoldable pub reboot : ℕ → List ℕ → Act (World Z F W) Status
  reboot cmd payload w =
      let w' = (od_abort sys w).1 in
      if length payload != 0
      then reply sys cmd false w
      else (done, record w' { device = sys.io.reboot w'.device })

  -- The `switch`.
  unfoldable pub dispatch : ℕ → List ℕ → Act (World Z F W) Status
  dispatch cmd payload w =
      if cmd == 0x40
      then config_read sys cmd payload w
      else if cmd == 0x41
      then config_write sys cmd payload w
      else if cmd == 0x42
      then config_continue sys cmd payload w
      else if cmd == 0x45
      then config_clear sys cmd payload w
      else if cmd == 0x43
      then version sys cmd payload w
      else if cmd == 0x44
      then telemetry sys cmd payload w
      else if cmd == 0x50
      then send sys (0 ∷ 0x50 ∷ 3 ∷ []) w
      else if cmd == 0x70
      then direct_start sys cmd payload w
      else if cmd == 0x71
      then direct_data sys cmd payload w
      else if cmd == 0x72 || cmd == 0x82
      then transfer_end sys cmd payload w
      else if cmd == 0x0f
      then reboot cmd payload w
      else if cmd == 0x52 || cmd == 0x53
      then send sys (0xff ∷ cmd ∷ 0 ∷ 0 ∷ []) w
      else if cmd == 0x76
      then partial_start sys cmd payload w
      else if cmd == 0x80
      then pipe_start sys cmd payload w
      else if cmd == 0x81
      then pipe_data sys payload w
      else if cmd == 0x83
      then send sys
          (255 ∷ 0x83 ∷ 255 ∷ (if length payload != 0 && byte payload 0 != 0 then 3 else 2) ∷ []) w
      else reply sys cmd false w

  unfoldable pub od_handle : List ℕ → Act (World Z F W) Status
  od_handle frame w =
      let cmd = byte frame 1 in
      if ltb (length frame) 2 || ltb max_frame (length frame)
      then (fail einval, w)
      else if byte frame 0 != 0
      then reply sys cmd false w
      else dispatch cmd (drop 2 frame) w
