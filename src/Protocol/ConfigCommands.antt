-- ===== src/Protocol/ConfigCommands.antt =====
-- The commands 40 to 45 of `od_handle` in protocol.c: configuration, version and telemetry.
-- `payload` is the frame without its first two bytes.
use greentags_lt213a_opendis.Prelude.{
  Act, List, Status, [], done, drop, fail, failed, false, if◌then◌else◌, leb, length, ltb, none,
  not, some, suc, take, u16, u8, zero, ℕ, ◌!=◌, ◌%◌, ◌++◌, ◌+◌, ◌/◌, ◌==◌, ◌||◌, ◌∷◌,
}
use greentags_lt213a_opendis.Config.Store
use greentags_lt213a_opendis.Protocol.Base.{System, World, on_device, on_config}
use greentags_lt213a_opendis.Protocol.Transfer.{send, reply, od_abort}
use greentags_lt213a_opendis.Protocol.Wire.{le}

-- The header of a chunk: the first one carries the length of the whole.
unfoldable pub chunk_header : ℕ → ℕ → ℕ → List ℕ
chunk_header cmd total chunk =
    (0 ∷ cmd ∷ chunk % 256 ∷ u8 (chunk / 256) ∷ [])
    ++ (if chunk == 0 then total % 256 ∷ u8 (total / 256) ∷ [] else [])

-- How many bytes of the configuration fit into a response of 20 bytes.
abbrev pub chunk_size : ℕ → ℕ
chunk_size chunk = if chunk == 0 then 14 else 16

module _ {Z F W : Type 0} (sys : System Z F W) where
  -- The loop of command 40 over what is left of the configuration, with a round of fuel for each byte.
  unfoldable pub send_chunks : ℕ → ℕ → ℕ → ℕ → List ℕ → Act (World Z F W) Status
  send_chunks zero cmd total chunk rest w = (done, w)
  send_chunks (suc fuel) cmd total chunk [] w = (done, w)
  send_chunks (suc fuel) cmd total chunk (x ∷ rest) w =
      let (err, w') =
        send sys (chunk_header cmd total chunk ++ take (chunk_size chunk) (x ∷ rest)) w in
      elim err [
        | fail e ↦ (fail e, w')
        | done ↦
            send_chunks fuel cmd total (u16 (chunk + 1)) (drop (chunk_size chunk) (x ∷ rest)) w'
      ]

  unfoldable pub config_read : ℕ → List ℕ → Act (World Z F W) Status
  config_read cmd payload w =
      let bytes = (Store.get_config sys.flash w.config).1 in
      if length payload != 0
      then reply sys cmd false w
      else send_chunks (length bytes) cmd (length bytes) 0 bytes w

  -- reply(io, cmd, !od_config_append(...))
  unfoldable pub append_reply : ℕ → List ℕ → Act (World Z F W) Status
  append_reply cmd bytes w =
      let (err, w') = on_config (Store.append sys.flash bytes) w in
      reply sys cmd (not (failed err)) w'

  -- A start of `total` bytes, and the first of them.
  unfoldable pub start_append : ℕ → ℕ → List ℕ → Act (World Z F W) Status
  start_append cmd total bytes w =
      let (err, w') = on_config (Store.start sys.flash total) w in
      if failed err then reply sys cmd false w' else append_reply cmd bytes w'

  unfoldable pub cancel_config : World Z F W → World Z F W
  cancel_config w = record w { config = Store.cancel sys.flash w.config }

  unfoldable pub config_write : ℕ → List ℕ → Act (World Z F W) Status
  config_write cmd payload w0 =
      let w = cancel_config (od_abort sys w0).1 in
      let size = length payload in
      let total = le 2 payload in
      if size == 202
      then if leb total 200
        then reply sys cmd false w
        else start_append cmd total (drop 2 payload) w
      else if ltb size 5 || ltb 200 size
      then reply sys cmd false w
      else start_append cmd size payload w

  unfoldable pub config_continue : ℕ → List ℕ → Act (World Z F W) Status
  config_continue cmd payload w =
      let size = length payload in
      if size == 0 || ltb 200 size || not (Store.writing sys.flash w.config)
      then reply sys cmd false (cancel_config w)
      else append_reply cmd payload w

  unfoldable pub config_clear : ℕ → List ℕ → Act (World Z F W) Status
  config_clear cmd payload w =
      let (err, w') = on_config (Store.clear sys.flash) (od_abort sys w).1 in
      if length payload != 0 then reply sys cmd false w else reply sys cmd (not (failed err)) w'

  -- The patch number behind the SHA is zero.
  unfoldable pub version : ℕ → List ℕ → Act (World Z F W) Status
  version cmd payload w =
      if length payload != 0
      then reply sys cmd false w
      else send sys ((0 ∷ 0x43 ∷ 0 ∷ 5 ∷ u8 (length sys.build_sha) ∷ []) ++ sys.build_sha ++ 0 ∷ [])
          w

  -- io->sample_msd && io->sample_msd(io->ctx)
  unfoldable pub sample : Act (World Z F W) Status
  sample w = elim sys.io.sample_msd [ none ↦ (done, w) | some m ↦ on_device m w ]

  unfoldable pub telemetry : ℕ → List ℕ → Act (World Z F W) Status
  telemetry cmd payload w =
      let (err, w') = sample w in
      if length payload != 0
      then reply sys cmd false w
      else if failed err
      then reply sys cmd false w'
      else send sys ((0 ∷ 0x44 ∷ []) ++ take 16 (sys.io.msd w'.device)) w'
