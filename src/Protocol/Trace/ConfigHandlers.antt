-- ===== src/Protocol/Trace/ConfigHandlers.antt =====
-- The commands 40 to 45 of protocol.c, against the panel.
use greentags_lt213a_opendis.Prelude.{
  Bool-cases, List, Status-cases, [], arith, drop, failed, false, inl, inr, length, not, suc, take,
  u16, u8, zero, ℕ, ◌++◌, ◌+◌, ◌∷◌,
}
use greentags_lt213a_opendis.Config.Flash.{FlashOps}
use greentags_lt213a_opendis.Config.Store.{Config}
use greentags_lt213a_opendis.Config.Store
use greentags_lt213a_opendis.Protocol.Base.{Zlib, System, World, on_config}
use greentags_lt213a_opendis.Protocol.Wire.{le}
use greentags_lt213a_opendis.Protocol.Transfer.{send, od_abort}
use greentags_lt213a_opendis.Protocol.ConfigCommands.{
  chunk_header, chunk_size, send_chunks, config_read, append_reply, start_append, cancel_config,
  config_write, config_continue, config_clear, version, sample, telemetry,
}
use greentags_lt213a_opendis.Protocol.Trace.{
  intact, Event, Device, recorded, panel, IsSafe, IsValid,
}
use greentags_lt213a_opendis.Protocol.Trace.Transfers.{send-IsValid, reply-IsValid, od_abort-IsIdle}

module _ {Z F : Type 0} (zlib : Zlib Z) (flash : FlashOps F) (build_sha : List ℕ) (d : Device) where
  abbrev sys : System Z F (List Event)
  sys = recorded zlib flash build_sha d

  abbrev Run : Type 0
  Run = World Z F (List Event)

  quiet_config-IsValid :
      {A : Type 0} (m : Config F → A × Config F) (w : Run) → IsValid w → IsValid (on_config m w).1
  unfolding IsValid
  quiet_config-IsValid m w h = h

  cancel_config-IsValid : (w : Run) → IsValid w → IsValid (cancel_config sys w)
  unfolding cancel_config IsValid
  cancel_config-IsValid w h = h

  send_chunks-IsValid :
      (fuel cmd total chunk : ℕ) (rest : List ℕ) (w : Run)
      → IsValid w
      → IsValid (send_chunks sys fuel cmd total chunk rest w).1
  unfolding send_chunks
  send_chunks-IsValid zero cmd total chunk rest w h = h
  send_chunks-IsValid (suc fuel) cmd total chunk [] w h = h
  send_chunks-IsValid (suc fuel) cmd total chunk (x ∷ rest) w h =
      let bytes = chunk_header cmd total chunk ++ take (chunk_size chunk) (x ∷ rest) in
      let ok = (send-IsValid zlib flash build_sha d bytes w h).0 in
      let rec =
        send_chunks-IsValid fuel cmd total (u16 (chunk + 1)) (drop (chunk_size chunk) (x ∷ rest)) _
          ok in
      elim (Status-cases (send sys bytes w).0) [
        | inl y ↦ rw (y, send_chunks) rec
        | inr (e, y) ↦ rw (y, send_chunks) ok
      ]

  pub config_read-IsValid :
      (cmd : ℕ) (payload : List ℕ) (w : Run) → IsValid w → IsValid (config_read sys cmd payload w).1
  unfolding config_read
  config_read-IsValid cmd payload w h =
      let bytes = (Store.get_config flash w.config).1 in
      ground (
        arith,
        reply-IsValid zlib flash build_sha d cmd false w h,
        send_chunks-IsValid (length bytes) cmd (length bytes) 0 bytes w h,
      )

  append_reply-IsValid :
      (cmd : ℕ) (bytes : List ℕ) (w : Run) → IsValid w → IsValid (append_reply sys cmd bytes w).1
  unfolding append_reply
  append_reply-IsValid cmd bytes w h =
      (reply-IsValid zlib flash build_sha d _ _ _
        (quiet_config-IsValid (Store.append flash bytes) w h)).0

  start_append-IsValid :
      (cmd total : ℕ) (bytes : List ℕ) (w : Run)
      → IsValid w
      → IsValid (start_append sys cmd total bytes w).1
  unfolding start_append
  start_append-IsValid cmd total bytes w h =
      let w' = (on_config (Store.start flash total) w).1 in
      let ok = quiet_config-IsValid (Store.start flash total) w h in
      ground (
        arith,
        reply-IsValid zlib flash build_sha d cmd false w' ok,
        append_reply-IsValid cmd bytes w' ok,
      )

  pub config_write-IsValid :
      (cmd : ℕ) (payload : List ℕ) (w : Run)
      → IsValid w
      → IsValid (config_write sys cmd payload w).1
  unfolding config_write
  config_write-IsValid cmd payload w h =
      let w' = cancel_config sys (od_abort sys w).1 in
      let ok = cancel_config-IsValid _ (od_abort-IsIdle zlib flash build_sha d w h).0 in
      ground (
        arith,
        reply-IsValid zlib flash build_sha d cmd false w' ok,
        start_append-IsValid cmd (le 2 payload) (drop 2 payload) w' ok,
        start_append-IsValid cmd (length payload) payload w' ok,
      )

  pub config_continue-IsValid :
      (cmd : ℕ) (payload : List ℕ) (w : Run)
      → IsValid w
      → IsValid (config_continue sys cmd payload w).1
  unfolding config_continue
  config_continue-IsValid cmd payload w h = ground (
    arith,
    reply-IsValid zlib flash build_sha d cmd false (cancel_config sys w)
        (cancel_config-IsValid w h),
    append_reply-IsValid cmd payload w h,
  )

  pub config_clear-IsValid :
      (cmd : ℕ) (payload : List ℕ) (w : Run)
      → IsValid w
      → IsValid (config_clear sys cmd payload w).1
  unfolding config_clear
  config_clear-IsValid cmd payload w h =
      let (err, w') = on_config (Store.clear flash) (od_abort sys w).1 in
      let ok =
        quiet_config-IsValid (Store.clear flash) _ (od_abort-IsIdle zlib flash build_sha d w h).0 in
      ground (
        arith,
        reply-IsValid zlib flash build_sha d cmd false w h,
        reply-IsValid zlib flash build_sha d cmd (not (failed err)) w' ok,
      )

  pub version-IsValid :
      (cmd : ℕ) (payload : List ℕ) (w : Run) → IsValid w → IsValid (version sys cmd payload w).1
  unfolding version
  version-IsValid cmd payload w h = ground (
    arith,
    reply-IsValid zlib flash build_sha d cmd false w h,
    send-IsValid zlib flash build_sha d
        ((0 ∷ 0x43 ∷ 0 ∷ 5 ∷ u8 (length build_sha) ∷ []) ++ build_sha ++ 0 ∷ []) w h,
  )

  sample-IsValid : (w : Run) → IsValid w → IsValid (sample sys w).1
  unfolding sample IsValid panel IsSafe intact
  sample-IsValid w h = elim (Bool-cases d.has_sample) [
    | inl y ↦ rw (y, sample) h
    | inr y ↦ rw (y, sample) h
  ]

  pub telemetry-IsValid :
      (cmd : ℕ) (payload : List ℕ) (w : Run) → IsValid w → IsValid (telemetry sys cmd payload w).1
  unfolding telemetry
  telemetry-IsValid cmd payload w h =
      let w' = (sample sys w).1 in
      let ok = sample-IsValid w h in
      ground (
        arith,
        reply-IsValid zlib flash build_sha d cmd false w h,
        reply-IsValid zlib flash build_sha d cmd false w' ok,
        send-IsValid zlib flash build_sha d ((0 ∷ 0x44 ∷ []) ++ take 16 (d.msd w'.device)) w' ok,
      )
