-- ===== src/Panel/Tests/Replay.antt =====
-- A history without errors, played on the driver with a panel that is always ready; and a whole upload.
use greentags_lt213a_opendis.Prelude.{
  Bool, Bool-cases, List, [], arith, done, fail, failed, false, inl, inr, map, not, refl, some,
  subst, true, u8, ℕ, ◌&&◌, ◌∷◌, ◌≡◌,
}
use greentags_lt213a_opendis.Config.Store.{fresh_store}
use greentags_lt213a_opendis.Config.Flash.Nor.{pages, blank_pages}
use greentags_lt213a_opendis.Protocol.Base.{od_reset}
use greentags_lt213a_opendis.Protocol.Stream.{stream, stream_raw, write_panel}
use greentags_lt213a_opendis.Protocol.Transfer.{send, reply, od_abort, finish_transfer, refresh}
use greentags_lt213a_opendis.Protocol.ConfigCommands.{cancel_config}
use greentags_lt213a_opendis.Protocol.DirectCommands.{
  direct_start, direct_data, stream_reply, set_compressed, set_active, transfer_end, end_allowed,
  all_received,
}
use greentags_lt213a_opendis.Protocol.Handle.{od_handle, dispatch}
use greentags_lt213a_opendis.Protocol.Trace.{
  Event, sent, began, opened_region, wrote, finished, aborted, rebooted, sampled,
}
use greentags_lt213a_opendis.Protocol.Trace.Safety.{zeroed, booted}
use greentags_lt213a_opendis.Protocol.Trace.Upload.{send_data, upload, concat}
use greentags_lt213a_opendis.Protocol.Samples.{
  copying, agreeable, tag_at, chunks, chunks-AreChunks, chunks_whole,
}
use greentags_lt213a_opendis.Panel.Gpio.{Board}
use greentags_lt213a_opendis.Panel.Ready.{wait_rounds, wait_ready}
use greentags_lt213a_opendis.Panel.Driver.{
  Epd, epd_init, epd_begin, epd_write, epd_finish, epd_off, panel_begin,
}
use greentags_lt213a_opendis.Panel.Waveform.{white_plane}
use greentags_lt213a_opendis.Panel.Bench.{Bench, Chip, bench}
use greentags_lt213a_opendis.Panel.Screen.{
  Driven, started, begins, writes, finishes, aborts, sends, reboots, samples,
}
use greentags_lt213a_opendis.Panel.Screen.Uploads.{displayed-upload}
use greentags_lt213a_opendis.Panel.Tests.{cold}

abbrev always : Chip → ℕ → Bool
always c t = true

abbrev g : Board Bench
g = bench always

-- No call failed, and no region was opened.
abbrev is_fine : Event → Bool
is_fine (sent bytes s) = true
is_fine (began s) = not (failed s)
is_fine (opened_region x y width height s) = false
is_fine (wrote bytes s) = not (failed s)
is_fine (finished mode s) = not (failed s)
is_fine aborted = true
is_fine rebooted = true
is_fine (sampled s) = true

abbrev all_fine : List Event → Bool
all_fine [] = true
all_fine (e ∷ h) = is_fine e && all_fine h

abbrev act : Event → Epd Bench → Epd Bench
act (began s) p = (epd_begin g true p).1
act (wrote bytes s) p = (epd_write g true bytes p).1
act (finished mode s) p = (epd_finish g true mode p).1
act aborted p = (epd_off g true p).1
act e p = p

unfoldable replay : List Event → Epd Bench
replay [] = (epd_init g true cold).1
replay (e ∷ h) = act e (replay h)

wait_ready-ready : (b : Bench) → (wait_ready g b).0 ≡ done
unfolding wait_ready wait_rounds
wait_ready-ready b = refl

begin-ready : (p : Epd Bench) → (epd_begin g true p).0 ≡ done
unfolding epd_begin panel_begin wait_ready wait_rounds
begin-ready p = refl

off-ready : (p : Epd Bench) → (epd_off g true p).0 ≡ done
unfolding epd_off wait_ready wait_rounds
off-ready p = elim (Bool-cases p.awake) [ inl y ↦ rw y refl | inr n ↦ rw n refl ]

finish-ready : (mode : ℕ) (p : Epd Bench) → (epd_finish g true mode p).0 ≡ done
unfolding epd_finish wait_ready wait_rounds
finish-ready mode p = off-ready _

write-ready : (bytes : List ℕ) (p : Epd Bench) → (epd_write g true bytes p).0 ≡ done
unfolding epd_write
write-ready [] p = refl
write-ready (v ∷ bytes) p = refl

act-Driven :
    (e : Event) (h : List Event) (p : Epd Bench)
    → is_fine e ≡ true
    → Driven always true h p
    → Driven always true (e ∷ h) (act e p)
act-Driven (sent bytes s) h p fine d = sends bytes s d
act-Driven (began done) h p fine d =
    subst (λ s. Driven always true (began s ∷ h) (epd_begin g true p).1) (begin-ready p) (begins d)
act-Driven (wrote bytes done) h p fine d =
    subst (λ s. Driven always true (wrote bytes s ∷ h) (epd_write g true bytes p).1)
      (write-ready bytes p) (writes bytes d)
act-Driven (finished mode done) h p fine d =
    subst (λ s. Driven always true (finished mode s ∷ h) (epd_finish g true mode p).1)
      (finish-ready mode p) (finishes mode d)
act-Driven aborted h p fine d = aborts d
act-Driven rebooted h p fine d = reboots d
act-Driven (sampled s) h p fine d = samples s d
act-Driven (began (fail e)) h p fine d = absurd (ground arith)
act-Driven (wrote bytes (fail e)) h p fine d = absurd (ground arith)
act-Driven (finished mode (fail e)) h p fine d = absurd (ground arith)
act-Driven (opened_region x y width height s) h p fine d = absurd (ground arith)

replay-Driven : (h : List Event) → all_fine h ≡ true → Driven always true h (replay h)
unfolding replay
replay-Driven [] fine = started cold refl refl
replay-Driven (e ∷ h) fine =
    act-Driven e h (replay h) (ground arith) (replay-Driven h (ground arith))

abbrev history : List Event
history = (upload copying pages [] agreeable chunks 1 (tag_at zeroed)).device

history_fine : all_fine history ≡ true
unfolding upload send_data od_handle dispatch transfer_end end_allowed all_received direct_data
    direct_start reply send set_compressed set_active cancel_config od_abort od_reset stream_reply
    stream stream_raw write_panel finish_transfer refresh
history_fine = refl

displayed-upload_example :
    (replay history).board.chip.shown ≡ some (white_plane, map u8 (concat chunks))
displayed-upload_example =
    displayed-upload copying pages [] agreeable always true (λ h. refl) chunks 1 (tag_at zeroed)
      (replay history) (booted (record { store = fresh_store; flash = blank_pages }) [])
      chunks-AreChunks chunks_whole (omega arith) (replay-Driven history history_fine)
