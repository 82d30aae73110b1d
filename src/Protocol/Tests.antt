-- ===== src/Protocol/Tests.antt =====
-- The protocol at concrete inputs: a device that answers every call, and a decompressor that copies.
mod Writing
use greentags_lt213a_opendis.Prelude.{
  List, [], arith, done, ebadmsg, fail, false, length, refl, replicate, some, suc, sym, true, ℕ,
  ◌*◌, ◌++◌, ◌/◌, ◌<◌, ◌^◌, ◌↔◌, ◌∙◌, ◌∷◌, ◌≡◌, ◌⊎◌,
}
use greentags_lt213a_opendis.Config.Flash.Nor.{pages, blank_pages}
use greentags_lt213a_opendis.Config.Store.{fresh_store, get_config}
use greentags_lt213a_opendis.Protocol.Base.{output_ready, od_reset, frame_bytes}
use greentags_lt213a_opendis.Protocol.Wire.{be}
use greentags_lt213a_opendis.Protocol.Stream.{stream, stream_raw, write_panel, stream_zlib}
use greentags_lt213a_opendis.Protocol.Transfer.{
  start_region, outside, sack_mask, send, reply, od_abort, finish_transfer, refresh,
}
use greentags_lt213a_opendis.Protocol.ConfigCommands.{cancel_config, config_read}
use greentags_lt213a_opendis.Protocol.DirectCommands.{
  direct_start, direct_data, stream_reply, set_compressed, set_active, transfer_end, end_allowed,
  all_received,
}
use greentags_lt213a_opendis.Protocol.PipeCommands.{is_repeat}
use greentags_lt213a_opendis.Protocol.Handle.{od_handle, dispatch}
use greentags_lt213a_opendis.Protocol.Stream.Fuel.{Rounds, stream_zlib-Rounds}
use greentags_lt213a_opendis.Protocol.Window.{bit, seq_before, is_repeat_iff, sack_mask_iff}
use greentags_lt213a_opendis.Protocol.Region.{IsWindow, start_region-IsWindow}
use greentags_lt213a_opendis.Protocol.Trace.{IsSafe, intact}
use greentags_lt213a_opendis.Protocol.Trace.Safety.{
  Reachable, booted, handled, zeroed, reachable-IsSafe, intact-reachable,
}
use greentags_lt213a_opendis.Protocol.Trace.ConfigRead.{so_far, read_back, read_back-config_read}
use greentags_lt213a_opendis.Protocol.Trace.Display.{whole_frame, shown}
use greentags_lt213a_opendis.Protocol.Trace.Upload.{
  start_frame, data_frame, concat, send_data, upload, shown-upload,
}
use greentags_lt213a_opendis.Protocol.Trace.Moves.{Move, new_frame, again, IsSchedule, sent_image}
use greentags_lt213a_opendis.Protocol.Trace.PipeUpload.{pipe_upload, shown-pipe_upload}
use greentags_lt213a_opendis.Protocol.Samples.{
  copy_poll, copying, agreeable, Run, tag, tag_at, chunks, chunks-AreChunks, chunks_whole,
}

shown-upload_example :
    shown (upload copying pages [] agreeable chunks 1 (tag_at zeroed)).device
    ≡ some (1, whole_frame, concat chunks)
shown-upload_example =
    shown-upload copying pages [] agreeable (λ h. refl) chunks 1 (tag_at zeroed) chunks-AreChunks
      chunks_whole (omega arith)

-- The second frame is repeated, and the first one, and the last one after the refresh.
abbrev moves : List Move
moves =
    new_frame (replicate 241 1)
    ∷ new_frame (replicate 241 2)
    ∷ again 0 (replicate 241 2)
    ∷ again 1 (replicate 241 1)
    ∷ (replicate 9 (new_frame (replicate 241 3))
        ++ new_frame (replicate 105 4) ∷ again 0 (replicate 105 4) ∷ [])

moves-IsSchedule : IsSchedule 0 moves
unfolding IsSchedule
moves-IsSchedule = ground (arith)

moves_whole : length (sent_image moves) ≡ frame_bytes
unfolding sent_image
moves_whole = refl

shown-pipe_upload_example :
    shown (pipe_upload copying pages [] agreeable moves (tag_at zeroed)).device
    ≡ some (0, whole_frame, sent_image moves)
shown-pipe_upload_example =
    shown-pipe_upload copying pages [] agreeable (λ h. refl) moves (tag_at zeroed) moves-IsSchedule
      moves_whole

abbrev begun_state : Run
begun_state = (od_handle tag start_frame (tag_at zeroed)).1

abbrev begun_upload : Reachable copying pages [] agreeable begun_state
begun_upload = handled start_frame (booted (record { store = fresh_store; flash = blank_pages }) [])

reachable-IsSafe_example : IsSafe (od_handle tag (data_frame (1 ∷ 2 ∷ [])) begun_state).1.device
reachable-IsSafe_example =
    reachable-IsSafe copying pages [] agreeable (handled (data_frame (1 ∷ 2 ∷ [])) begun_upload)

data-Reachable :
    (chunks : List (List ℕ)) (w : Run)
    → Reachable copying pages [] agreeable w
    → Reachable copying pages [] agreeable (send_data copying pages [] agreeable chunks w)
unfolding send_data
data-Reachable [] w r = r
data-Reachable (chunk ∷ chunks) w r = data-Reachable chunks _ (handled (data_frame chunk) r)

-- An END that gives the image the etag 77.
abbrev etag_frame : List ℕ
etag_frame = 0 ∷ 0x72 ∷ 0 ∷ 0 ∷ 0 ∷ 0 ∷ 77 ∷ []

abbrev shown_state : Run
shown_state = (od_handle tag etag_frame (send_data copying pages [] agreeable chunks begun_state)).1

shown_etag : shown_state.proto.displayed_etag ≡ 77
unfolding od_handle dispatch direct_start direct_data transfer_end stream stream_raw stream_reply
    write_panel send reply od_abort od_reset set_compressed set_active send_data cancel_config
    end_allowed all_received finish_transfer refresh be
shown_etag = refl

shown_idle : shown_state.proto.active ≡ false
unfolding od_handle dispatch direct_start direct_data transfer_end stream stream_raw stream_reply
    write_panel send reply od_abort od_reset set_compressed set_active send_data cancel_config
    end_allowed all_received finish_transfer refresh be
shown_idle = refl

not_zero : (n : ℕ) → ¬ (suc n ≡ 0)
not_zero n e = omega arith

intact-reachable_example : intact shown_state.device ≡ true
intact-reachable_example =
    intact-reachable copying pages [] agreeable
      (handled etag_frame (data-Reachable chunks begun_state begun_upload)) shown_idle
      (λ e. not_zero 76 (sym shown_etag ∙ e))

is_repeat_iff_example :
    is_repeat (record zeroed { next_seq = 44; pipe_frames = 300 }) 43 ≡ true
    ↔ ((k : ℕ) × (k < 33) × (k < 300) × (43 ≡ seq_before 300 k))
is_repeat_iff_example =
    is_repeat_iff (record zeroed { next_seq = 44; pipe_frames = 300 }) 43 refl (omega arith)

sack_mask_iff_example : bit (sack_mask 20) 18 ≡ true ↔ 19 < 20
sack_mask_iff_example = sack_mask_iff 20 18 (omega arith)

small_config : length (get_config pages (tag_at zeroed).config).1 < 2 ^ 16
unfolding get_config
small_config = omega arith

config_there : 0 < length (get_config pages (tag_at zeroed).config).1
unfolding get_config
config_there = omega arith

read_back-config_read_example :
    let bytes = (get_config pages (tag_at zeroed).config).1 in
    ((config_read tag 0x40 [] (tag_at zeroed)).0 ≡ done)
    × ((n : ℕ) × (read_back (config_read tag 0x40 [] (tag_at zeroed)).1.device
          ≡ so_far n (length bytes) bytes))
read_back-config_read_example =
    read_back-config_read copying pages [] agreeable (λ h. refl) (tag_at zeroed) config_there
      small_config

copying_fills :
    (left : List ℕ) → (copy_poll 32 left).0 ≡ output_ready → 0 < length (copy_poll 32 left).1
copying_fills [] e = ground (arith)
copying_fills (x ∷ left) e = omega arith

abbrev inflating : Run
inflating = tag_at (od_reset zeroed)

stream_zlib-Rounds_example :
    let pushed : Run = record inflating { inflater = 1 ∷ 2 ∷ [] } in
    ((false ≡ true) × (stream_zlib tag (1 ∷ 2 ∷ []) true inflating ≡ (fail ebadmsg, pushed)))
    ⊎ ((false ≡ false) × Rounds tag true pushed (stream_zlib tag (1 ∷ 2 ∷ []) true inflating))
unfolding od_reset
stream_zlib-Rounds_example =
    stream_zlib-Rounds tag copying_fills (1 ∷ 2 ∷ []) true inflating (omega arith) (omega arith)

abbrev old_etag : ℕ
old_etag = 77

abbrev known : Run
known = tag_at (record zeroed { displayed_etag = old_etag })

region_taken : (start_region tag old_etag 8 0 16 10 known).0 ≡ 0
unfolding start_region outside
region_taken = refl

start_region-IsWindow_example :
    (¬ (old_etag ≡ 0))
    × (old_etag ≡ known.proto.displayed_etag)
    × IsWindow 8 0 16 10
    × ((start_region tag old_etag 8 0 16 10 known).1.proto.active ≡ true)
    × ((start_region tag old_etag 8 0 16 10 known).1.proto.expected ≡ 16 / 8 * 10 * 2)
start_region-IsWindow_example = start_region-IsWindow tag old_etag 8 0 16 10 known region_taken
