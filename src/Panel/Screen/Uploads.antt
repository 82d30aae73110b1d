-- ===== src/Panel/Screen/Uploads.antt =====
-- From the Bluetooth frames of a whole upload, through od_handle of protocol.c and the driver of
-- epd.c, to the planes of the controller.
use greentags_lt213a_opendis.Prelude.{
  Bool, List, [], ap, done, length, map, some, u8, ℕ, ◌∙◌, ◌∷◌, ◌≡◌, ◌≤◌,
}
use greentags_lt213a_opendis.Config.Flash.{FlashOps}
use greentags_lt213a_opendis.Protocol.Base.{Zlib, World, frame_bytes}
use greentags_lt213a_opendis.Protocol.Trace.{Event, Device}
use greentags_lt213a_opendis.Protocol.Trace.Safety.{Reachable, handled, reachable-IsSafe}
use greentags_lt213a_opendis.Protocol.Trace.Upload.{
  start_frame, data_frame, end_frame, concat, AreChunks, send_data, upload, shown-upload,
}
use greentags_lt213a_opendis.Protocol.Trace.Moves.{
  Move, IsSchedule, sent_image, pipe_start_frame, frame_of, frames_after,
}
use greentags_lt213a_opendis.Protocol.Trace.PipeUpload.{send_moves, pipe_upload, shown-pipe_upload}
use greentags_lt213a_opendis.Panel.Driver.{Epd}
use greentags_lt213a_opendis.Panel.Waveform.{white_plane}
use greentags_lt213a_opendis.Panel.Bench.{Bench, Chip}
use greentags_lt213a_opendis.Panel.Screen.{Driven, picture, pictured}
use greentags_lt213a_opendis.Panel.Screen.Refines.{driven-screen}

module _ {Z F : Type 0} (zlib : Zlib Z) (flash : FlashOps F) (build_sha : List ℕ) (d : Device) where
  abbrev Run : Type 0
  Run = World Z F (List Event)

  abbrev IsReachable : Run → Type 0
  IsReachable = Reachable zlib flash build_sha d

  send_data-Reachable :
      (chunks : List (List ℕ)) (w : Run)
      → IsReachable w
      → IsReachable (send_data zlib flash build_sha d chunks w)
  unfolding send_data
  send_data-Reachable [] w r = r
  send_data-Reachable (chunk ∷ chunks) w r =
      send_data-Reachable chunks _ (handled (data_frame chunk) r)

  send_moves-Reachable :
      (n : ℕ) (moves : List Move) (w : Run)
      → IsReachable w
      → IsReachable (send_moves zlib flash build_sha d n moves w)
  unfolding send_moves
  send_moves-Reachable n [] w r = r
  send_moves-Reachable n (move ∷ moves) w r =
      send_moves-Reachable (frames_after n move) moves _ (handled (frame_of n move) r)

  pub upload-Reachable :
      (chunks : List (List ℕ)) (mode : ℕ) (w : Run)
      → IsReachable w
      → IsReachable (upload zlib flash build_sha d chunks mode w)
  unfolding upload
  upload-Reachable chunks mode w r =
      handled (end_frame mode) (send_data-Reachable chunks _ (handled start_frame r))

  pub pipe_upload-Reachable :
      (moves : List Move) (w : Run)
      → IsReachable w
      → IsReachable (pipe_upload zlib flash build_sha d moves w)
  unfolding pipe_upload
  pipe_upload-Reachable moves w r = send_moves-Reachable 0 moves _ (handled pipe_start_frame r)

  module _ (level : Chip → ℕ → Bool) (deep_sleep : Bool)
      (yes : (h : List Event) → d.answer h ≡ done) where
    -- From a state that the firmware reaches, on a device that answers every call without an error,
    -- START, data frames of 1 to 230 bytes with 2756 in all, and END with mode 0 or 1: when the
    -- calls of the history are those that the panel driver answered, the controller's last refresh
    -- showed the bytes of the host, over an old plane that is all white.
    pub displayed-upload :
        (chunks : List (List ℕ)) (mode : ℕ) (w : Run) (p : Epd Bench)
        → IsReachable w
        → AreChunks chunks
        → length (concat chunks) ≡ frame_bytes
        → mode ≤ 1
        → Driven level deep_sleep (upload zlib flash build_sha d chunks mode w).device p
        → p.board.chip.shown ≡ some (white_plane, map u8 (concat chunks))
    unfolding picture
    displayed-upload chunks mode w p r ok size small driven =
        let safe = reachable-IsSafe zlib flash build_sha d (upload-Reachable chunks mode w r) in
        (driven-screen level deep_sleep driven safe).0
        ∙ ap pictured (shown-upload zlib flash build_sha d yes chunks mode w ok size small)

    pub displayed-pipe_upload :
        (moves : List Move) (w : Run) (p : Epd Bench)
        → IsReachable w
        → IsSchedule 0 moves
        → length (sent_image moves) ≡ frame_bytes
        → Driven level deep_sleep (pipe_upload zlib flash build_sha d moves w).device p
        → p.board.chip.shown ≡ some (white_plane, map u8 (sent_image moves))
    unfolding picture
    displayed-pipe_upload moves w p r ok size driven =
        let safe = reachable-IsSafe zlib flash build_sha d (pipe_upload-Reachable moves w r) in
        (driven-screen level deep_sleep driven safe).0
        ∙ ap pictured (shown-pipe_upload zlib flash build_sha d yes moves w ok size)
