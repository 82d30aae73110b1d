-- ===== src/Protocol/Trace/Upload.antt =====
-- A whole direct upload through `od_handle` of protocol.c: START, any number of data frames, END.
use greentags_lt213a_opendis.Prelude.{
  Bool, Bool-cases, List, [], ap, append_assoc, arith, done, failed, false, inl, inr, length,
  length-append, ltb, refl, some, subst, sym, true, u32, ℕ, ◌++◌, ◌+◌, ◌<◌, ◌∙◌, ◌∷◌, ◌≡◌, ◌≤◌,
}
use mathlib.Core.List.{append-nil}
use greentags_lt213a_opendis.Config.Flash.{FlashOps}
use greentags_lt213a_opendis.Protocol.Base.{Zlib, System, World, frame_bytes, od_reset}
use greentags_lt213a_opendis.Protocol.Stream.{stream}
use greentags_lt213a_opendis.Protocol.Transfer.{send, reply, od_abort, refresh, finish_transfer}
use greentags_lt213a_opendis.Protocol.ConfigCommands.{cancel_config}
use greentags_lt213a_opendis.Protocol.DirectCommands.{
  set_compressed, set_active, stream_reply, direct_start, direct_data, end_allowed, all_received,
  transfer_end,
}
use greentags_lt213a_opendis.Protocol.Trace.{Event, Device, recorded}
use greentags_lt213a_opendis.Protocol.Stream.{write_panel, stream_raw, room}
use greentags_lt213a_opendis.Protocol.Trace.Display.{
  whole_frame, loaded, whole_image, add_bytes, opening, image, shown,
}
use greentags_lt213a_opendis.Protocol.Handle.{dispatch, od_handle}

-- The frames of a direct upload.
abbrev pub start_frame : List ℕ
start_frame = 0 ∷ 0x70 ∷ []

abbrev pub data_frame : List ℕ → List ℕ
data_frame chunk = 0 ∷ 0x71 ∷ chunk

abbrev pub end_frame : ℕ → List ℕ
end_frame mode = 0 ∷ 0x72 ∷ mode ∷ []

unfoldable pub concat : List (List ℕ) → List ℕ
concat [] = []
concat (chunk ∷ chunks) = chunk ++ concat chunks

-- Every chunk fits into a frame of data.
unfoldable pub AreChunks : List (List ℕ) → Type 0
AreChunks [] = Unit {0}
AreChunks (chunk ∷ chunks) = (0 < length chunk) × (length chunk ≤ 230) × AreChunks chunks

module _ {Z F : Type 0} (zlib : Zlib Z) (flash : FlashOps F) (build_sha : List ℕ) (d : Device) where
  abbrev sys : System Z F (List Event)
  sys = recorded zlib flash build_sha d

  abbrev Run : Type 0
  Run = World Z F (List Event)

  -- The frames one after the other, and the END.
  unfoldable pub send_data : List (List ℕ) → Run → Run
  send_data [] w = w
  send_data (chunk ∷ chunks) w = send_data chunks (od_handle sys (data_frame chunk) w).1

  unfoldable pub upload : List (List ℕ) → ℕ → Run → Run
  upload chunks mode w =
      (od_handle sys (end_frame mode) (send_data chunks (od_handle sys start_frame w).1)).1

  -- An upload that goes on, with the bytes that the panel has.
  unfoldable Uploading : List ℕ → Run → Type 0
  Uploading bytes w =
      (w.proto.active ≡ true)
      × (w.proto.compressed ≡ false)
      × (w.proto.pipe ≡ false)
      × (w.proto.partial ≡ false)
      × (w.proto.received ≡ length bytes)
      × (w.proto.expected ≡ frame_bytes)
      × (loaded w.device ≡ whole_image bytes)

  module _ (yes : (h : List Event) → d.answer h ≡ done) where
    start-Uploading : (w : Run) → Uploading [] (od_handle sys start_frame w).1
    unfolding Uploading od_handle dispatch direct_start od_abort od_reset cancel_config
        set_compressed set_active reply send image opening
    start-Uploading w = elim (Bool-cases w.proto.active) [
      | inl y ↦ simp (y, yes) (refl, refl, refl, refl, refl, refl, refl)
      | inr n ↦ simp (n, yes) (refl, refl, refl, refl, refl, refl, refl)
    ]

    room-Uploading :
        (bytes : List ℕ) (n : ℕ) (w : Run)
        → Uploading bytes w
        → length bytes + n ≤ frame_bytes
        → (ltb (room w.proto) n ≡ false) × (u32 (w.proto.received + n) ≡ length bytes + n)
    unfolding Uploading
    room-Uploading bytes n w up fits = ground (arith)

    stream-Uploading :
        (bytes chunk : List ℕ) (final : Bool) (w : Run)
        → Uploading bytes w
        → length bytes + length chunk ≤ frame_bytes
        → let (err, w') = stream sys chunk final w in
          (failed err ≡ false) × Uploading (bytes ++ chunk) w'
    unfolding Uploading stream stream_raw write_panel image opening
    stream-Uploading bytes [] final w up fits =
        let (active, raw, direct, full, received, expected, written) = up in
        let (small, sum) = room-Uploading bytes 0 w up fits in
        rw (raw, small)
          (
            refl,
            (
              active,
              refl,
              direct,
              full,
              rw (sum, length-append bytes []) refl,
              expected,
              written ∙ ap whole_image (sym (append-nil bytes)),
            ),
          )
    stream-Uploading bytes (x ∷ chunk) final w up fits =
        let (active, raw, direct, full, received, expected, written) = up in
        let (small, sum) = room-Uploading bytes (length (x ∷ chunk)) w up fits in
        rw (raw, small, yes w.device)
          (
            refl,
            (
              active,
              refl,
              direct,
              full,
              rw (sum, length-append bytes (x ∷ chunk)) refl,
              expected,
              ap (add_bytes (x ∷ chunk)) written,
            ),
          )

    reply-Uploading :
        (bytes : List ℕ) (cmd : ℕ) (success : Bool) (w : Run)
        → Uploading bytes w
        → Uploading bytes (reply sys cmd success w).1
    unfolding Uploading reply send image opening
    reply-Uploading bytes cmd success w up = up

    data-Uploading :
        (bytes chunk : List ℕ) (w : Run)
        → Uploading bytes w
        → 0 < length chunk
        → length chunk ≤ 230
        → length bytes + length chunk ≤ frame_bytes
        → Uploading (bytes ++ chunk) (od_handle sys (data_frame chunk) w).1
    unfolding Uploading od_handle dispatch direct_data stream_reply
    data-Uploading bytes chunk w up has small fits =
        let w' = (stream sys chunk false w).1 in
        ground (
          arith,
          stream-Uploading bytes chunk false w up fits,
          reply-Uploading (bytes ++ chunk) 0x71 true w',
        )

    reply-done : (cmd : ℕ) (success : Bool) (w : Run) → (reply sys cmd success w).0 ≡ done
    unfolding reply send
    reply-done cmd success w = yes w.device

    refresh-shows :
        (mode etag : ℕ) (w : Run)
        → shown (refresh sys mode etag w).1.device ≡ some (mode, opening w.device, image w.device)
    unfolding refresh reply send shown
    refresh-shows mode etag w = refl

    finish-shows :
        (bytes : List ℕ) (cmd mode etag : ℕ) (w : Run)
        → Uploading bytes w
        → shown (finish_transfer sys cmd mode etag w).1.device ≡ some (mode, whole_frame, bytes)
    unfolding Uploading finish_transfer
    finish-shows bytes cmd mode etag w up =
        let (active, raw, direct, full, received, expected, written) = up in
        let w' = (reply sys cmd true w).1 in
        let (_, _, _, _, _, _, same) = reply-Uploading bytes cmd true w up in
        let shows : shown (refresh sys mode etag w').1.device ≡ some (mode, whole_frame, bytes) =
          refresh-shows mode etag w' ∙ ap (λ t. some (mode, t.0, t.1)) same in
        ground (arith, reply-done cmd true w, shows)

    end-shows :
        (bytes : List ℕ) (mode : ℕ) (w : Run)
        → Uploading bytes w
        → length bytes ≡ frame_bytes
        → mode ≤ 1
        → shown (od_handle sys (end_frame mode) w).1.device ≡ some (mode, whole_frame, bytes)
    unfolding Uploading od_handle dispatch transfer_end end_allowed all_received
    end-shows bytes mode w up whole small =
        let (fine, up') = stream-Uploading bytes [] true w up (omega arith) in
        let w' = (stream sys [] true w).1 in
        let again = subst (λ b. Uploading b w') (append-nil bytes) up' in
        let (active, raw, direct, full, received, expected, _) = again in
        let shows = finish-shows bytes 0x72 mode w'.proto.new_etag w' again in
        ground (arith, fine, shows)

    send_data-Uploading :
        (bytes : List ℕ) (chunks : List (List ℕ)) (w : Run)
        → Uploading bytes w
        → AreChunks chunks
        → length bytes + length (concat chunks) ≤ frame_bytes
        → Uploading (bytes ++ concat chunks) (send_data chunks w)
    unfolding send_data AreChunks concat
    send_data-Uploading bytes [] w up ok fits =
        subst (λ b. Uploading b w) (sym (append-nil bytes)) up
    send_data-Uploading bytes (chunk ∷ chunks) w up (has, small, ok) fits =
        let sum = length-append chunk (concat chunks) in
        let sum' = length-append bytes chunk in
        let next = data-Uploading bytes chunk w up has small (omega (arith, sum)) in
        subst (λ b. Uploading b (send_data (chunk ∷ chunks) w))
          (append_assoc bytes chunk (concat chunks))
          (send_data-Uploading (bytes ++ chunk) chunks _ next ok (omega (arith, sum, sum')))

    -- On a device that answers every call without an error, START, any data frames of 1 to 230 bytes
    -- each that carry 2756 bytes in all, and END with mode 0 or 1 leave exactly those bytes on the
    -- display, refreshed in that mode as a whole image, whatever the state before.
    pub shown-upload :
        (chunks : List (List ℕ)) (mode : ℕ) (w : Run)
        → AreChunks chunks
        → length (concat chunks) ≡ frame_bytes
        → mode ≤ 1
        → shown (upload chunks mode w).device ≡ some (mode, whole_frame, concat chunks)
    unfolding upload
    shown-upload chunks mode w ok whole small =
        let up = send_data-Uploading [] chunks _ (start-Uploading w) ok (omega arith) in
        end-shows (concat chunks) mode _ up whole small
