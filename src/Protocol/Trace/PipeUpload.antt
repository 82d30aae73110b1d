-- ===== src/Protocol/Trace/PipeUpload.antt =====
-- A whole upload through the pipe of protocol.c, with retransmissions.
use greentags_lt213a_opendis.Prelude.{
  Bool-cases, List, [], ap, append_assoc, arith, done, false, inl, inr, length, length-append, refl,
  some, sym, ℕ, ◌++◌, ◌+◌, ◌<◌, ◌==◌, ◌∙◌, ◌∷◌, ◌≡◌,
}
use greentags_lt213a_opendis.Config.Flash.{FlashOps}
use greentags_lt213a_opendis.Protocol.Base.{Zlib, System, World, frame_bytes}
use greentags_lt213a_opendis.Protocol.Trace.{Event, Device, recorded}
use mathlib.Core.List.{append-nil}
use greentags_lt213a_opendis.Protocol.Trace.Display.{whole_frame, shown}
use greentags_lt213a_opendis.Protocol.Handle.{od_handle}
use greentags_lt213a_opendis.Protocol.Trace.Moves.{
  Move, new_frame, again, pipe_start_frame, frame_of, frames_after, IsSchedule, sent_image,
}
use greentags_lt213a_opendis.Protocol.Trace.PipeSteps.{
  Piping, start-Piping, again-Piping, new-Piping, last-Shows, deaf,
}

module _ {Z F : Type 0} (zlib : Zlib Z) (flash : FlashOps F) (build_sha : List ℕ) (d : Device) where
  abbrev sys : System Z F (List Event)
  sys = recorded zlib flash build_sha d

  abbrev Run : Type 0
  Run = World Z F (List Event)

  unfoldable pub send_moves : ℕ → List Move → Run → Run
  send_moves n [] w = w
  send_moves n (move ∷ moves) w =
      send_moves (frames_after n move) moves (od_handle sys (frame_of n move) w).1

  unfoldable pub pipe_upload : List Move → Run → Run
  pipe_upload moves w = send_moves 0 moves (od_handle sys pipe_start_frame w).1

  module _ (yes : (h : List Event) → d.answer h ≡ done) where
    send_moves-deaf :
        (n : ℕ) (moves : List Move) (w : Run)
        → w.proto.active ≡ false
        → IsSchedule n moves
        → send_moves n moves w ≡ w
    unfolding send_moves IsSchedule
    send_moves-deaf n [] w idle ok = refl
    send_moves-deaf n (move ∷ moves) w idle (ok, more) =
        let same = deaf zlib flash build_sha d yes n move w idle ok in
        ap (send_moves (frames_after n move) moves) same
        ∙ send_moves-deaf (frames_after n move) moves w idle more

    -- What is left of a schedule without bytes has no image.
    empty-image : (bytes : List ℕ) → length bytes ≡ 0 → bytes ≡ []
    empty-image [] e = refl
    empty-image (x ∷ bytes) e = ground (arith)

    send_moves-Shows :
        (bytes : List ℕ) (n : ℕ) (moves : List Move) (w : Run)
        → Piping zlib flash build_sha d bytes n w
        → IsSchedule n moves
        → length bytes < frame_bytes
        → length bytes + length (sent_image moves) ≡ frame_bytes
        → shown (send_moves n moves w).device ≡ some (0, whole_frame, bytes ++ sent_image moves)
    unfolding send_moves IsSchedule sent_image
    send_moves-Shows bytes n [] w up ok low whole = ground (arith)
    send_moves-Shows bytes n (again k chunk ∷ moves) w up (ok, more) low whole =
        send_moves-Shows bytes n moves _
          (again-Piping zlib flash build_sha d yes bytes n k chunk w up ok) more low whole
    send_moves-Shows bytes n (new_frame chunk ∷ moves) w up (ok, more) low whole =
        let rest = sent_image moves in
        let sum = length-append chunk rest in
        let sum' = length-append bytes chunk in
        let w' = (od_handle sys (frame_of n (new_frame chunk)) w).1 in
        elim (Bool-cases (length rest == 0)) [
          | inl last ↦
              let none_left = empty-image rest (ground (arith)) in
              let (shows, idle) =
                last-Shows zlib flash build_sha d yes bytes chunk n w up ok (ground (arith, sum)) in
              ap (λ v. shown v.device) (send_moves-deaf (n + 1) moves w' idle more)
              ∙ shows
              ∙ ap (λ b. some (0, whole_frame, bytes ++ b))
                  (sym (ap (λ r. chunk ++ r) none_left ∙ append-nil chunk))
          | inr some_left ↦
              let next =
                new-Piping zlib flash build_sha d yes bytes chunk n w up ok (ground (arith, sum)) in
              send_moves-Shows (bytes ++ chunk) (n + 1) moves w' next more
                (ground (arith, sum, sum')) (ground (arith, sum, sum'))
              ∙ ap (λ b. some (0, whole_frame, b)) (append_assoc bytes chunk rest)
        ]

    -- On a device that answers every call without an error, a pipe upload whose new frames carry 1
    -- to 241 bytes each, 2756 in all, with retransmissions of any of the last 33 frames in between
    -- and after, ends with exactly those bytes, in order, refreshed on the display as a whole image,
    -- whatever the state before.
    pub shown-pipe_upload :
        (moves : List Move) (w : Run)
        → IsSchedule 0 moves
        → length (sent_image moves) ≡ frame_bytes
        → shown (pipe_upload moves w).device ≡ some (0, whole_frame, sent_image moves)
    unfolding pipe_upload
    shown-pipe_upload moves w ok whole =
        send_moves-Shows [] 0 moves _ (start-Piping zlib flash build_sha d yes w) ok (omega arith)
          (omega arith)
