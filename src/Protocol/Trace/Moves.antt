-- ===== src/Protocol/Trace/Moves.antt =====
-- The frames of a pipe upload, commands 80 and 81 of protocol.c.
use greentags_lt213a_opendis.Prelude.{List, [], length, u8, ℕ, ◌++◌, ◌+◌, ◌<◌, ◌∷◌, ◌≤◌}
use greentags_lt213a_opendis.Protocol.Window.{seq_before}

-- What a host does: it sends the next frame, or again the one `k` before the last.
pub data Move : Type 0 where
  new_frame : List ℕ → Move
  again : ℕ → List ℕ → Move

-- Frame size 244, no compression, a whole image of 2756 bytes.
abbrev pub pipe_start_frame : List ℕ
pipe_start_frame = 0 ∷ 0x80 ∷ 1 ∷ 0 ∷ 1 ∷ 1 ∷ 244 ∷ 0 ∷ 0xc4 ∷ 0x0a ∷ 0 ∷ 0 ∷ []

-- The frame of a move after `n` frames.
unfoldable pub frame_of : ℕ → Move → List ℕ
frame_of n (new_frame chunk) = 0 ∷ 0x81 ∷ u8 n ∷ chunk
frame_of n (again k chunk) = 0 ∷ 0x81 ∷ seq_before n k ∷ chunk

abbrev pub frames_after : ℕ → Move → ℕ
frames_after n (new_frame chunk) = n + 1
frames_after n (again k chunk) = n

abbrev pub IsChunk : List ℕ → Type 0
IsChunk chunk = (0 < length chunk) × (length chunk ≤ 241)

abbrev pub IsMove : ℕ → Move → Type 0
IsMove n (new_frame chunk) = IsChunk chunk
IsMove n (again k chunk) = (k < 33) × (k < n) × IsChunk chunk

unfoldable pub IsSchedule : ℕ → List Move → Type 0
IsSchedule n [] = Unit {0}
IsSchedule n (move ∷ moves) = IsMove n move × IsSchedule (frames_after n move) moves

abbrev pub new_bytes : Move → List ℕ
new_bytes (new_frame chunk) = chunk
new_bytes (again k chunk) = []

-- The image that the new frames carry.
unfoldable pub sent_image : List Move → List ℕ
sent_image [] = []
sent_image (move ∷ moves) = new_bytes move ++ sent_image moves
