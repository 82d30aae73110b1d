-- ===== src/Protocol/Trace.antt =====
-- What protocol.c does to its device, as a history: every call through `struct od_io` with its result,
-- the newest first. The results are an arbitrary function of the history so far.
pub mod Streams
pub mod Transfers
pub mod ConfigHandlers
pub mod ImageHandlers
pub mod ConfigRead
pub mod ConfigFrames
pub mod ConfigUpload
pub mod Pipe
pub mod Safety
pub mod Display
pub mod Upload
pub mod Moves
pub mod PipeSteps
pub mod PipeUpload
use greentags_lt213a_opendis.Prelude.{
  Bool, List, Status, [], bit_and, bit_or, done, fail, false, if◌then◌else◌, length, none, some,
  true, u8, ℕ, ◌+◌, ◌<◌, ◌==◌, ◌^◌, ◌||◌, ◌∷◌, ◌≡◌, ◌≤◌,
}
use greentags_lt213a_opendis.Prelude.{ℕ}
use greentags_lt213a_opendis.Protocol.Base.{
  Protocol, Io, Zlib, System, World, frame_bytes, max_frame,
}
use greentags_lt213a_opendis.Config.Flash.{FlashOps}
use greentags_lt213a_opendis.Protocol.Transfer.{outside, region_bytes}

pub data Event : Type 0 where
  sent : List ℕ → Status → Event
  began : Status → Event
  opened_region : ℕ → ℕ → ℕ → ℕ → Status → Event
  wrote : List ℕ → Status → Event
  finished : ℕ → Status → Event
  aborted rebooted : Event
  sampled : Status → Event

-- The history with a call that the device answers.
abbrev pub record_call : (List Event → Status) → (Status → Event) → List Event → Status × List Event
record_call answer event h = (answer h, event (answer h) ∷ h)

-- How the device answers, which of the two optional callbacks it has, and its telemetry bytes.
pub record Device : Type 0 where
  pub answer : List Event → Status
  pub has_sample : Bool
  pub has_region : Bool
  pub msd : List Event → List ℕ

abbrev pub recording : Device → Io (List Event)
recording d = record {
  send = λ bytes. record_call d.answer (sent bytes);
  begin = record_call d.answer began;
  write = λ bytes. record_call d.answer (wrote bytes);
  finish = λ mode. record_call d.answer (finished mode);
  abort = λ h. aborted ∷ h;
  reboot = λ h. rebooted ∷ h;
  msd = d.msd;
  sample_msd = if d.has_sample then some (record_call d.answer sampled) else none;
  region =
      if d.has_region
      then some (λ x y width height. record_call d.answer (opened_region x y width height))
      else none;
}

abbrev pub recorded :
    {Z F : Type 0} → Zlib Z → FlashOps F → List ℕ → Device → System Z F (List Event)
recorded zlib flash build_sha d = record {
  zlib = zlib;
  flash = flash;
  io = recording d;
  build_sha = build_sha;
}

-- What the panel expects: nothing, or the bytes of an image, of which some are written.
pub data Panel : Type 0 where
  closed : Panel
  opened : ℕ → ℕ → Panel

abbrev pub add_written : ℕ → Panel → Panel
add_written n closed = closed
add_written n (opened size written) = opened size (written + n)

unfoldable pub panel : List Event → Panel
panel [] = closed
panel (sent bytes s ∷ h) = panel h
panel (began done ∷ h) = opened frame_bytes 0
panel (began (fail e) ∷ h) = closed
panel (opened_region x y width height done ∷ h) = opened (region_bytes width height) 0
panel (opened_region x y width height (fail e) ∷ h) = closed
panel (wrote bytes done ∷ h) = add_written (length bytes) (panel h)
panel (wrote bytes (fail e) ∷ h) = panel h
panel (finished mode s ∷ h) = closed
panel (aborted ∷ h) = closed
panel (rebooted ∷ h) = panel h
panel (sampled s ∷ h) = panel h

-- `n` more bytes belong to the image that the panel expects.
abbrev pub HasRoom : ℕ → Panel → Type 0
HasRoom n closed = ⊥
HasRoom n (opened size written) = written + n ≤ size

-- Every byte of the image is written, and no other.
abbrev pub IsComplete : Panel → Type 0
IsComplete closed = ⊥
IsComplete (opened size written) = written ≡ size

-- The panel is used as it is meant to be: it is opened when it is closed, on a window of whole bytes
-- inside of it, never written past the end of the image, and refreshed only with a complete image.
unfoldable pub IsSafe : List Event → Type 0
IsSafe [] = Unit {0}
IsSafe (sent bytes s ∷ h) = IsSafe h
IsSafe (began s ∷ h) = (panel h ≡ closed) × IsSafe h
IsSafe (opened_region x y width height s ∷ h) =
    (panel h ≡ closed)
    × (outside x y width height ≡ false)
    × (bit_and (bit_or x width) 7 ≡ 0)
    × IsSafe h
IsSafe (wrote bytes s ∷ h) = HasRoom (length bytes) (panel h) × IsSafe h
IsSafe (finished mode s ∷ h) = IsComplete (panel h) × IsSafe h
IsSafe (aborted ∷ h) = IsSafe h
IsSafe (rebooted ∷ h) = (panel h ≡ closed) × IsSafe h
IsSafe (sampled s ∷ h) = IsSafe h

-- The display still shows the image of the last refresh.
unfoldable pub intact : List Event → Bool
intact [] = false
intact (sent bytes s ∷ h) = intact h
intact (began done ∷ h) = false
intact (began (fail e) ∷ h) = intact h
intact (opened_region x y width height s ∷ h) = false
intact (wrote bytes s ∷ h) = false
intact (finished mode done ∷ h) = true
intact (finished mode (fail e) ∷ h) = false
intact (aborted ∷ h) = false
intact (rebooted ∷ h) = intact h
intact (sampled s ∷ h) = intact h

-- The panel that a protocol state believes in.
abbrev pub believed : Protocol → Panel
believed p = if p.active then opened p.expected p.received else closed

-- The numbers of the state are in their ranges.
abbrev pub IsBounded : Protocol → Type 0
IsBounded p =
    (p.received ≤ p.expected)
    × (p.expected < 2 ^ 32)
    × (p.pipe_frames < 2 ^ 32)
    × (p.next_seq ≡ u8 p.pipe_frames)
    × (p.pipe_frame ≤ max_frame)

-- Besides, an image whose etag the state keeps is on the display, unless a transfer goes on.
unfoldable pub IsValid : {Z F : Type 0} → World Z F (List Event) → Type 0
IsValid w =
    IsBounded w.proto
    × (panel w.device ≡ believed w.proto)
    × IsSafe w.device
    × (w.proto.active || w.proto.displayed_etag == 0 || intact w.device ≡ true)

-- A valid state with a transfer that goes on, or without one.
abbrev pub IsActive : {Z F : Type 0} → World Z F (List Event) → Type 0
IsActive w = IsValid w × (w.proto.active ≡ true)

abbrev pub IsIdle : {Z F : Type 0} → World Z F (List Event) → Type 0
IsIdle w =
    IsValid w × (w.proto.active ≡ false) × (w.proto.received ≡ 0) × (w.proto.expected ≡ frame_bytes)
