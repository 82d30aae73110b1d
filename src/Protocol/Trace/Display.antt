-- ===== src/Protocol/Trace/Display.antt =====
-- What a history of calls through `struct od_io` leaves on the display.
use greentags_lt213a_opendis.Prelude.{
  List, Option, [], done, fail, none, some, ℕ, ◌*◌, ◌++◌, ◌/◌, ◌∷◌,
}
use greentags_lt213a_opendis.Protocol.Trace.{
  Event, sent, began, opened_region, wrote, finished, aborted, rebooted, sampled,
}

-- The bytes that were written to the panel since it was opened.
unfoldable pub image : List Event → List ℕ
image [] = []
image (sent bytes s ∷ h) = image h
image (began s ∷ h) = []
image (opened_region x y width height s ∷ h) = []
image (wrote bytes done ∷ h) = image h ++ bytes
image (wrote bytes (fail e) ∷ h) = image h
image (finished mode s ∷ h) = image h
image (aborted ∷ h) = image h
image (rebooted ∷ h) = image h
image (sampled s ∷ h) = image h

-- What the panel was opened for: a whole image, or a region with so many bytes in a plane.
pub data Opening : Type 0 where
  whole_frame : Opening
  region : ℕ → Opening

unfoldable pub opening : List Event → Opening
opening [] = whole_frame
opening (sent bytes s ∷ h) = opening h
opening (began s ∷ h) = whole_frame
opening (opened_region x y width height s ∷ h) = region (width / 8 * height)
opening (wrote bytes s ∷ h) = opening h
opening (finished mode s ∷ h) = opening h
opening (aborted ∷ h) = opening h
opening (rebooted ∷ h) = opening h
opening (sampled s ∷ h) = opening h

-- What the panel was opened for, and the bytes so far.
abbrev pub loaded : List Event → Opening × List ℕ
loaded h = (opening h, image h)

abbrev pub whole_image : List ℕ → Opening × List ℕ
whole_image bytes = (whole_frame, bytes)

abbrev pub add_bytes : List ℕ → Opening × List ℕ → Opening × List ℕ
add_bytes bytes (o, im) = (o, im ++ bytes)

-- What the last refresh put on the display: its mode, what the panel was opened for, and the bytes.
unfoldable pub shown : List Event → Option (ℕ × Opening × List ℕ)
shown [] = none
shown (sent bytes s ∷ h) = shown h
shown (began s ∷ h) = shown h
shown (opened_region x y width height s ∷ h) = shown h
shown (wrote bytes s ∷ h) = shown h
shown (finished mode s ∷ h) = some (mode, opening h, image h)
shown (aborted ∷ h) = shown h
shown (rebooted ∷ h) = shown h
shown (sampled s ∷ h) = shown h
