-- ===== src/Panel/Screen.antt =====
-- The panel driver behind the callbacks of main.c: a history of calls through `struct od_io` that the
-- driver answered, and what the controller shows after it.
pub mod Opens
pub mod Refines
pub mod Uploads
use greentags_lt213a_opendis.Prelude.{
  Bool, List, Option, Status, [], drop, map, none, some, take, u8, ℕ, ◌∷◌, ◌≡◌,
}
use greentags_lt213a_opendis.Protocol.Trace.{
  Event, sent, began, opened_region, wrote, finished, aborted, rebooted, sampled,
}
use greentags_lt213a_opendis.Protocol.Trace.Display.{Opening, whole_frame, region, shown}
use greentags_lt213a_opendis.Panel.Gpio.{Board}
use greentags_lt213a_opendis.Panel.Driver.{
  Epd, epd_init, epd_begin, epd_region, epd_write, epd_finish, epd_off,
}
use greentags_lt213a_opendis.Panel.Waveform.{invert, white_plane}
use greentags_lt213a_opendis.Panel.Bench.{Bench, Chip, bench}

-- The old and the new plane of an image. A region has both, inverted; a whole image replaces white.
unfoldable pub picture : Opening → List ℕ → List ℕ × List ℕ
picture whole_frame bytes = (white_plane, map u8 bytes)
picture (region n) bytes = (take n (map invert bytes), drop n (map invert bytes))

-- The planes of the last refresh of a history.
abbrev pub pictured : Option (ℕ × Opening × List ℕ) → Option (List ℕ × List ℕ)
pictured none = none
pictured (some (mode, o, bytes)) = some (picture o bytes)

abbrev pub screen : List Event → Option (List ℕ × List ℕ)
screen h = pictured (shown h)

module _ (level : Chip → ℕ → Bool) (deep_sleep : Bool) where
  abbrev g : Board Bench
  g = bench level

  -- begin, region, write_panel, finish and abort_panel of main.c call the driver. The history has
  -- their results; the other calls do not reach it. Time passes between the calls.
  pub data Driven : List Event → Epd Bench → Type 0 where
    started :
        (p : Epd Bench)
        → p.board.chip.unheard ≡ 0
        → p.board.chip.shown ≡ none
        → Driven [] (epd_init g deep_sleep p).1
    waited :
        {h : List Event} {p : Epd Bench} (ms : ℕ)
        → Driven h p
        → Driven h (record p { board = g.msleep ms p.board })
    begins :
        {h : List Event} {p : Epd Bench}
        → Driven h p
        → Driven (began (epd_begin g deep_sleep p).0 ∷ h) (epd_begin g deep_sleep p).1
    opens :
        {h : List Event} {p : Epd Bench} (frames x y width height : ℕ)
        → Driven h p
        → Driven
            (opened_region x y width height (epd_region g deep_sleep frames x y width height p).0
              ∷ h)
            (epd_region g deep_sleep frames x y width height p).1
    writes :
        {h : List Event} {p : Epd Bench} (bytes : List ℕ)
        → Driven h p
        → Driven
            (wrote bytes (epd_write g deep_sleep bytes p).0 ∷ h)
            (epd_write g deep_sleep bytes p).1
    finishes :
        {h : List Event} {p : Epd Bench} (mode : ℕ)
        → Driven h p
        → Driven
            (finished mode (epd_finish g deep_sleep mode p).0 ∷ h)
            (epd_finish g deep_sleep mode p).1
    aborts :
        {h : List Event} {p : Epd Bench}
        → Driven h p
        → Driven (aborted ∷ h) (epd_off g deep_sleep p).1
    sends :
        {h : List Event} {p : Epd Bench} (bytes : List ℕ) (s : Status)
        → Driven h p
        → Driven (sent bytes s ∷ h) p
    reboots : {h : List Event} {p : Epd Bench} → Driven h p → Driven (rebooted ∷ h) p
    samples : {h : List Event} {p : Epd Bench} (s : Status) → Driven h p → Driven (sampled s ∷ h) p
