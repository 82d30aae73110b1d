-- ===== src/Panel/Bench.antt =====
-- A board to watch epd.c on: the levels of the pins, a clock, and the controller of the panel at the
-- other end of the wires, which takes bits at the rising edge of SCK while CS is low.
pub mod Clock
pub mod Transfer
pub mod Waiting
pub mod Sequences
pub mod Planes
pub mod Off
pub mod Opening
pub mod Window
pub mod Writing
pub mod Region
pub mod Finish
use greentags_lt213a_opendis.Prelude.{
  Bool, List, Option, [], false, if◌then◌else◌, length, not, some, suc, ℕ, ◌&&◌, ◌*◌, ◌++◌, ◌+◌,
  ◌==◌, ◌∷◌,
}
use greentags_lt213a_opendis.Panel.Gpio.{Board, mosi, sck, cs, dc, reset, busy}

-- The controller: its two image planes, the order that the next data bytes belong to, and what the
-- last refresh showed. `unheard` counts the bytes that reached it in deep sleep, which only a pulse
-- on RESET ends.
pub record Chip : Type 0 where
  pub asleep : Bool
  pub selected : ℕ
  pub old_plane : List ℕ
  pub new_plane : List ℕ
  pub shown : Option (List ℕ × List ℕ)
  pub unheard : ℕ

-- A byte with DC low.
abbrev pub ordered : ℕ → Chip → Chip
ordered v c = if c.asleep then record c { unheard = suc c.unheard } else record c {
  selected = v;
  old_plane = if v == 16 then [] else c.old_plane;
  new_plane = if v == 19 then [] else c.new_plane;
  shown = if v == 18 then some (c.old_plane, c.new_plane) else c.shown;
}

-- A byte with DC high.
abbrev pub given : ℕ → Chip → Chip
given v c = if c.asleep then record c { unheard = suc c.unheard } else record c {
  asleep = c.selected == 7 && v == 165;
  old_plane = if c.selected == 16 then c.old_plane ++ v ∷ [] else c.old_plane;
  new_plane = if c.selected == 19 then c.new_plane ++ v ∷ [] else c.new_plane;
}

abbrev pub heard : Bool → ℕ → Chip → Chip
heard is_data v c = if is_data then given v c else ordered v c

abbrev pub pulsed : Chip → Chip
pulsed c = record c { asleep = false; selected = 0 }

-- The levels of the outputs, and the bits of the byte on its way, the highest first.
pub record Bench : Type 0 where
  pub mosi_level : Bool
  pub sck_level : Bool
  pub cs_level : Bool
  pub dc_level : Bool
  pub reset_level : Bool
  pub bits : List Bool
  pub chip : Chip
  pub clock : ℕ

abbrev pub number : List Bool → ℕ → ℕ
number [] n = n
number (b ∷ bits) n = number bits (n * 2 + (if b then 1 else 0))

-- The eighth bit completes a byte.
abbrev pub shift_in : Bench → Bench
shift_in b =
    let bits = b.bits ++ b.mosi_level ∷ [] in
    if length bits == 8
    then record b { bits = []; chip = heard b.dc_level (number bits 0) b.chip }
    else record b { bits = bits }

abbrev pub clock_level : Bool → Bench → Bench
clock_level high b =
    let b' = record b { sck_level = high } in
    if high && not b.sck_level && not b.cs_level then shift_in b' else b'

abbrev pub reset_to : Bool → Bench → Bench
reset_to high b =
    let b' = record b { reset_level = high } in
    if high && not b.reset_level then record b' { chip = pulsed b.chip } else b'

abbrev pub set_level : ℕ → Bool → Bench → Bench
set_level pin high b =
    if pin == mosi.number
    then record b { mosi_level = high }
    else if pin == sck.number
    then clock_level high b
    else if pin == cs.number
    then record b { cs_level = high; bits = [] }
    else if pin == dc.number
    then record b { dc_level = high }
    else if pin == reset.number
    then reset_to high b
    else b

-- `level` says when the BUSY pin is high: any function of the controller and of the time. The
-- direction of a pin does not matter here, and pin writes take no time.
abbrev pub bench : (Chip → ℕ → Bool) → Board Bench
bench level = record {
  pin_write = set_level;
  pin_read = λ pin b. pin == busy.number && level b.chip b.clock;
  cfg_input = λ pin b. b;
  cfg_output = λ pin b. b;
  cfg_default = λ pin b. b;
  busy_wait = λ us b. b;
  msleep = λ ms b. record b { clock = b.clock + ms };
  uptime = λ b. b.clock;
}
