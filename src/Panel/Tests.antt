-- ===== src/Panel/Tests.antt =====
-- The theorems about the panel driver at concrete inputs.
mod Replay
use greentags_lt213a_opendis.Prelude.{
  Bool, List, [], arith, done, false, ltb, none, refl, some, true, ℕ, ◌+◌, ◌∷◌, ◌≡◌,
}
use greentags_lt213a_opendis.Protocol.Trace.{Event, wrote, opened_region, finished, IsSafe, panel}
use greentags_lt213a_opendis.Protocol.Transfer.{outside}
use greentags_lt213a_opendis.Panel.Gpio.{
  Board, clock_bit, clock_bits, shift_out, byte_out, data_all,
}
use greentags_lt213a_opendis.Panel.Ready.{wait_rounds, wait_ready}
use greentags_lt213a_opendis.Panel.Driver.{
  Epd, panel_reset, sleep_panel, epd_off, epd_init, configure, wake, panel_begin, send_luts,
  send_window, epd_begin, epd_region, switch_plane, write_bytes, epd_write, epd_finish,
}
use greentags_lt213a_opendis.Panel.Ready.Ends.{Polls, wait_ready-Polls}
use greentags_lt213a_opendis.Panel.Ready.Outcome.{
  ReadyFrom, wait_ready-done, TimesOut, stuck-TimesOut,
}
use greentags_lt213a_opendis.Panel.Bench.Clock.{bench-BoardLaws}
use greentags_lt213a_opendis.Panel.Bench.{Bench, Chip, bench}
use greentags_lt213a_opendis.Panel.Screen.{screen, Driven, started, opens, writes, finishes}
use greentags_lt213a_opendis.Panel.Screen.Refines.{driven-screen}

-- A panel that is busy for the first 200 milliseconds.
abbrev late : Chip → ℕ → Bool
late c t = ltb 200 t

abbrev pub cold : Epd Bench
cold = record {
  partial = false;
  awake = false;
  plane_bytes = 0;
  plane_written = 0;
  board = record {
    mosi_level = false;
    sck_level = false;
    cs_level = false;
    dc_level = false;
    reset_level = false;
    bits = [];
    clock = 0;
    chip = record {
      asleep = false;
      selected = 0;
      old_plane = [];
      new_plane = [];
      shown = none;
      unheard = 0;
    };
  };
}

abbrev g : Board Bench
g = bench late

abbrev booted : Epd Bench
booted = (epd_init g true cold).1

abbrev on_region : Epd Bench
on_region = (epd_region g true 14 8 0 16 1 booted).1

abbrev loaded : Epd Bench
loaded = (epd_write g true (1 ∷ 2 ∷ 3 ∷ 4 ∷ []) on_region).1

abbrev refreshed : Epd Bench
refreshed = (epd_finish g true 1 loaded).1

booted_asleep : booted.board.chip.asleep ≡ true
unfolding epd_init panel_reset epd_off sleep_panel wait_ready wait_rounds clock_bit clock_bits
    shift_out byte_out
booted_asleep = refl

region_shown : refreshed.board.chip.shown ≡ some (254 ∷ 253 ∷ [], 252 ∷ 251 ∷ [])
unfolding epd_init panel_reset epd_off sleep_panel wait_ready wait_rounds clock_bit clock_bits
    shift_out byte_out configure wake panel_begin send_luts send_window epd_region switch_plane
    write_bytes epd_write epd_finish data_all
region_shown = refl

abbrev region_history : List Event
region_history =
    finished 1 done ∷ wrote (1 ∷ 2 ∷ 3 ∷ 4 ∷ []) done ∷ opened_region 8 0 16 1 done ∷ []

on_region-Driven : Driven late true region_history refreshed
unfolding epd_init panel_reset epd_off sleep_panel wait_ready wait_rounds clock_bit clock_bits
    shift_out byte_out configure wake panel_begin send_luts send_window epd_region switch_plane
    write_bytes epd_write epd_finish data_all
on_region-Driven =
    finishes 1 (writes (1 ∷ 2 ∷ 3 ∷ 4 ∷ []) (opens 14 8 0 16 1 (started cold refl refl)))

on_region-IsSafe : IsSafe region_history
unfolding IsSafe panel outside
on_region-IsSafe = (refl, (omega arith, (refl, refl, refl, tt)))

driven-screen_example :
    (refreshed.board.chip.shown ≡ screen region_history) × (refreshed.board.chip.unheard ≡ 0)
driven-screen_example = driven-screen late true on_region-Driven on_region-IsSafe

wait_ready-Polls_example :
    Polls g
      (cold.board.clock + 30000)
      cold.board
      (wait_ready g cold.board).0
      (wait_ready g cold.board).1
wait_ready-Polls_example = wait_ready-Polls g (bench-BoardLaws late) cold.board

late-ReadyFrom : ReadyFrom g 201
late-ReadyFrom b later = ground arith

wait_ready-done_example : (wait_ready g cold.board).0 ≡ done
wait_ready-done_example =
    wait_ready-done g 201 cold.board (bench-BoardLaws late) late-ReadyFrom (omega arith)

-- A panel that is always busy.
abbrev never : Chip → ℕ → Bool
never c t = false

abbrev open_panel : Epd Bench
open_panel = record cold { awake = true; partial = true }

stuck-TimesOut_example :
    TimesOut (bench never) (epd_begin (bench never) true open_panel)
    × TimesOut (bench never) (epd_region (bench never) true 14 8 0 16 1 open_panel)
    × TimesOut (bench never) (epd_finish (bench never) true 0 open_panel)
    × TimesOut (bench never) (epd_off (bench never) true open_panel)
stuck-TimesOut_example =
    stuck-TimesOut (bench never) true (bench-BoardLaws never) 14 8 0 16 1 0 open_panel (λ b. refl)
      refl refl
