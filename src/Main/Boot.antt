-- ===== src/Main/Boot.antt =====
-- The start of `main` of main.c, before its loop.
use greentags_lt213a_opendis.Prelude.{
  Bool, List, Status, [], bit_and, bit_or, done, driver, fail, false, if◌then◌else◌, not, true, u8,
  ℕ, ◌!=◌, ◌&&◌, ◌*◌, ◌+◌, ◌-◌, ◌/◌, ◌^◌, ◌||◌, ◌∷◌,
}
use greentags_lt213a_opendis.Config.Store.{init}
use greentags_lt213a_opendis.Security.Session.{od_security_reset, od_security_enabled}
use greentags_lt213a_opendis.Panel.Driver.{epd_init}
use greentags_lt213a_opendis.Main.Shell.{Firmware, on_panel}
use greentags_lt213a_opendis.Main.Dispatch.{State, bytes_in_force, set_security}
use greentags_lt213a_opendis.Main.Loop.{
  Clock, fast_adv_ms, no_generation, change_flags, call, ask, set_msd, read_msd, update_name,
  advertise,
}

-- DEVICEADDR[0] and DEVICEADDR[1] of the chip, and DEVICEADDRTYPE.
pub record Address : Type 0 where
  pub low : ℕ
  pub high : ℕ
  pub type : ℕ

-- A random address that is not erased.
abbrev pub has_identity : Address → Bool
has_identity a =
    bit_and a.type 1 != 0 && (a.low != 2 ^ 32 - 1 || bit_and a.high (2 ^ 16 - 1) != 2 ^ 16 - 1)

-- The four bytes of the low word and two of the high word, least significant first, with the bits of a
-- static address set.
abbrev pub static_address : Address → List ℕ
static_address a =
    u8 a.low
    ∷ u8 (a.low / 2 ^ 8)
    ∷ u8 (a.low / 2 ^ 16)
    ∷ u8 (a.low / 2 ^ 24)
    ∷ u8 a.high
    ∷ bit_or (u8 (a.high / 2 ^ 8)) 192
    ∷ []

-- The calls that only the start makes: the registers of the watchdog, device_is_ready of the flash,
-- bt_id_create and bt_enable.
pub record Starter (K : Type 0) : Type 0 where
  pub start_watchdog : ℕ → K → K
  pub flash_ready : K → Bool
  pub id_create : List ℕ → K → Status × K
  pub enable : K → Status × K
  pub address : Address

-- The locals of `main` at the start of its loop. Nothing stands between its three readings of the clock.
abbrev pub start_clock : ℕ → Clock
start_clock now = record {
  fast_advertising = true;
  restart_advertising = false;
  retry_adv_at = 0;
  slow_adv_at = now + fast_adv_ms;
  current = no_generation;
  last_packet = now;
  last_activity = now;
  last_telemetry = now;
}

module _ {Z F K : Type 0} (fw : Firmware Z F K) (starter : Starter K) where
  -- storage_init of storage.c; an unready device is ENODEV.
  unfoldable pub storage_init : State Z F K → Status × State Z F K
  storage_init w =
      if not (starter.flash_ready w.device.panel.board)
      then (fail (driver 19), w)
      else (done, record w { config = record w.config { store = init fw.flash w.config.flash } })

  -- One step of the start, unless an earlier one failed.
  abbrev pub then_try :
      (State Z F K → Status × State Z F K) → Status × State Z F K → Status × State Z F K
  then_try f (done, w) = f w
  then_try f (fail e, w) = (fail e, w)

  abbrev pub prepare : State Z F K → Status × State Z F K
  prepare w₀ =
      let w₁ = set_security (od_security_reset w₀.device.security) w₀ in
      let msd = change_flags (λ b. bit_or b 8) w₁.device.msd in
      let w = if od_security_enabled (bytes_in_force fw w₁) then set_msd fw msd w₁ else w₁ in
      let (err, d) = on_panel fw (epd_init fw.kernel.board fw.deep_sleep) w.device in
      (err, record w { device = d })

  abbrev pub identify : State Z F K → Status × State Z F K
  identify w =
      if has_identity starter.address
      then ask fw (starter.id_create (static_address starter.address)) w
      else (done, w)

  -- Up to the loop, or the error that `main` returns.
  unfoldable pub boot : State Z F K → Status × State Z F K
  boot w₀ =
      let w = call fw (starter.start_watchdog (180 * 32768 - 1)) w₀ in
      then_try (advertise fw true) (
        then_try (update_name fw) (
          then_try (ask fw starter.enable) (
            then_try identify
              (then_try (λ w. (done, (read_msd fw w).1)) (then_try prepare (storage_init w))))))
