-- ===== src/Main/Shell.antt =====
-- The callbacks that main.c gives to the protocol in `struct od_io`, and the state behind them.
use greentags_lt213a_opendis.Prelude.{
  Bool, List, Status, byte, failed, if◌then◌else◌, some, true, ℕ, ◌!=◌, ◌&&◌, ◌==◌,
}
use greentags_lt213a_opendis.Config.Flash.{FlashOps}
use greentags_lt213a_opendis.Protocol.Base.{Io, Zlib, System}
use greentags_lt213a_opendis.Panel.Driver.{
  Epd, epd_begin, epd_region, epd_write, epd_finish, epd_off,
}
use greentags_lt213a_opendis.Telemetry.Read.{od_read_msd}
use greentags_lt213a_opendis.Security.Crypto.{Aes}
use greentags_lt213a_opendis.Security.Session.{Security, od_security_encrypt}
use greentags_lt213a_opendis.Main.Kernel.{Command, Kernel}
use greentags_lt213a_opendis.Main.Send.{send_wire}

-- The static variables of main.c that only its loop uses, the command in hand, and the driver of the
-- panel with the state of Zephyr at its end. `name` is what the scan response points at; `frames` is
-- what `od_config_partial_frames` gives.
pub record Shell (K : Type 0) : Type 0 where
  pub command : Command
  pub security : Security
  pub msd : List ℕ
  pub name : List ℕ
  pub frames : ℕ
  pub panel : Epd K

-- The response is a zero and the command that it answers, outside of the handshake and discovery.
abbrev pub accepts : List ℕ → List ℕ → Bool
accepts bytes frame =
    byte bytes 0 == 0
    && byte bytes 1 == byte frame 1
    && byte bytes 1 != 0x43
    && byte bytes 1 != 0x50

abbrev pub is_secret : List ℕ → Bool
is_secret bytes = byte bytes 1 != 0x43 && byte bytes 1 != 0x50 && byte bytes 0 != 0xfe

-- What is fixed at a boot: Zephyr, the libraries, the flash driver, OD_BUILD_SHA, and
-- CONFIG_LT213A_EPD_DEEP_SLEEP.
pub record Firmware (Z F K : Type 0) : Type 0 where
  pub kernel : Kernel K
  pub zlib : Zlib Z
  pub flash : FlashOps F
  pub aes : Aes
  pub build_sha : List ℕ
  pub deep_sleep : Bool

module _ {Z F K : Type 0} (fw : Firmware Z F K) where
  abbrev pub on_kernel : {A : Type 0} → (K → A × K) → Shell K → A × Shell K
  on_kernel f s =
      let (a, k) = f s.panel.board in (a, record s { panel = record s.panel { board = k } })

  abbrev pub change : (K → K) → Shell K → Shell K
  change f s = record s { panel = record s.panel { board = f s.panel.board } }

  abbrev pub on_panel : {A : Type 0} → (Epd K → A × Epd K) → Shell K → A × Shell K
  on_panel f s = let (a, p) = f s.panel in (a, record s { panel = p })

  unfoldable pub wire : List ℕ → Shell K → Status × Shell K
  wire bytes s = on_kernel (send_wire fw.kernel s.command bytes) s

  abbrev pub mark_accepted : List ℕ → Shell K → Shell K
  mark_accepted bytes s =
      if accepts bytes s.command.frame
      then record s { command = record s.command { accepted = true } }
      else s

  unfoldable pub send_response : List ℕ → Shell K → Status × Shell K
  send_response bytes s₀ =
      let s = mark_accepted bytes s₀ in
      let (err, encrypted, security) = od_security_encrypt fw.aes bytes 64 s.security in
      let s' = record s { security = security } in
      if s.security.authenticated && is_secret bytes
      then if failed err then (err, s') else wire encrypted s'
      else wire bytes s

  unfoldable pub sample_msd : Shell K → Status × Shell K
  sample_msd s =
      let (err, msd, k) = od_read_msd fw.kernel.sensors s.msd s.panel.board in
      (err, record s { msd = msd; panel = record s.panel { board = k } })

  abbrev pub begin : Shell K → Status × Shell K
  begin = on_panel (epd_begin fw.kernel.board fw.deep_sleep)

  abbrev pub write_panel : List ℕ → Shell K → Status × Shell K
  write_panel bytes = on_panel (epd_write fw.kernel.board fw.deep_sleep bytes)

  abbrev pub finish : ℕ → Shell K → Status × Shell K
  finish mode = on_panel (epd_finish fw.kernel.board fw.deep_sleep mode)

  abbrev pub region : ℕ → ℕ → ℕ → ℕ → Shell K → Status × Shell K
  region x y w h s = on_panel (epd_region fw.kernel.board fw.deep_sleep s.frames x y w h) s

  abbrev pub abort_panel : Shell K → Shell K
  abort_panel s = (on_panel (epd_off fw.kernel.board fw.deep_sleep) s).1

  abbrev pub reboot : Shell K → Shell K
  reboot = change fw.kernel.reboot

  abbrev pub io : Io (Shell K)
  io = record {
    send = send_response;
    begin = begin;
    write = write_panel;
    finish = finish;
    abort = abort_panel;
    reboot = reboot;
    msd = λ s. s.msd;
    sample_msd = some sample_msd;
    region = some region;
  }

  abbrev pub sys : System Z F (Shell K)
  sys = record { zlib = fw.zlib; flash = fw.flash; io = io; build_sha = fw.build_sha }
