-- ===== src/Main/Dispatch.antt =====
-- `dispatch` of main.c: what stands between a frame and `od_handle`.
pub mod Guard
use greentags_lt213a_opendis.Prelude.{
  Bool, List, Status, [], byte, done, drop, ealready, fail, failed, false, if◌then◌else◌, not, true,
  u32, u8, ℕ, ◌&&◌, ◌/◌, ◌==◌, ◌^◌, ◌∷◌,
}
use greentags_lt213a_opendis.Config.Store.{get_config}
use greentags_lt213a_opendis.Config.Fields.{partial_frames}
use greentags_lt213a_opendis.Protocol.Base.{World}
use greentags_lt213a_opendis.Protocol.Transfer.{od_abort}
use greentags_lt213a_opendis.Protocol.ConfigCommands.{cancel_config}
use greentags_lt213a_opendis.Protocol.Handle.{od_handle}
use greentags_lt213a_opendis.Security.Session.{
  Security, od_security_enabled, od_security_expire, od_security_auth, od_security_decrypt,
}
use greentags_lt213a_opendis.Main.Shell.{Shell, Firmware, sys, wire}

-- The command in the first two bytes.
abbrev pub names : ℕ → List ℕ → Bool
names code frame = byte frame 0 == 0 && byte frame 1 == code

-- The whole state of the firmware between two rounds, apart from the locals of `main`.
abbrev pub State : Type 0 → Type 0 → Type 0 → Type 0
State Z F K = World Z F (Shell K)

-- The four bytes of DEVICEID[0], the highest first.
abbrev pub identity : ℕ → List ℕ
identity id = u8 (id / 2 ^ 24) ∷ u8 (id / 2 ^ 16) ∷ u8 (id / 2 ^ 8) ∷ u8 id ∷ []

abbrev pub is_repeated : Status → Bool
is_repeated (fail ealready) = true
is_repeated s = false

module _ {Z F K : Type 0} where
  abbrev pub set_security : Security → State Z F K → State Z F K
  set_security security w = record w { device = record w.device { security = security } }

  abbrev pub set_frame : List ℕ → State Z F K → State Z F K
  set_frame frame w = record w {
    device = record w.device { command = record w.device.command { frame = frame } };
  }

module _ {Z F K : Type 0} (fw : Firmware Z F K) where
  abbrev pub bytes_in_force : State Z F K → List ℕ
  bytes_in_force w = (get_config fw.flash w.config).1

  abbrev pub give_up : State Z F K → State Z F K
  give_up w = cancel_config (sys fw) (od_abort (sys fw) w).1

  abbrev pub respond : List ℕ → State Z F K → Status × State Z F K
  respond bytes w = let (err, d) = wire fw bytes w.device in (err, record w { device = d })

  unfoldable pub expire : ℕ → State Z F K → State Z F K
  expire now w =
      let (expired, security) = od_security_expire (bytes_in_force w) now w.device.security in
      let w' = set_security security w in if expired then give_up w' else w'

  unfoldable pub authenticate : ℕ → State Z F K → Status × State Z F K
  authenticate now w₀ =
      let w = give_up w₀ in
      let (response, security) =
        od_security_auth fw.aes (bytes_in_force w) (drop 2 w.device.command.frame) now
          (identity (fw.kernel.device_id 0)) (fw.kernel.csrand 16 w.device.panel.board)
          w.device.security in
      respond response (set_security security w)

  -- What `od_config_partial_frames` gives to a region that the command opens.
  abbrev pub handle : State Z F K → Status × State Z F K
  handle w =
      let ready : State Z F K = record w {
        device = record w.device { frames = partial_frames (bytes_in_force w) };
      } in
      od_handle (sys fw) w.device.command.frame ready

  unfoldable pub open_frame : ℕ → State Z F K → Status × State Z F K
  open_frame now w =
      let frame = w.device.command.frame in
      let (err, plain, security) = od_security_decrypt fw.aes frame w.device.security in
      let w' = set_frame plain (set_security security w) in
      if failed err
      then if is_repeated err && names 0x81 frame
        then (done, w')
        else respond (0 ∷ byte frame 1 ∷ 0xff ∷ []) w'
      else handle w'

  unfoldable pub dispatch : State Z F K → Status × State Z F K
  dispatch w₀ =
      let now = u32 (fw.kernel.board.uptime w₀.device.panel.board) in
      let w = expire now w₀ in
      let frame = w.device.command.frame in
      if names 0x50 frame
      then authenticate now w
      else if od_security_enabled (bytes_in_force w) && not (names 0x43 frame)
      then if not w.device.security.authenticated
        then respond (0 ∷ byte frame 1 ∷ 0xfe ∷ []) w
        else open_frame now w
      else handle w
