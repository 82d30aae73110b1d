-- ===== src/Main/Loop.antt =====
-- One round of the loop in `main` of main.c.
pub mod Deadline
pub mod Supervision
use greentags_lt213a_opendis.Prelude.{
  Bool, List, Option, Status, [], bit_and, bit_or, byte, failed, false, if◌then◌else◌, leb, min,
  none, not, some, splice, true, ℕ, ◌!=◌, ◌&&◌, ◌+◌, ◌-◌, ◌==◌, ◌^◌, ◌||◌, ◌∷◌,
}
use greentags_lt213a_opendis.Config.Fields.{config_name}
use greentags_lt213a_opendis.Config.Store.{writing}
use greentags_lt213a_opendis.Security.Session.{od_security_reset}
use greentags_lt213a_opendis.Main.Kernel.{Link, on_link}
use greentags_lt213a_opendis.Main.Shell.{Firmware, on_kernel, change, sample_msd}
use greentags_lt213a_opendis.Main.Dispatch.{State, bytes_in_force, give_up, set_security}

abbrev pub link_idle_ms : ℕ
link_idle_ms = 120000

abbrev pub telemetry_ms : ℕ
telemetry_ms = 300000

abbrev pub fast_adv_ms : ℕ
fast_adv_ms = 30000

-- The local variables of `main` that outlive a round. Times are milliseconds since the boot.
pub record Clock : Type 0 where
  pub fast_advertising : Bool
  pub restart_advertising : Bool
  pub retry_adv_at : ℕ
  pub slow_adv_at : ℕ
  pub current : ℕ
  pub last_packet : ℕ
  pub last_activity : ℕ
  pub last_telemetry : ℕ

-- The int -1 as a value of the atomic variable.
abbrev pub no_generation : ℕ
no_generation = 2 ^ 32 - 1

-- MIN of a deadline and another, when a condition holds.
abbrev pub sooner : Bool → ℕ → ℕ → ℕ
sooner c t deadline = if c then min deadline t else deadline

-- The end of the wait for events.
unfoldable pub deadline_of : Bool → Bool → Clock → ℕ → ℕ
deadline_of busy link_up c now =
    let base = now + 60000 in
    let quiet = sooner (not link_up) (c.last_telemetry + telemetry_ms) base in
    let transfer = sooner busy (c.last_packet + 30000) quiet in
    if link_up
    then min transfer (c.last_activity + link_idle_ms)
    else if c.restart_advertising
    then min transfer c.retry_adv_at
    else sooner c.fast_advertising c.slow_adv_at transfer

-- BIT(3), and its complement in a byte
abbrev pub set_secure : Bool → ℕ → ℕ
set_secure secure b = bit_or (bit_and b 247) (if secure then 8 else 0)

-- msd[15]
abbrev pub change_flags : (ℕ → ℕ) → List ℕ → List ℕ
change_flags f msd = splice 15 (f (byte msd 15) ∷ []) msd

abbrev pub same_place : Option ℕ → Option ℕ → Bool
same_place none none = true
same_place (some i) (some j) = i == j
same_place none (some j) = false
same_place (some i) none = false

module _ {Z F K : Type 0} (fw : Firmware Z F K) where
  abbrev pub kernel_of : State Z F K → K
  kernel_of w = w.device.panel.board

  abbrev pub link_of : State Z F K → Link
  link_of w = fw.kernel.link (kernel_of w)

  abbrev pub now_of : State Z F K → ℕ
  now_of w = fw.kernel.board.uptime (kernel_of w)

  abbrev pub call : (K → K) → State Z F K → State Z F K
  call f w = record w { device = change fw f w.device }

  abbrev pub ask : {A : Type 0} → (K → A × K) → State Z F K → A × State Z F K
  ask f w = let (a, d) = on_kernel fw f w.device in (a, record w { device = d })

  -- protocol.active || od_config_writing()
  abbrev pub is_busy : State Z F K → Bool
  is_busy w = w.proto.active || writing fw.flash w.config

  abbrev pub set_msd : List ℕ → State Z F K → State Z F K
  set_msd msd w = record w { device = record w.device { msd = msd } }

  abbrev pub read_msd : State Z F K → Status × State Z F K
  read_msd w = let (err, d) = sample_msd fw w.device in (err, record w { device = d })

  abbrev pub refresh_advertisement : State Z F K → State Z F K
  refresh_advertisement w = call (fw.kernel.adv_update w.device.msd w.device.name) w

  -- The name, and what the scan response points at.
  unfoldable pub update_name : State Z F K → Status × State Z F K
  update_name w =
      let name = config_name (bytes_in_force fw w) (fw.kernel.device_id 1) in
      let (err, w') = ask (fw.kernel.set_name name) w in
      (err, if failed err then w' else record w' { device = record w'.device { name = name } })

  unfoldable pub advertise : Bool → State Z F K → Status × State Z F K
  advertise fast w =
      ask
        (fw.kernel.adv_start (if fast then 160 else 1600) (if fast then 240 else 1600) w.device.msd
          w.device.name)
        w

  -- k_msgq_get
  unfoldable pub receive : State Z F K → Bool × State Z F K
  receive w = elim (link_of w).commands [
    | none ↦ (false, w)
    | some command ↦
        let w' = call (on_link fw.kernel (λ l. record l { commands = none })) w in
        (true, record w' { device = record w'.device { command = command } })
  ]

  -- The first part of a round, up to the command: the wait.
  unfoldable pub wait : Clock → State Z F K → State Z F K
  wait c w₀ =
      let w = call fw.kernel.feed w₀ in
      let now = now_of w in
      let deadline = deadline_of (is_busy w) (link_of w).link_up c now in
      let waited =
        if (link_of w).generation == c.current
        then call (fw.kernel.take_events (deadline - now)) w
        else w in
      call fw.kernel.feed waited

  abbrev pub restart_fast : ℕ → Clock → Clock
  restart_fast now c = record c {
    fast_advertising = true;
    slow_adv_at = now + fast_adv_ms;
    restart_advertising = true;
    retry_adv_at = now;
  }

  -- The times after a new generation, when the transfer before it is given up.
  abbrev pub renewed : ℕ → Clock → State Z F K → State Z F K → Clock
  renewed now c w dropped =
      let stamped : Clock = record c { last_packet = now; last_activity = now } in
      let c' : Clock =
        if c.current != no_generation && not (link_of dropped).link_up
        then restart_fast now stamped
        else stamped in
      record c' { current = (link_of w).generation }

  -- What a new generation, or 30 seconds without a packet, means for a transfer and the session.
  unfoldable pub supervise : ℕ → Clock → State Z F K → Clock × State Z F K
  supervise now c w =
      let next = (link_of w).generation in
      let late = is_busy w && leb (c.last_packet + 30000) now in
      let dropped = give_up fw w in
      if next != c.current
      then (
        renewed now c w dropped,
        set_security (od_security_reset dropped.device.security) dropped,
      )
      else if late
      then (record c { current = next }, dropped)
      else (c, w)
