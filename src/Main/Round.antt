-- ===== src/Main/Round.antt =====
-- The rest of a round of the loop in `main` of main.c: advertising, telemetry, the command, the idle
-- link; and the round as a whole.
pub mod Errors
pub mod Drives
use greentags_lt213a_opendis.Prelude.{
  Bool, List, Status, [], bit_and, failed, false, if◌then◌else◌, leb, length, ltb, not, ℕ, ◌&&◌,
  ◌+◌, ◌==◌, ◌||◌, ◌∷◌,
}
use greentags_lt213a_opendis.Config.Store.{get_config}
use greentags_lt213a_opendis.Protocol.Transfer.{od_abort}
use greentags_lt213a_opendis.Security.Session.{od_security_reset, od_security_enabled}
use greentags_lt213a_opendis.Main.Kernel.{live, disconnect_idle}
use greentags_lt213a_opendis.Main.Shell.{Firmware, sys}
use greentags_lt213a_opendis.Main.Dispatch.{State, names, bytes_in_force, set_security, dispatch}
use greentags_lt213a_opendis.Main.Loop.{
  Clock, link_idle_ms, telemetry_ms, set_secure, change_flags, same_place, kernel_of, link_of,
  now_of, call, ask, set_msd, read_msd, refresh_advertisement, update_name, advertise, receive,
  wait, supervise,
}

-- bt_conn_foreach
abbrev pub for_each : {K : Type 0} → (ℕ → K → K) → List ℕ → K → K
for_each f [] k = k
for_each f (conn ∷ conns) k = for_each f conns (f conn k)

module _ {Z F K : Type 0} (fw : Firmware Z F K) where
  abbrev pub is_due : ℕ → Clock → State Z F K → Bool
  is_due now c w =
      not (link_of fw w).link_up
      && (c.restart_advertising && leb c.retry_adv_at now
          || (not c.restart_advertising && c.fast_advertising && leb c.slow_adv_at now))

  -- A new sample at the end of the fast window, unless there is one.
  abbrev pub sample_at_end : ℕ → Clock → State Z F K → Clock × State Z F K
  sample_at_end now c w =
      if not (ltb now c.slow_adv_at) && c.fast_advertising && ltb c.last_telemetry c.slow_adv_at
      then (record c { last_telemetry = now }, (read_msd fw w).1)
      else (c, w)

  -- Stop and start, unless a connection came in between.
  abbrev pub restart : Bool → State Z F K → Bool × Status × State Z F K
  restart fast w =
      let (stopped, w₁) = ask fw fw.kernel.adv_stop w in
      let (started, w₂) = advertise fw fast w₁ in
      if failed stopped || (link_of fw w₁).link_up
      then (false, stopped, w₁)
      else (not (failed started), started, w₂)

  unfoldable pub keep_advertising : ℕ → Clock → State Z F K → Clock × State Z F K
  keep_advertising now c₀ w₀ =
      let fast = ltb now c₀.slow_adv_at in
      let (c, w₁) = sample_at_end now c₀ w₀ in
      let (begun, err, w) = restart fast w₁ in
      if is_due now c₀ w₀
      then (
        record c {
          fast_advertising = if begun then fast else c.fast_advertising;
          restart_advertising = failed err;
          retry_adv_at = now_of fw w + 5000;
        },
        w,
      )
      else (c₀, w₀)

  unfoldable pub keep_telemetry : ℕ → Clock → State Z F K → Clock × State Z F K
  keep_telemetry now c w =
      let (err, w') = read_msd fw w in
      if not (link_of fw w).link_up && leb (c.last_telemetry + telemetry_ms) now
      then (
        record c { last_telemetry = now },
        if failed err then w' else refresh_advertisement fw w',
      )
      else (c, w)

  -- A new configuration closes the session and changes the name.
  unfoldable pub adopt_config : State Z F K → State Z F K
  adopt_config w =
      let secure = od_security_enabled (bytes_in_force fw w) in
      let closed = set_security (od_security_reset w.device.security) w in
      let flagged = set_msd fw (change_flags (set_secure secure) closed.device.msd) closed in
      refresh_advertisement fw (update_name fw flagged).1

  -- The host has read the bytes: BIT(1) is cleared.
  abbrev pub clear_unread : State Z F K → State Z F K
  clear_unread w =
      refresh_advertisement fw (set_msd fw (change_flags (λ b. bit_and b 253) w.device.msd) w)

  unfoldable pub serve : Clock → State Z F K → Clock × State Z F K
  serve c w₀ =
      let place = (get_config fw.flash w₀.config).0 in
      let (err, w₁) = dispatch fw w₀ in
      let w₂ = if same_place place (get_config fw.flash w₁.config).0 then w₁ else adopt_config w₁ in
      let command = w₂.device.command in
      let w₃ =
        if names 0x44 command.frame
          && length command.frame == 2
          && command.accepted
          && not (failed err)
        then clear_unread w₂
        else w₂ in
      let now = now_of fw w₃ in
      let c' = record c {
        last_packet = now;
        last_activity = if command.accepted then now else c.last_activity;
      } in
      let broken = (od_abort (sys fw) w₃).1 in
      (c', if failed err then call fw (fw.kernel.disconnect command.conn) broken else w₃)

  -- The command of this round, if there is one and its connection is still there.
  unfoldable pub take_command : Bool → Clock → State Z F K → Clock × State Z F K
  take_command received c w =
      let command = w.device.command in
      let (c', w') = serve c w in
      if not received
      then (c, w)
      else if live fw.kernel command (kernel_of fw w)
      then (c', call fw (fw.kernel.unref command.conn) w')
      else (c, call fw (fw.kernel.unref command.conn) w)

  unfoldable pub drop_idle : Clock → State Z F K → Clock × State Z F K
  drop_idle c w =
      let now = now_of fw w in
      if (link_of fw w).link_up && leb (c.last_activity + link_idle_ms) now
      then (
        record c { last_activity = now },
        call fw (λ k. for_each (disconnect_idle fw.kernel c.current) (fw.kernel.connections k) k) w,
      )
      else (c, w)

  unfoldable pub round : Clock → State Z F K → Clock × State Z F K
  round c₀ w₀ =
      let (received, w₁) = receive fw (wait fw c₀ w₀) in
      let now = now_of fw w₁ in
      let (c₂, w₂) = supervise fw now c₀ w₁ in
      let (c₃, w₃) = keep_advertising now c₂ w₂ in
      let (c₄, w₄) = keep_telemetry now c₃ w₃ in
      let (c₅, w₅) = take_command received c₄ w₄ in drop_idle c₅ w₅
