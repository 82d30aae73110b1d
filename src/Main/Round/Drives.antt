-- ===== src/Main/Round/Drives.antt =====
-- How a round of the loop of main.c drives the protocol.
use greentags_lt213a_opendis.Prelude.{
  Bool, Bool-cases, Option-cases, ap, arith, failed, false, if-elim, if◌then◌else◌, inl, inr, leb,
  length, not, refl, sym, true, u32, ℕ, ◌!=◌, ◌&&◌, ◌+◌, ◌<◌, ◌==◌, ◌∙◌, ◌≡◌, ◌≢◌, ◌≤◌, ◌⊎◌,
}
use greentags_lt213a_opendis.Protocol.Base.{Protocol, od_reset}
use greentags_lt213a_opendis.Protocol.Transfer.{od_abort}
use greentags_lt213a_opendis.Config.Store.{get_config}
use greentags_lt213a_opendis.Main.Kernel.{live}
use greentags_lt213a_opendis.Main.Shell.{Firmware, sys, sample_msd}
use greentags_lt213a_opendis.Main.Dispatch.{State, names, give_up, expire, dispatch}
use greentags_lt213a_opendis.Main.Dispatch.Guard.{Untouched, Outcome, dispatch-Outcome}
use greentags_lt213a_opendis.Main.Loop.{
  Clock, link_of, kernel_of, now_of, same_place, call, receive, wait, supervise, advertise,
  update_name, is_busy,
}
use greentags_lt213a_opendis.Main.Round.{
  clear_unread, keep_advertising, keep_telemetry, adopt_config, serve, take_command, drop_idle,
  round,
}

module _ {Z F K : Type 0} (fw : Firmware Z F K) where
  -- What the check of the connection and of the packets does to the protocol, the configuration and the
  -- decompressor: a transfer and an update are given up for a new generation, or for 30 seconds without a
  -- packet, and for nothing else.
  pub data Supervised (now : ℕ) (c : Clock) (w w' : State Z F K) : Type 0 where
    gave_up :
        ((link_of fw w).generation ≢ c.current)
          ⊎ ((is_busy fw w ≡ true) × (c.last_packet + 30000 ≤ now))
        → Untouched fw (give_up fw w) w'
        → Supervised now c w w'
    went_on :
        (link_of fw w).generation ≡ c.current
        → (is_busy fw w ≡ true → now < c.last_packet + 30000)
        → Untouched fw w w'
        → Supervised now c w w'

  -- What the check of the session's age leaves.
  abbrev pub checked : State Z F K → State Z F K
  checked w = expire fw (u32 (fw.kernel.board.uptime w.device.panel.board)) w

  -- What the command does to them. After an error the transfer is broken off.
  pub data Served (received : Bool) (w w' : State Z F K) : Type 0 where
    without :
        (received ≡ false) ⊎ (live fw.kernel w.device.command (kernel_of fw w) ≡ false)
        → Untouched fw w w'
        → Served received w w'
    answered :
        received ≡ true
        → live fw.kernel w.device.command (kernel_of fw w) ≡ true
        → failed (dispatch fw w).0 ≡ false
        → Outcome fw (checked w) (dispatch fw w).1
        → Untouched fw (dispatch fw w).1 w'
        → Served received w w'
    broke_off :
        received ≡ true
        → live fw.kernel w.device.command (kernel_of fw w) ≡ true
        → failed (dispatch fw w).0 ≡ true
        → Outcome fw (checked w) (dispatch fw w).1
        → Untouched fw (od_abort (sys fw) (dispatch fw w).1).1 w'
        → Served received w w'

  Untouched-trans : (u v w : State Z F K) → Untouched fw u v → Untouched fw v w → Untouched fw u w
  Untouched-trans u v w (a, b, c) (a', b', c') = (a' ∙ a, b' ∙ b, c' ∙ c)

  unchanged : (w : State Z F K) → Untouched fw w w
  unchanged w = (refl, refl, refl)

  abbrev aborted : Protocol → Protocol
  aborted p = if p.active then od_reset (record p { displayed_etag = 0 }) else od_reset p

  abort_lem :
      (w : State Z F K)
      → let w' = (od_abort (sys fw) w).1 in
        (w'.proto ≡ aborted w.proto) × (w'.config ≡ w.config) × (w'.inflater ≡ w.inflater)
  unfolding od_abort
  abort_lem w = elim (Bool-cases w.proto.active) [
    | inl y ↦ rw y (refl, refl, refl)
    | inr n ↦ rw n (refl, refl, refl)
  ]

  od_abort-Untouched :
      (u v : State Z F K)
      → Untouched fw u v
      → Untouched fw (od_abort (sys fw) u).1 (od_abort (sys fw) v).1
  od_abort-Untouched u v (a, b, c) =
      let (pu, cu, iu) = abort_lem u in
      let (pv, cv, iv) = abort_lem v in
      (pv ∙ ap aborted a ∙ sym pu, cv ∙ b ∙ sym cu, iv ∙ c ∙ sym iu)

  supervise-Supervised :
      (now : ℕ) (c : Clock) (w : State Z F K) → Supervised now c w (supervise fw now c w).1
  unfolding supervise
  supervise-Supervised now c w =
      let P : Clock × State Z F K → Type 0 = λ r. Supervised now c w r.1 in
      if-elim P ((link_of fw w).generation != c.current) _ _
        (λ fresh. gave_up (inl (λ e. ground (arith, fresh, e))) (refl, refl, refl))
        (λ old.
          let current : (link_of fw w).generation ≡ c.current = ground (arith, old) in
          if-elim P (is_busy fw w && leb (c.last_packet + 30000) now) _ _
            (λ late.
              let busy : is_busy fw w ≡ true = ground (arith, late) in
              let over : c.last_packet + 30000 ≤ now = ground (arith, late) in
              gave_up (inr (busy, over)) (refl, refl, refl))
            (λ early. went_on current (λ busy. ground (arith, early, busy)) (refl, refl, refl)))

  receive-Untouched : (w : State Z F K) → Untouched fw w (receive fw w).1
  unfolding receive
  receive-Untouched w = elim (Option-cases (link_of fw w).commands) [
    | inl empty ↦ rw (empty, receive) (refl, refl, refl)
    | inr (command, one) ↦ rw (one, receive) (refl, refl, refl)
  ]

  wait-Untouched : (c : Clock) (w : State Z F K) → Untouched fw w (wait fw c w)
  unfolding wait
  wait-Untouched c w = ground arith

  keep_advertising-Untouched :
      (now : ℕ) (c : Clock) (w : State Z F K) → Untouched fw w (keep_advertising fw now c w).1
  unfolding keep_advertising advertise
  keep_advertising-Untouched now c w = ground arith

  keep_telemetry-Untouched :
      (now : ℕ) (c : Clock) (w : State Z F K) → Untouched fw w (keep_telemetry fw now c w).1
  unfolding keep_telemetry sample_msd
  keep_telemetry-Untouched now c w = ground arith

  adopt_config-Untouched : (w : State Z F K) → Untouched fw w (adopt_config fw w)
  unfolding adopt_config update_name
  adopt_config-Untouched w = ground arith

  drop_idle-Untouched : (c : Clock) (w : State Z F K) → Untouched fw w (drop_idle fw c w).1
  unfolding drop_idle
  drop_idle-Untouched c w = ground arith

  -- The same three parts in a later state.
  Served-Untouched :
      (received : Bool) (w w' w'' : State Z F K)
      → Served received w w'
      → Untouched fw w' w''
      → Served received w w''
  Served-Untouched received w w' w'' (without reason same) more =
      without reason (Untouched-trans w w' w'' same more)
  Served-Untouched received w w' w'' (answered came here fine outcome same) more =
      answered came here fine outcome (Untouched-trans (dispatch fw w).1 w' w'' same more)
  Served-Untouched received w w' w'' (broke_off came here bad outcome same) more =
      broke_off came here bad outcome
        (Untouched-trans (od_abort (sys fw) (dispatch fw w).1).1 w' w'' same more)

  serve-Served :
      (received : Bool) (c : Clock) (w : State Z F K)
      → received ≡ true
      → live fw.kernel w.device.command (kernel_of fw w) ≡ true
      → Served received w (serve fw c w).1
  unfolding serve
  serve-Served received c w₀ came here =
      let place = (get_config fw.flash w₀.config).0 in
      let (err, w₁) = dispatch fw w₀ in
      let outcome = dispatch-Outcome fw w₀ in
      let kept = same_place place (get_config fw.flash w₁.config).0 in
      let w₂ = if kept then w₁ else adopt_config fw w₁ in
      let command = w₂.device.command in
      let is_read =
        names 0x44 command.frame
        && length command.frame == 2
        && command.accepted
        && not (failed err) in
      let w₃ = if is_read then clear_unread fw w₂ else w₂ in
      let adopted : Untouched fw w₁ w₂ =
        if-elim (Untouched fw w₁) kept w₁ (adopt_config fw w₁) (λ _. unchanged w₁)
          (λ _. adopt_config-Untouched w₁) in
      let read : Untouched fw w₂ w₃ =
        if-elim (Untouched fw w₂) is_read (clear_unread fw w₂) w₂ (λ _. (refl, refl, refl))
          (λ _. unchanged w₂) in
      let same = Untouched-trans w₁ w₂ w₃ adopted read in
      if-elim (Served received w₀) (failed err) _ w₃
        (λ bad. broke_off came here bad outcome (od_abort-Untouched w₁ w₃ same))
        (λ fine. answered came here fine outcome same)

  take_command-Served :
      (received : Bool) (c : Clock) (w : State Z F K)
      → Served received w (take_command fw received c w).1
  unfolding take_command
  take_command-Served received c w =
      let command = w.device.command in
      let (c', w') = serve fw c w in
      let unref = call fw (fw.kernel.unref command.conn) in
      let is_live = live fw.kernel command (kernel_of fw w) in
      let P : Clock × State Z F K → Type 0 = λ r. Served received w r.1 in
      if-elim P (not received) (c, w) (if is_live then (c', unref w') else (c, unref w))
        (λ none_came. without (inl (ground (arith, none_came))) (unchanged w))
        (λ came.
          if-elim P is_live (c', unref w') (c, unref w)
            (λ here.
              let one : received ≡ true = ground (arith, came) in
              Served-Untouched received w w' (unref w') (serve-Served received c w one here)
                (refl, refl, refl))
            (λ gone. without (inr gone) (refl, refl, refl)))

  -- The parts of a round.
  abbrev pub Drives : Clock → State Z F K → State Z F K → Type 0
  Drives c w w' =
      let taken = receive fw (wait fw c w) in
      let now = now_of fw taken.1 in
      let supervised = supervise fw now c taken.1 in
      let advertised = keep_advertising fw now supervised.0 supervised.1 in
      let kept = (keep_telemetry fw now advertised.0 advertised.1).1 in
      Untouched fw w taken.1
      × Supervised now c taken.1 supervised.1
      × Untouched fw supervised.1 kept
      × Served taken.0 kept w'

  -- In one round of the loop, what changes protocol, configuration and decompressor is this and
  -- nothing else: transfer and update are given up, exactly if the generation of the connection is
  -- new, or a transfer or an update is on and no packet came for 30 seconds; and a command that was
  -- taken from the queue, and is live then, goes through dispatch, which ends in one of the outcomes
  -- of its guards, with the transfer aborted after an error and only then.
  pub round-Drives : (c : Clock) (w : State Z F K) → Drives c w (round fw c w).1
  unfolding round
  round-Drives c₀ w₀ =
      let waited = wait fw c₀ w₀ in
      let (received, w₁) = receive fw waited in
      let now = now_of fw w₁ in
      let (c₂, w₂) = supervise fw now c₀ w₁ in
      let (c₃, w₃) = keep_advertising fw now c₂ w₂ in
      let (c₄, w₄) = keep_telemetry fw now c₃ w₃ in
      let (c₅, w₅) = take_command fw received c₄ w₄ in
      (
        Untouched-trans w₀ waited w₁ (wait-Untouched c₀ w₀) (receive-Untouched waited),
        supervise-Supervised now c₀ w₁,
        Untouched-trans w₂ w₃ w₄ (keep_advertising-Untouched now c₂ w₂)
            (keep_telemetry-Untouched now c₃ w₃),
        Served-Untouched received w₄ w₅ (drop_idle fw c₅ w₅).1 (take_command-Served received c₄ w₄)
            (drop_idle-Untouched c₅ w₅),
      )
