-- ===== src/Main/Loop/Supervision.antt =====
-- What the loop of main.c lets live from one round to the next.
use greentags_lt213a_opendis.Prelude.{
  Bool-cases, arith, false, if-elim, inl, inr, leb, refl, true, ℕ, ◌!=◌, ◌&&◌, ◌+◌, ◌<◌, ◌≡◌,
}
use greentags_lt213a_opendis.Config.Store.{writing, cancel}
use greentags_lt213a_opendis.Protocol.Base.{od_reset}
use greentags_lt213a_opendis.Protocol.Transfer.{od_abort}
use greentags_lt213a_opendis.Protocol.ConfigCommands.{cancel_config}
use greentags_lt213a_opendis.Security.Session.{od_security_reset}
use greentags_lt213a_opendis.Main.Shell.{Firmware, sys}
use greentags_lt213a_opendis.Main.Dispatch.{State, set_security, give_up}
use greentags_lt213a_opendis.Main.Loop.{Clock, is_busy, link_of, renewed, supervise}

module _ {Z F K : Type 0} (fw : Firmware Z F K) where
  pub od_abort-inactive : (w : State Z F K) → (od_abort (sys fw) w).1.proto.active ≡ false
  unfolding od_abort od_reset
  od_abort-inactive w = elim (Bool-cases w.proto.active) [
    | inl y ↦ rw y refl
    | inr n ↦ ground (arith, n)
  ]

  pub give_up-idle : (w : State Z F K) → is_busy fw (give_up fw w) ≡ false
  unfolding cancel_config cancel writing
  give_up-idle w = let a = od_abort-inactive w in ground (arith, a)

  -- A transfer that goes on belongs to the connection of now and had a packet in the last 30 seconds,
  -- and an open session belongs to the connection of now.
  abbrev pub IsCurrent : ℕ → Clock → State Z F K → Clock × State Z F K → Type 0
  IsCurrent now c w (c', w') =
      (c'.current ≡ (link_of fw w).generation)
      × (is_busy fw w' ≡ true
          → (now < c'.last_packet + 30000) × (c.current ≡ c'.current) × (w' ≡ w))
      × (w'.device.security.authenticated ≡ true → c.current ≡ c'.current)

  new-IsCurrent :
      (now : ℕ) (c c' : Clock) (w : State Z F K)
      → c'.current ≡ (link_of fw w).generation
      → let dropped = give_up fw w in
        IsCurrent now c w (c', set_security (od_security_reset dropped.device.security) dropped)
  unfolding od_security_reset
  new-IsCurrent now c c' w same =
      let idle = give_up-idle w in
      (same, (λ busy. absurd (ground (arith, idle, busy))), (λ open_session. absurd (ground arith)))

  late-IsCurrent :
      (now : ℕ) (c c' : Clock) (w : State Z F K)
      → c'.current ≡ (link_of fw w).generation
      → c.current ≡ c'.current
      → IsCurrent now c w (c', give_up fw w)
  late-IsCurrent now c c' w same old =
      let idle = give_up-idle w in
      (same, (λ busy. absurd (ground (arith, idle, busy))), (λ open_session. old))

  -- After the check of connection and packets in a round, the loop has the generation of now; a
  -- transfer or an update goes on only if the generation is the one of the round before, the last
  -- packet is less than 30 seconds old and the state is unchanged; and a session stays open only if
  -- the generation is the one of the round before.
  pub supervise-IsCurrent :
      (now : ℕ) (c : Clock) (w : State Z F K) → IsCurrent now c w (supervise fw now c w)
  unfolding supervise
  supervise-IsCurrent now c w =
      let next = (link_of fw w).generation in
      if-elim (IsCurrent now c w) (next != c.current) _ _
        (λ fresh. new-IsCurrent now c (renewed fw now c w (give_up fw w)) w refl)
        (λ old.
          let same : c.current ≡ next = ground (arith, old) in
          if-elim (IsCurrent now c w) (is_busy fw w && leb (c.last_packet + 30000) now) _ _
            (λ late. late-IsCurrent now c (record c { current = next }) w refl same)
            (λ early. (same, (λ busy. ((ground (arith, early, busy)), refl, refl)), λ _. refl)))
