-- ===== src/Main/Dispatch/Guard.antt =====
-- Which frames `dispatch` of main.c lets through to `od_handle`.
use greentags_lt213a_opendis.Prelude.{
  Bool, Bool-cases, List, Status, Status-cases, [], arith, byte, done, fail, false, if◌then◌else◌,
  inl, inr, not, refl, true, u32, ℕ, ◌&&◌, ◌∷◌, ◌≡◌,
}
use greentags_lt213a_opendis.Security.Session.{od_security_enabled, od_security_decrypt}
use greentags_lt213a_opendis.Main.Shell.{Firmware}
use greentags_lt213a_opendis.Main.Dispatch.{
  State, names, bytes_in_force, set_security, set_frame, give_up, handle, respond, expire,
  authenticate, open_frame, dispatch, is_repeated,
}

module _ {Z F K : Type 0} (fw : Firmware Z F K) where
  -- Neither the protocol nor the configuration, nor the decompressor.
  abbrev pub Untouched : State Z F K → State Z F K → Type 0
  Untouched w w' = (w'.proto ≡ w.proto) × (w'.config ≡ w.config) × (w'.inflater ≡ w.inflater)

  abbrev pub secure : State Z F K → Bool
  secure w = od_security_enabled (bytes_in_force fw w)

  abbrev pub frame_of : State Z F K → List ℕ
  frame_of w = w.device.command.frame

  -- What a command did, from the state after the check of the session's age.
  pub data Outcome (w : State Z F K) (w' : State Z F K) : Type 0 where
    ignored : Untouched w w' → Outcome w w'
    handshake : names 0x50 (frame_of w) ≡ true → Untouched (give_up fw w) w' → Outcome w w'
    unsecured : secure w ≡ false → w' ≡ (handle fw w).1 → Outcome w w'
    discovery : names 0x43 (frame_of w) ≡ true → w' ≡ (handle fw w).1 → Outcome w w'
    opened :
        w.device.security.authenticated ≡ true
        → (od_security_decrypt fw.aes (frame_of w) w.device.security).0 ≡ done
        → w'
          ≡ (handle fw (
              set_frame
                (od_security_decrypt fw.aes (frame_of w) w.device.security).1
                (set_security (od_security_decrypt fw.aes (frame_of w) w.device.security).2 w))).1
        → Outcome w w'

  if-Untouched :
      (c : Bool) (x y : Status × State Z F K) (w : State Z F K)
      → Untouched w x.1
      → Untouched w y.1
      → Untouched w (if c then x else y).1
  if-Untouched true x y w hx hy = hx
  if-Untouched false x y w hx hy = hy

  open_frame-Outcome :
      (now : ℕ) (w : State Z F K)
      → w.device.security.authenticated ≡ true
      → Outcome w (open_frame fw now w).1
  unfolding open_frame
  open_frame-Outcome now w valid =
      let (err, plain, security) = od_security_decrypt fw.aes (frame_of w) w.device.security in
      let w' = set_frame plain (set_security security w) in
      elim (Status-cases err) [
        | inl fine ↦ rw fine (opened valid fine refl)
        | inr (e, bad) ↦ rw bad (
            ignored (
              if-Untouched (is_repeated (fail e) && names 0x81 (frame_of w)) (done, w')
                (respond fw (0 ∷ byte (frame_of w) 1 ∷ 0xff ∷ []) w') w (refl, refl, refl)
                (refl, refl, refl)))
      ]

  if-Outcome :
      (c : Bool) (x y : Status × State Z F K) (w : State Z F K)
      → (c ≡ true → Outcome w x.1)
      → (c ≡ false → Outcome w y.1)
      → Outcome w (if c then x else y).1
  if-Outcome true x y w hx hy = hx refl
  if-Outcome false x y w hx hy = hy refl

  handle-Outcome :
      (w : State Z F K)
      → (secure w && not (names 0x43 (frame_of w))) ≡ false
      → Outcome w (handle fw w).1
  handle-Outcome w free = elim (Bool-cases (secure w)) [
    | inr off ↦ unsecured off refl
    | inl on ↦ elim (Bool-cases (names 0x43 (frame_of w))) [
      | inl discover ↦ discovery discover refl
      | inr ordinary ↦ absurd (ground (arith, on, ordinary, free))
    ]
  ]

  -- From the state after the check of the session's age, a frame leaves protocol, configuration and
  -- decompressor as they are; or it is a handshake, which gives the transfer and the update up; or
  -- od_handle gets it, because security is off, or it is the discovery command, or it is the plain
  -- frame that od_security_decrypt took without an error in an open session.
  pub dispatch-Outcome :
      (w : State Z F K)
      → Outcome (expire fw (u32 (fw.kernel.board.uptime w.device.panel.board)) w) (dispatch fw w).1
  unfolding dispatch authenticate
  dispatch-Outcome w₀ =
      let now = u32 (fw.kernel.board.uptime w₀.device.panel.board) in
      let w = expire fw now w₀ in
      if-Outcome (names 0x50 (frame_of w)) _ _ w (λ auth. handshake auth (refl, refl, refl))
        (λ other.
          if-Outcome (secure w && not (names 0x43 (frame_of w))) _ _ w
            (λ on.
              if-Outcome (not w.device.security.authenticated) _ _ w
                (λ closed. ignored (refl, refl, refl))
                (λ valid. open_frame-Outcome now w (ground (arith, valid))))
            (handle-Outcome w))
