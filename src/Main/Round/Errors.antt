-- ===== src/Main/Round/Errors.antt =====
-- What an error of `dispatch` means in the loop of main.c.
use greentags_lt213a_opendis.Prelude.{arith, failed, false, if-elim, true, ◌≡◌}
use greentags_lt213a_opendis.Main.Shell.{Firmware}
use greentags_lt213a_opendis.Main.Dispatch.{State, dispatch}
use greentags_lt213a_opendis.Main.Loop.{Clock}
use greentags_lt213a_opendis.Main.Loop.Supervision.{od_abort-inactive}
use greentags_lt213a_opendis.Main.Round.{serve}

module _ {Z F K : Type 0} (fw : Firmware Z F K) where
  pub serve-breaks :
      (c : Clock) (w : State Z F K)
      → failed (dispatch fw w).0 ≡ true
      → (serve fw c w).1.proto.active ≡ false
  unfolding serve
  serve-breaks c w bad =
      if-elim (λ (w' : State Z F K). w'.proto.active ≡ false) (failed (dispatch fw w).0) _ _
        (λ broken. od_abort-inactive fw _) (λ fine. absurd (ground (arith, fine, bad)))
