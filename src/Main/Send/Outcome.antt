-- ===== src/Main/Send/Outcome.antt =====
-- What `send_wire` of main.c returns, and when.
use greentags_lt213a_opendis.Prelude.{
  List, Status, arith, done, ebusy, enotconn, fail, failed, false, if-elim, not, not_failed, refl,
  subst, true, ℕ, ◌+◌, ◌≡◌, ◌≢◌,
}
use greentags_lt213a_opendis.Main.Kernel.{Command, Kernel, live}
use greentags_lt213a_opendis.Main.Send.{
  next_ticket, reserve, is_reserved, hand_over, hand_over_fuel, send_wire,
}
use greentags_lt213a_opendis.Main.Send.Relation.{
  KernelLaws, HandsOver, Awaits, completed, gone, given_up, waits,
}
use greentags_lt213a_opendis.Main.Send.Ends.{await_sent-Awaits, hand_over-HandsOver, queued-later}

module _ {K : Type 0} (kernel : Kernel K) (command : Command) where
  abbrev pub ticket_for : K → ℕ
  ticket_for k = next_ticket (kernel.link k).notify_ticket

  abbrev pub deadline_for : K → ℕ
  deadline_for k = kernel.board.uptime (reserve kernel command k) + 2000

  -- A call of `send_wire`, with loops that have no bound.
  pub data Sends (bytes : List ℕ) (k : K) : Status → K → Type 0 where
    offline : live kernel command k ≡ false → Sends bytes k (fail enotconn) k
    reserved :
        live kernel command k ≡ true
        → is_reserved kernel command k ≡ true
        → Sends bytes k (fail ebusy) k
    unsent :
        {s : Status} {k' : K}
        → live kernel command k ≡ true
        → is_reserved kernel command k ≡ false
        → failed s ≡ true
        → HandsOver kernel command bytes
            (ticket_for k)
            (deadline_for k)
            (reserve kernel command k)
            s
            k'
        → Sends bytes k s k'
    sent :
        {s : Status} {k₂ k' : K}
        → live kernel command k ≡ true
        → is_reserved kernel command k ≡ false
        → HandsOver kernel command bytes
            (ticket_for k)
            (deadline_for k)
            (reserve kernel command k)
            done
            k₂
        → Awaits kernel command (ticket_for k) (deadline_for k) k₂ s k'
        → Sends bytes k s k'

  -- With a clock that no call sets back, sleeps that last their time, and a semaphore whose wait
  -- lasts 10 milliseconds unless the ticket changes, send_wire ends and obeys its checks: it reports
  -- a lost connection before it does anything exactly if the command is not live, a busy link
  -- exactly if the command is live and a notification is reserved already, and only otherwise gives
  -- the result of its two loops without a bound.
  pub send_wire-Sends :
      (bytes : List ℕ) (k : K)
      → KernelLaws kernel
      → Sends bytes k (send_wire kernel command bytes k).0 (send_wire kernel command bytes k).1
  unfolding send_wire
  send_wire-Sends bytes k laws =
      let P : Status × K → Type 0 = λ r. Sends bytes k r.0 r.1 in
      let k₁ = reserve kernel command k in
      let h = hand_over kernel hand_over_fuel command bytes (ticket_for k) (deadline_for k) k₁ in
      let Hands : K → Status → Type 0 =
        λ k' s. HandsOver kernel command bytes (ticket_for k) (deadline_for k) k₁ s k' in
      let handed =
        hand_over-HandsOver kernel laws command 200 bytes (ticket_for k) (deadline_for k) k₁
          (omega arith) in
      if-elim P (not (live kernel command k)) _ _ (λ dead. offline (ground (arith, dead)))
        (λ here.
          let alive : live kernel command k ≡ true = ground (arith, here) in
          if-elim P (is_reserved kernel command k) _ _ (λ taken. reserved alive taken)
            (λ free.
              if-elim P (failed h.0) _ _ (λ bad. unsent alive free bad handed)
                (λ fine.
                  let good : h.0 ≡ done = not_failed h.0 fine in
                  let queued = subst (Hands h.1) good handed in
                  let later = queued-later kernel laws command queued refl in
                  sent alive free queued (
                    await_sent-Awaits kernel laws command 200 (ticket_for k) (deadline_for k) h.1
                      (omega (arith, later))))))

  -- The callback for this notification came, and the connection is there.
  Awaits-done :
      {ticket deadline : ℕ} {k k' : K} {s : Status}
      → Awaits kernel command ticket deadline k s k'
      → s ≡ done
      → ((kernel.link k').notify_ticket ≢ ticket) × (live kernel command k' ≡ true)
  Awaits-done (completed k other) fine = (other, ground (arith, fine))
  Awaits-done (gone k same dead) fine = absurd (ground (arith, fine))
  Awaits-done (given_up k same alive over) fine = absurd (ground (arith, fine))
  Awaits-done (waits same alive left more) fine = Awaits-done more fine

  Sends-done :
      {bytes : List ℕ} {k k' : K} {s : Status}
      → Sends bytes k s k'
      → s ≡ done
      → (live kernel command k ≡ true)
        × ((kernel.link k').notify_ticket ≢ ticket_for k)
        × (live kernel command k' ≡ true)
  Sends-done (offline dead) fine = absurd (ground (arith, fine))
  Sends-done (reserved alive taken) fine = absurd (ground (arith, fine))
  Sends-done (unsent alive free bad handed) fine = absurd (ground (arith, bad, fine))
  Sends-done (sent alive free handed awaited) fine =
      let (changed, still) = Awaits-done awaited fine in (alive, changed, still)

  -- Under the same assumptions, when send_wire reports no error, the connection of the command was
  -- live before and is live after, and the ticket of the notification is no longer outstanding.
  pub send_wire-done :
      (bytes : List ℕ) (k : K)
      → KernelLaws kernel
      → (send_wire kernel command bytes k).0 ≡ done
      → let k' = (send_wire kernel command bytes k).1 in
        (live kernel command k ≡ true)
        × ((kernel.link k').notify_ticket ≢ ticket_for k)
        × (live kernel command k' ≡ true)
  send_wire-done bytes k laws fine = Sends-done (send_wire-Sends bytes k laws) fine
