-- ===== src/Main/Send/Ends.antt =====
-- The loops of `send_wire` of main.c end.
use greentags_lt213a_opendis.Prelude.{
  Bool-cases, List, Status, Status-cases, arith, done, fail, failed, false, if-elim, inl, inr, leb,
  not, subst, suc, sym, true, zero, ℕ, ◌!=◌, ◌*◌, ◌+◌, ◌<◌, ◌∙◌, ◌≡◌, ◌≢◌, ◌≤◌,
}
use greentags_lt213a_opendis.Main.Kernel.{Command, Kernel, live}
use greentags_lt213a_opendis.Main.Send.{is_retry, try_notify, hand_over, await_sent}
use greentags_lt213a_opendis.Main.Send.Relation.{
  KernelLaws, HandsOver, queued, refused, too_late, retried, Awaits, completed, gone, given_up,
  waits,
}

module _ {K : Type 0} (kernel : Kernel K) where
  module _ (laws : KernelLaws kernel) (command : Command) where
    try_time :
        (bytes : List ℕ) (ticket : ℕ) (k : K)
        → kernel.board.uptime k ≤ kernel.board.uptime (try_notify kernel command bytes ticket k).1
    unfolding try_notify
    try_time bytes ticket k = grind (arith, laws.notify_time)

    -- One round that is the last, or goes on.
    await-round :
        (n ticket deadline : ℕ) (k : K)
        → (kernel.board.uptime k < deadline
            → (kernel.link k).notify_ticket ≡ ticket
            → Awaits kernel command ticket deadline
                (kernel.take_done 10 k)
                (await_sent kernel n command ticket deadline (kernel.take_done 10 k)).0
                (await_sent kernel n command ticket deadline (kernel.take_done 10 k)).1)
        → Awaits kernel command ticket deadline k
            (await_sent kernel (suc n) command ticket deadline k).0
            (await_sent kernel (suc n) command ticket deadline k).1
    unfolding await_sent
    await-round n ticket deadline k next =
        let P : Status × K → Type 0 = λ r. Awaits kernel command ticket deadline k r.0 r.1 in
        if-elim P ((kernel.link k).notify_ticket != ticket) _ _
          (λ other. completed k (λ same. ground (arith, other, same)))
          (λ equal.
            let same : (kernel.link k).notify_ticket ≡ ticket = ground (arith, equal) in
            if-elim P (not (live kernel command k)) _ _ (λ dead. gone k same (ground (arith, dead)))
              (λ here.
                let alive : live kernel command k ≡ true = ground (arith, here) in
                if-elim P (leb deadline (kernel.board.uptime k)) _ _
                  (λ over. given_up k same alive (ground (arith, over)))
                  (λ early.
                    let left : kernel.board.uptime k < deadline = ground (arith, early) in
                    waits same alive left (next left same))))

    -- A ticket that changed ends the loop.
    changed-Awaits :
        (n ticket deadline : ℕ) (k : K)
        → (kernel.link k).notify_ticket ≢ ticket
        → Awaits kernel command ticket deadline k
            (await_sent kernel (suc n) command ticket deadline k).0
            (await_sent kernel (suc n) command ticket deadline k).1
    changed-Awaits n ticket deadline k other =
        await-round n ticket deadline k (λ left same. absurd (other same))

    -- With an empty semaphore each round that goes on takes 10 milliseconds.
    empty-Awaits :
        (n ticket deadline : ℕ) (k : K)
        → (kernel.link k).notify_done ≡ false
        → deadline ≤ kernel.board.uptime k + 10 * n
        → Awaits kernel command ticket deadline k
            (await_sent kernel (suc n) command ticket deadline k).0
            (await_sent kernel (suc n) command ticket deadline k).1
    empty-Awaits zero ticket deadline k empty enough =
        await-round zero ticket deadline k (λ left same. absurd (omega (arith, left, enough)))
    empty-Awaits (suc n) ticket deadline k empty enough =
        let k' = kernel.take_done 10 k in
        let changed =
          λ (d : (kernel.link k').notify_ticket ≢ (kernel.link k).notify_ticket)
              (same : (kernel.link k).notify_ticket ≡ ticket).
            changed-Awaits n ticket deadline k' (λ e. d (e ∙ sym same)) in
        await-round (suc n) ticket deadline k (λ left same. elim (laws.take_time k empty) [
          | inr d ↦ changed d same
          | inl slept ↦ elim (laws.take_empties k) [
            | inr d ↦ changed d same
            | inl still ↦ empty-Awaits n ticket deadline k' still (omega (arith, slept, enough))
          ]
        ])

    -- One more round for a semaphore that was given before.
    pub await_sent-Awaits :
        (n ticket deadline : ℕ) (k : K)
        → deadline ≤ kernel.board.uptime k + 10 * n
        → Awaits kernel command ticket deadline k
            (await_sent kernel (suc (suc n)) command ticket deadline k).0
            (await_sent kernel (suc (suc n)) command ticket deadline k).1
    await_sent-Awaits n ticket deadline k enough =
        let k' = kernel.take_done 10 k in
        await-round (suc n) ticket deadline k (λ left same. elim (laws.take_empties k) [
          | inr d ↦ changed-Awaits n ticket deadline k' (λ e. d (e ∙ sym same))
          | inl still ↦
              let later = laws.take_later k in
              empty-Awaits n ticket deadline k' still (omega (arith, later, enough))
        ])

    hand_over-round :
        (n : ℕ) (bytes : List ℕ) (ticket deadline : ℕ) (k : K)
        → (kernel.board.uptime (try_notify kernel command bytes ticket k).1 < deadline
            → let k' = kernel.board.msleep 10 (try_notify kernel command bytes ticket k).1 in
              HandsOver kernel command bytes ticket deadline k'
                (hand_over kernel n command bytes ticket deadline k').0
                (hand_over kernel n command bytes ticket deadline k').1)
        → HandsOver kernel command bytes ticket deadline k
            (hand_over kernel (suc n) command bytes ticket deadline k).0
            (hand_over kernel (suc n) command bytes ticket deadline k).1
    unfolding hand_over
    hand_over-round n bytes ticket deadline k next =
        let P : Status × K → Type 0 =
          λ r. HandsOver kernel command bytes ticket deadline k r.0 r.1 in
        let r = try_notify kernel command bytes ticket k in
        elim (Status-cases r.0) [
          | inl fine ↦ rw fine (queued k fine)
          | inr (e, bad) ↦
              if-elim P (not (failed r.0)) _ _ (λ fine. absurd (ground (arith, fine, bad)))
                (λ failing. elim (Bool-cases (is_retry r.0)) [
                  | inr final ↦
                      let firm : is_retry (fail e) ≡ false =
                        subst (λ s. is_retry s ≡ false) bad final in
                      rw final (rw bad (refused k e bad firm))
                  | inl again ↦ elim (Bool-cases (leb deadline (kernel.board.uptime r.1))) [
                    | inl over ↦ rw (again, over) (too_late k again (ground (arith, over)))
                    | inr early ↦
                        let left : kernel.board.uptime r.1 < deadline = ground (arith, early) in
                        rw (again, early) (retried again left (next left))
                  ]
                ])
        ]

    pub hand_over-HandsOver :
        (n : ℕ) (bytes : List ℕ) (ticket deadline : ℕ) (k : K)
        → deadline ≤ kernel.board.uptime k + 10 * n
        → HandsOver kernel command bytes ticket deadline k
            (hand_over kernel (suc n) command bytes ticket deadline k).0
            (hand_over kernel (suc n) command bytes ticket deadline k).1
    hand_over-HandsOver zero bytes ticket deadline k enough =
        let later = try_time bytes ticket k in
        hand_over-round zero bytes ticket deadline k
          (λ left. absurd (omega (arith, later, left, enough)))
    hand_over-HandsOver (suc n) bytes ticket deadline k enough =
        let k₁ = (try_notify kernel command bytes ticket k).1 in
        let later = try_time bytes ticket k in
        let slept = laws.sleep_time 10 k₁ in
        hand_over-round (suc n) bytes ticket deadline k (λ left.
          hand_over-HandsOver n bytes ticket deadline (kernel.board.msleep 10 k₁)
            (omega (arith, later, slept, enough)))

    pub queued-later :
        {bytes : List ℕ} {ticket deadline : ℕ} {k k' : K} {s : Status}
        → HandsOver kernel command bytes ticket deadline k s k'
        → s ≡ done
        → kernel.board.uptime k ≤ kernel.board.uptime k'
    queued-later {bytes = bytes} {ticket = ticket} (queued k fine) e = try_time bytes ticket k
    queued-later (refused k e bad firm) same = absurd (ground (arith, same))
    queued-later (too_late k again over) same = absurd (ground (arith, same))
    queued-later {bytes = bytes} {ticket = ticket} {k = k} (retried again left more) same =
        let later = try_time bytes ticket k in
        let slept = laws.sleep_time 10 (try_notify kernel command bytes ticket k).1 in
        let rest = queued-later more same in omega (arith, later, slept, rest)
