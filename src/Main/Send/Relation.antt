-- ===== src/Main/Send/Relation.antt =====
-- The two loops of `send_wire` of main.c as relations without fuel, and what they rely on.
use greentags_lt213a_opendis.Prelude.{
  Errno, List, Status, bit_or, done, enotconn, etimedout, fail, false, if◌then◌else◌, true, ℕ, ◌+◌,
  ◌<◌, ◌≡◌, ◌≢◌, ◌≤◌, ◌⊎◌,
}
use greentags_lt213a_opendis.Main.Kernel.{Command, Kernel, live}
use greentags_lt213a_opendis.Main.Send.{is_retry, try_notify, set_ticket}

-- What the loops rely on. No call sets the clock back, and a sleep lasts as long as it is told to.
-- k_sem_take on an empty semaphore waits for its time, unless the callback gives the semaphore, which
-- it does when it changes the ticket; and it leaves an empty semaphore, unless the callback came in.
pub record KernelLaws {K : Type 0} (kernel : Kernel K) : Type 0 where
  pub notify_time :
      (conn : ℕ) (bytes : List ℕ) (ticket : ℕ) (k : K)
      → kernel.board.uptime k ≤ kernel.board.uptime (kernel.notify conn bytes ticket k).1
  pub sleep_time :
      (ms : ℕ) (k : K) → kernel.board.uptime k + ms ≤ kernel.board.uptime (kernel.board.msleep ms k)
  pub take_time :
      (k : K)
      → (kernel.link k).notify_done ≡ false
      → (kernel.board.uptime k + 10 ≤ kernel.board.uptime (kernel.take_done 10 k))
        ⊎ ((kernel.link (kernel.take_done 10 k)).notify_ticket ≢ (kernel.link k).notify_ticket)
  pub take_empties :
      (k : K)
      → ((kernel.link (kernel.take_done 10 k)).notify_done ≡ false)
        ⊎ ((kernel.link (kernel.take_done 10 k)).notify_ticket ≢ (kernel.link k).notify_ticket)
  pub take_later : (k : K) → kernel.board.uptime k ≤ kernel.board.uptime (kernel.take_done 10 k)

module _ {K : Type 0} (kernel : Kernel K) where
  pub data HandsOver (command : Command) (bytes : List ℕ) (ticket deadline : ℕ)
      : K → Status → K → Type 0 where
    queued :
        (k : K)
        → (try_notify kernel command bytes ticket k).0 ≡ done
        → HandsOver command bytes ticket deadline k done
            (try_notify kernel command bytes ticket k).1
    refused :
        (k : K) (e : Errno)
        → (try_notify kernel command bytes ticket k).0 ≡ fail e
        → is_retry (fail e) ≡ false
        → HandsOver command bytes ticket deadline k
            (fail e)
            (set_ticket kernel (bit_or ticket 1) (try_notify kernel command bytes ticket k).1)
    too_late :
        (k : K)
        → is_retry (try_notify kernel command bytes ticket k).0 ≡ true
        → deadline ≤ kernel.board.uptime (try_notify kernel command bytes ticket k).1
        → HandsOver command bytes ticket deadline k
            (fail etimedout)
            (set_ticket kernel (bit_or ticket 1) (try_notify kernel command bytes ticket k).1)
    retried :
        {k k' : K} {s : Status}
        → is_retry (try_notify kernel command bytes ticket k).0 ≡ true
        → kernel.board.uptime (try_notify kernel command bytes ticket k).1 < deadline
        → HandsOver command bytes ticket deadline
            (kernel.board.msleep 10 (try_notify kernel command bytes ticket k).1)
            s
            k'
        → HandsOver command bytes ticket deadline k s k'

  pub data Awaits (command : Command) (ticket deadline : ℕ) : K → Status → K → Type 0 where
    completed :
        (k : K)
        → (kernel.link k).notify_ticket ≢ ticket
        → Awaits command ticket deadline k (if live kernel command k then done else fail enotconn) k
    gone :
        (k : K)
        → (kernel.link k).notify_ticket ≡ ticket
        → live kernel command k ≡ false
        → Awaits command ticket deadline k (fail enotconn) k
    given_up :
        (k : K)
        → (kernel.link k).notify_ticket ≡ ticket
        → live kernel command k ≡ true
        → deadline ≤ kernel.board.uptime k
        → Awaits command ticket deadline k (fail etimedout) k
    waits :
        {k k' : K} {s : Status}
        → (kernel.link k).notify_ticket ≡ ticket
        → live kernel command k ≡ true
        → kernel.board.uptime k < deadline
        → Awaits command ticket deadline (kernel.take_done 10 k) s k'
        → Awaits command ticket deadline k s k'
