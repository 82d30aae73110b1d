-- ===== src/Main/Send.antt =====
-- `send_wire` of main.c: one notification, with its ticket.
pub mod Relation
pub mod Ends
pub mod Outcome
use greentags_lt213a_opendis.Prelude.{
  Bool, List, Status, bit_or, done, eagain, ebusy, enomem, enotconn, etimedout, fail, failed, false,
  if◌then◌else◌, leb, not, out_of_rounds, suc, true, u32, zero, ℕ, ◌!=◌, ◌%◌, ◌&&◌, ◌*◌, ◌+◌, ◌/◌,
  ◌==◌, ◌||◌,
}
use greentags_lt213a_opendis.Main.Kernel.{Command, Kernel, on_link, live}

-- An error that a full buffer gives.
abbrev pub is_retry : Status → Bool
is_retry (fail enomem) = true
is_retry (fail eagain) = true
is_retry s = false

-- (previous + 2U) & ~1U
abbrev pub next_ticket : ℕ → ℕ
next_ticket previous = u32 (previous + 2) / 2 * 2

abbrev pub hand_over_fuel : ℕ
hand_over_fuel = 201

abbrev pub await_fuel : ℕ
await_fuel = 202

module _ {K : Type 0} (kernel : Kernel K) where
  abbrev pub set_ticket : ℕ → K → K
  set_ticket ticket = on_link kernel (λ l. record l { notify_ticket = ticket })

  -- live(command) ? bt_gatt_notify_cb(command->conn, &params) : -ENOTCONN
  unfoldable pub try_notify : Command → List ℕ → ℕ → K → Status × K
  try_notify command bytes ticket k =
      if live kernel command k
      then kernel.notify command.conn bytes ticket k
      else (fail enotconn, k)

  -- The loop that hands the notification over, on fuel: each round that goes on sleeps 10 of its 2000
  -- milliseconds.
  unfoldable pub hand_over : ℕ → Command → List ℕ → ℕ → ℕ → K → Status × K
  hand_over zero command bytes ticket deadline k = (fail out_of_rounds, k)
  hand_over (suc n) command bytes ticket deadline k =
      let (err, k₁) = try_notify command bytes ticket k in
      let rest = hand_over n command bytes ticket deadline (kernel.board.msleep 10 k₁) in
      if not (failed err)
      then (done, k₁)
      else if not (is_retry err) || leb deadline (kernel.board.uptime k₁)
      then (if is_retry err then fail etimedout else err, set_ticket (bit_or ticket 1) k₁)
      else rest

  -- The loop that waits for the callback.
  unfoldable pub await_sent : ℕ → Command → ℕ → ℕ → K → Status × K
  await_sent zero command ticket deadline k = (fail out_of_rounds, k)
  await_sent (suc n) command ticket deadline k =
      let rest = await_sent n command ticket deadline (kernel.take_done 10 k) in
      if (kernel.link k).notify_ticket != ticket
      then (if live kernel command k then done else fail enotconn, k)
      else if not (live kernel command k)
      then (fail enotconn, k)
      else if leb deadline (kernel.board.uptime k)
      then (fail etimedout, k)
      else rest

  -- The ticket, the generation and the semaphore before the first attempt.
  abbrev pub reserve : Command → K → K
  reserve command k =
      on_link kernel
        (λ l. record l {
          notify_generation = command.generation;
          notify_ticket = next_ticket (kernel.link k).notify_ticket;
          notify_done = false;
        })
        k

  -- !(previous & 1) && notify_generation == command->generation
  abbrev pub is_reserved : Command → K → Bool
  is_reserved command k =
      (kernel.link k).notify_ticket % 2 == 0
      && (kernel.link k).notify_generation == command.generation

  unfoldable pub send_wire : Command → List ℕ → K → Status × K
  send_wire command bytes k =
      let ticket = next_ticket (kernel.link k).notify_ticket in
      let k₁ = reserve command k in
      let deadline = kernel.board.uptime k₁ + 2000 in
      let (err, k₂) = hand_over hand_over_fuel command bytes ticket deadline k₁ in
      let sent = await_sent await_fuel command ticket deadline k₂ in
      if not (live kernel command k)
      then (fail enotconn, k)
      else if is_reserved command k
      then (fail ebusy, k)
      else if failed err
      then (err, k₂)
      else sent
