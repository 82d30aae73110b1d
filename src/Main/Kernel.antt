-- ===== src/Main/Kernel.antt =====
-- What main.c shares between its callbacks and its loop, and the calls of Zephyr that it makes. The
-- callbacks run on another thread: at a call that may wait they may run, in any number.
use greentags_lt213a_opendis.Prelude.{
  Bool, List, Option, Status, bit_or, false, if◌then◌else◌, length, ltb, none, some, true, u32, ℕ,
  ◌!=◌, ◌&&◌, ◌+◌, ◌==◌, ◌||◌,
}
use greentags_lt213a_opendis.Protocol.Base.{max_frame}
use greentags_lt213a_opendis.Panel.Gpio.{Board}
use greentags_lt213a_opendis.Telemetry.Read.{Sensors}

-- struct command; `size` is the length of `frame`. A connection is a number.
pub record Command : Type 0 where
  pub conn : ℕ
  pub generation : ℕ
  pub accepted : Bool
  pub frame : List ℕ

-- The atomic variables, the two semaphores, which count to one, and the queue of one command.
pub record Link : Type 0 where
  pub generation : ℕ
  pub link_up : Bool
  pub events : Bool
  pub notify_done : Bool
  pub notify_ticket : ℕ
  pub notify_generation : ℕ
  pub commands : Option Command

-- Zephyr, on a state of everything outside: bt_conn_get_info, bt_conn_ref, bt_conn_unref,
-- bt_conn_disconnect, bt_gatt_notify_cb, bt_conn_foreach, the two k_sem_take, the advertising calls,
-- bt_set_name, sys_csrand_get, the reload of the watchdog, sys_reboot and DEVICEID. `link` is the part
-- of the state that the callbacks write.
pub record Kernel (K : Type 0) : Type 0 where
  pub board : Board K
  pub sensors : Sensors K
  pub link : K → Link
  pub set_link : Link → K → K
  pub is_connected : ℕ → K → Bool
  pub ref : ℕ → K → K
  pub unref : ℕ → K → K
  pub disconnect : ℕ → K → K
  pub notify : ℕ → List ℕ → ℕ → K → Status × K
  pub connections : K → List ℕ
  pub take_done : ℕ → K → K
  pub take_events : ℕ → K → K
  pub adv_start : ℕ → ℕ → List ℕ → List ℕ → K → Status × K
  pub adv_stop : K → Status × K
  pub adv_update : List ℕ → List ℕ → K → K
  pub set_name : List ℕ → K → Status × K
  pub csrand : ℕ → K → Status × List ℕ
  pub feed : K → K
  pub reboot : K → K
  pub device_id : ℕ → ℕ

-- connected, for a connection without an error.
unfoldable pub connected : Bool → Link → Link
connected err l =
    if err
    then l
    else record l { link_up = true; generation = u32 (l.generation + 1); events = true }

unfoldable pub disconnected : Link → Link
disconnected l = record l { link_up = false; generation = u32 (l.generation + 1); events = true }

-- `ticket` is even; `ticket | 1` is the next number.
unfoldable pub notification_sent : ℕ → Link → Link
notification_sent ticket l =
    if l.notify_ticket == ticket
    then record l { notify_ticket = bit_or ticket 1; notify_done = true }
    else l

-- BT_ATT_ERR_INVALID_OFFSET, BT_ATT_ERR_INVALID_ATTRIBUTE_LEN, BT_ATT_ERR_INSUFFICIENT_RESOURCES
pub data AttError : Type 0 where
  invalid_offset invalid_attribute_len insufficient_resources : AttError

pub data Written : Type 0 where
  stored : ℕ → Written
  refused : AttError → Written

abbrev pub is_some : Option Command → Bool
is_some none = false
is_some (some c) = true

module _ {K : Type 0} (kernel : Kernel K) where
  abbrev pub on_link : (Link → Link) → K → K
  on_link f k = kernel.set_link (f (kernel.link k)) k

  -- `prepare` is the flag BT_GATT_WRITE_FLAG_PREPARE.
  unfoldable pub written : ℕ → List ℕ → ℕ → Bool → K → Written × K
  written conn buf offset prepare k =
      let len = length buf in
      let k₁ = kernel.ref conn k in
      let command : Command = record {
        conn = conn;
        generation = (kernel.link k₁).generation;
        accepted = false;
        frame = buf;
      } in
      if offset != 0 || prepare
      then (refused invalid_offset, k)
      else if ltb len 2 || ltb max_frame len
      then (refused invalid_attribute_len, k)
      else if is_some (kernel.link k₁).commands
      then (refused insufficient_resources, kernel.disconnect conn (kernel.unref conn k₁))
      else (stored len, on_link (λ l. record l { commands = some command; events = true }) k₁)

  unfoldable pub live : Command → K → Bool
  live command k =
      command.generation == (kernel.link k).generation && kernel.is_connected command.conn k

  unfoldable pub disconnect_idle : ℕ → ℕ → K → K
  disconnect_idle current conn k =
      if (kernel.link k).generation != current
      then k
      else if kernel.is_connected conn k
      then kernel.disconnect conn k
      else k
