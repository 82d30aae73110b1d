-- ===== src/Main/Tests/Simulated.antt =====
-- A Zephyr to run main.c on: a clock, the variables that the callbacks share, and the notification whose
-- callback is still to come. The panel is always ready.
use greentags_lt213a_opendis.Prelude.{
  Bool-cases, Option, [], arith, done, false, if◌then◌else◌, inl, inr, none, refl, replicate, some,
  true, ℕ, ◌+◌, ◌∷◌,
}
use greentags_lt213a_opendis.Panel.Gpio.{Board}
use greentags_lt213a_opendis.Telemetry.Int.{pos}
use greentags_lt213a_opendis.Telemetry.Read.{Sensors}
use greentags_lt213a_opendis.Main.Kernel.{Command, Link, Kernel, notification_sent}
use greentags_lt213a_opendis.Main.Send.Relation.{KernelLaws}

pub record Sim : Type 0 where
  pub clock : ℕ
  pub link : Link
  pub outstanding : Option ℕ

abbrev pub pass : ℕ → Sim → Sim
pass ms k = record k { clock = k.clock + ms }

abbrev sim_board : Board Sim
sim_board = record {
  pin_write = λ pin high k. k;
  pin_read = λ pin k. true;
  cfg_input = λ pin k. k;
  cfg_output = λ pin k. k;
  cfg_default = λ pin k. k;
  busy_wait = λ us k. k;
  msleep = pass;
  uptime = λ k. k.clock;
}

abbrev sim_sensors : Sensors Sim
sim_sensors = record {
  temperature = λ k. (some (pos 21, pos 0), k);
  start = λ k. k;
  ended = λ k. true;
  result = λ k. 840;
  stop = λ k. k;
  msleep = pass;
  uptime = λ k. k.clock;
}

abbrev call_back : Option ℕ → Link → Link
call_back none l = l
call_back (some ticket) l = notification_sent ticket l

-- The callback comes in while the loop waits; a semaphore that was given does not wait.
abbrev take_sem : Sim → Sim
take_sem k =
    let waited = if k.link.notify_done then k else record k {
      clock = k.clock + 10;
      link = call_back k.outstanding k.link;
      outstanding = none;
    } in
    record waited { link = record waited.link { notify_done = false } }

abbrev pub sim : Kernel Sim
sim = record {
  board = sim_board;
  sensors = sim_sensors;
  link = λ k. k.link;
  set_link = λ l k. record k { link = l };
  is_connected = λ conn k. k.link.link_up;
  ref = λ conn k. k;
  unref = λ conn k. k;
  disconnect = λ conn k. k;
  notify = λ conn bytes ticket k. (done, record k { outstanding = some ticket });
  connections = λ k. [];
  take_done = λ ms. take_sem;
  take_events = λ ms k. record k { link = record k.link { events = false } };
  adv_start = λ low high msd name k. (done, k);
  adv_stop = λ k. (done, k);
  adv_update = λ msd name k. k;
  set_name = λ name k. (done, k);
  csrand = λ n k. (done, replicate n 7);
  feed = λ k. k;
  reboot = λ k. k;
  device_id = λ i. 0x12345678;
}

pub sim-KernelLaws : KernelLaws sim
sim-KernelLaws = record {
  notify_time = λ conn bytes ticket k. omega arith;
  sleep_time = λ ms k. omega arith;
  take_time = λ k empty. inl (rw empty (omega arith));
  take_empties = λ k. inl refl;
  take_later = λ k. elim (Bool-cases k.link.notify_done) [
    | inl y ↦ rw y (omega arith)
    | inr n ↦ rw n (omega arith)
  ];
}

abbrev pub asking : Command
asking = record { conn = 1; generation = 1; accepted = false; frame = 0 ∷ 0x43 ∷ [] }

abbrev pub connected_sim : Sim
connected_sim = record {
  clock = 1000;
  outstanding = none;
  link = record {
    generation = 1;
    link_up = true;
    events = false;
    notify_done = false;
    notify_ticket = 1;
    notify_generation = 0;
    commands = none;
  };
}
