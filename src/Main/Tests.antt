-- ===== src/Main/Tests.antt =====
-- The theorems about main.c at concrete inputs.
mod Simulated
use greentags_lt213a_opendis.Prelude.{
  List, [], done, failed, false, none, refl, replicate, some, true, ℕ, ◌↔◌, ◌∷◌, ◌≡◌, ◌≢◌, ◌≤◌,
}
use greentags_lt213a_opendis.Config.Store.{fresh_store, get_config}
use greentags_lt213a_opendis.Config.Fields.{config_security}
use greentags_lt213a_opendis.Config.Packets.{config_packet, find_packet, stride}
use greentags_lt213a_opendis.Config.Flash.Nor.{Pages, pages, blank_pages}
use greentags_lt213a_opendis.Protocol.Handle.{od_handle, dispatch as protocol_dispatch}
use greentags_lt213a_opendis.Protocol.Transfer.{send, reply}
use greentags_lt213a_opendis.Protocol.Trace.Safety.{zeroed}
use greentags_lt213a_opendis.Protocol.Samples.{copying}
use greentags_lt213a_opendis.Security.Crypto.{Aes, zero_block}
use greentags_lt213a_opendis.Security.Session.{
  handshake, od_security_expire, od_security_enabled, od_security_encrypt,
}
use greentags_lt213a_opendis.Main.Kernel.{live, notification_sent}
use greentags_lt213a_opendis.Main.Send.{try_notify, hand_over, await_sent, send_wire}
use greentags_lt213a_opendis.Main.Send.Outcome.{Sends, send_wire-Sends, send_wire-done, ticket_for}
use greentags_lt213a_opendis.Main.Shell.{Firmware, wire, send_response}
use greentags_lt213a_opendis.Main.Dispatch.{State, expire, dispatch}
use greentags_lt213a_opendis.Main.Dispatch.Guard.{Outcome, dispatch-Outcome}
use greentags_lt213a_opendis.Main.Loop.{deadline_of, supervise}
use greentags_lt213a_opendis.Main.Loop.Deadline.{NothingBefore, deadline_of-Soonest}
use greentags_lt213a_opendis.Main.Loop.Supervision.{IsCurrent, supervise-IsCurrent}
use greentags_lt213a_opendis.Main.Boot.{start_clock}
use greentags_lt213a_opendis.Main.Round.{serve, round}
use greentags_lt213a_opendis.Main.Round.Drives.{Drives, round-Drives}
use greentags_lt213a_opendis.Main.Round.Errors.{serve-breaks}
use greentags_lt213a_opendis.Main.Tests.Simulated.{Sim, sim, sim-KernelLaws, asking, connected_sim}

send_wire-Sends_example :
    Sends sim asking
      (0 ∷ 0x43 ∷ [])
      connected_sim
      (send_wire sim asking (0 ∷ 0x43 ∷ []) connected_sim).0
      (send_wire sim asking (0 ∷ 0x43 ∷ []) connected_sim).1
send_wire-Sends_example = send_wire-Sends sim asking (0 ∷ 0x43 ∷ []) connected_sim sim-KernelLaws

sends : (send_wire sim asking (0 ∷ 0x43 ∷ []) connected_sim).0 ≡ done
unfolding send_wire try_notify hand_over await_sent live notification_sent
sends = refl

send_wire-done_example :
    (live sim asking connected_sim ≡ true)
    × ((send_wire sim asking (0 ∷ 0x43 ∷ []) connected_sim).1.link.notify_ticket
        ≢ ticket_for sim asking connected_sim)
    × (live sim asking (send_wire sim asking (0 ∷ 0x43 ∷ []) connected_sim).1 ≡ true)
send_wire-done_example =
    send_wire-done sim asking (0 ∷ 0x43 ∷ []) connected_sim sim-KernelLaws sends

-- A cipher that always fails; security is off in the configuration of the firmware.
abbrev no_aes : Aes
no_aes key block = none

abbrev firmware : Firmware (List ℕ) Pages Sim
firmware = record {
  kernel = sim;
  zlib = copying;
  flash = pages;
  aes = no_aes;
  build_sha = [];
  deep_sleep = true;
}

abbrev state_on : Sim → List ℕ → State (List ℕ) Pages Sim
state_on k frame = record {
  proto = zeroed;
  config = record { store = fresh_store; flash = blank_pages };
  inflater = [];
  device = record {
    command = record asking { frame = frame };
    security = record {
      key = zero_block;
      id = replicate 8 0;
      phase = handshake zero_block 0;
      rate_time = 0;
      attempts = 0;
      authenticated = false;
      pending = false;
    };
    msd = replicate 16 0;
    name = [];
    frames = 100;
    panel = record {
      partial = false;
      awake = false;
      plane_bytes = 0;
      plane_written = 0;
      board = k;
    };
  };
}

abbrev asked : State (List ℕ) Pages Sim
asked = state_on connected_sim (0 ∷ 0x43 ∷ [])

dispatch-Outcome_example : Outcome firmware (expire firmware 1000 asked) (dispatch firmware asked).1
dispatch-Outcome_example = dispatch-Outcome firmware asked

deadline_of-Soonest_example :
    (31000 ≤ deadline_of true true (start_clock 1000) 2000)
    ↔ NothingBefore 31000 true true (start_clock 1000) 2000
deadline_of-Soonest_example = deadline_of-Soonest true true (start_clock 1000) 2000 31000

supervise-IsCurrent_example :
    IsCurrent firmware 40000
      (record (start_clock 1000) { current = 1 })
      asked
      (supervise firmware 40000 (record (start_clock 1000) { current = 1 }) asked)
supervise-IsCurrent_example =
    supervise-IsCurrent firmware 40000 (record (start_clock 1000) { current = 1 }) asked

-- The connection is gone before the answer to an unknown command.
abbrev gone_sim : Sim
gone_sim = record connected_sim { link = record connected_sim.link { link_up = false } }

abbrev unanswered : State (List ℕ) Pages Sim
unanswered = state_on gone_sim (0 ∷ 0x99 ∷ [])

unanswered_fails : failed (dispatch firmware unanswered).0 ≡ true
unfolding dispatch expire od_security_expire od_security_enabled config_security config_packet
    find_packet get_config stride od_handle protocol_dispatch reply send send_response wire
    send_wire live try_notify hand_over await_sent od_security_encrypt
unanswered_fails = refl

unanswered_breaks : (serve firmware (start_clock 1000) unanswered).1.proto.active ≡ false
unanswered_breaks = serve-breaks firmware (start_clock 1000) unanswered unanswered_fails

-- A command is in the queue.
abbrev queued_sim : Sim
queued_sim = record connected_sim { link = record connected_sim.link { commands = some asking } }

round-Drives_example :
    let c = record (start_clock 1000) { current = 1 } in
    Drives firmware c (state_on queued_sim []) (round firmware c (state_on queued_sim [])).1
round-Drives_example =
    round-Drives firmware (record (start_clock 1000) { current = 1 }) (state_on queued_sim [])
