-- ===== src/Main/Loop/Deadline.antt =====
-- The end of the wait in the loop of main.c.
use greentags_lt213a_opendis.Prelude.{Bool, arith, false, true, ℕ, ◌+◌, ◌↔◌, ◌≡◌, ◌≤◌}
use greentags_lt213a_opendis.Main.Loop.{Clock, deadline_of, link_idle_ms, telemetry_ms}

-- The times at which the loop has something to do without an event, all at `t` or later: the reload of
-- the watchdog, the end of a transfer without packets, of an idle link, of a telemetry period, the next
-- attempt to advertise, and the end of the fast window.
abbrev pub NothingBefore : ℕ → Bool → Bool → Clock → ℕ → Type 0
NothingBefore t busy link_up c now =
    (t ≤ now + 60000)
    × (busy ≡ true → t ≤ c.last_packet + 30000)
    × (link_up ≡ true → t ≤ c.last_activity + link_idle_ms)
    × (link_up ≡ false → t ≤ c.last_telemetry + telemetry_ms)
    × (link_up ≡ false → c.restart_advertising ≡ true → t ≤ c.retry_adv_at)
    × (link_up ≡ false
        → c.restart_advertising ≡ false
        → c.fast_advertising ≡ true
        → t ≤ c.slow_adv_at)

-- The wait for events ends at the first of the times that apply: a minute from now; without a
-- connection the next telemetry, and a retry of the advertising that is due or else the end of its
-- fast phase; 30 seconds after the last packet of a transfer or update; two minutes after the last
-- activity of a connection. A time is not after the deadline exactly if it is not after any of them.
pub deadline_of-Soonest :
    (busy link_up : Bool) (c : Clock) (now t : ℕ)
    → (t ≤ deadline_of busy link_up c now) ↔ NothingBefore t busy link_up c now
unfolding deadline_of
deadline_of-Soonest busy link_up c now t = ground arith
