-- ===== src/Examples/Engine.antt =====
-- The scheduler resumed, and stopped.
use cloudhost_firewall_autou.Common.{
  ◌+◌, ◌≡◌, ◌⊎◌, ◌<◌, ◌≤◌, refl, true, false, some, nat_eq, update, total, arith,
}
use cloudhost_firewall_autou.Syncer.Loop
use cloudhost_firewall_autou.Syncer.Loop.Steps
use cloudhost_firewall_autou.Syncer.Loop.Wakeup.{no_lost_wakeup}
use cloudhost_firewall_autou.Syncer.Loop.Shutdown.{done_once}
use cloudhost_firewall_autou.Syncer.Loop.AfterStop.{passed, here, onward, admitted_after_stop}

abbrev off : Loop.Published
off = record { sync_enabled = false; interval = 60; version = 0 }

abbrev on : Loop.Published
on = record { sync_enabled = true; interval = 60; version = 1 }

abbrev moved : Steps.Engine → Loop.SyncerState → Loop.Run → Steps.Engine
moved e s r = record e { core = s; runs = update e.runs 0 r }

abbrev called : Steps.Engine
called =
    moved (Steps.init (some off)) (record (Loop.new_syncer (some off)) { run_guard = true })
      Loop.entered

abbrev marked : Steps.Engine
marked = moved called (record called.core { running = true }) Loop.marked

abbrev booting : Steps.Engine
booting = moved marked marked.core Loop.boot

abbrev reading : Steps.Engine
reading = moved booting (record booting.core { pending_resume = false }) (Loop.mirroring off)

abbrev sleeping : Steps.Engine
sleeping = moved reading (record reading.core { enabled = false }) (Loop.selecting false 60)

abbrev woken : Steps.Engine
woken = record sleeping { core = Loop.apply_state_locked on sleeping.core; owed = 1 }

sleeping-Reach : Steps.Reach 2 (some off) sleeping
sleeping-Reach =
    let first = Steps.later Steps.start (Steps.running 0 (omega arith) (Steps.call refl refl)) in
    let second = Steps.later first (Steps.running 0 (omega arith) Steps.mark) in
    let third =
      Steps.later second (Steps.running 0 (omega arith) (Steps.begin_ready {st = off} refl)) in
    let fourth = Steps.later third (Steps.running 0 (omega arith) (Steps.boot_consume refl)) in
    Steps.later fourth (Steps.running 0 (omega arith) Steps.mirror)

woken-Reach : Steps.Reach 2 (some off) woken
woken-Reach = Steps.later sleeping-Reach (Steps.publish on)

woken_pending : woken.core.pending_resume ≡ true
unfolding Loop.apply_state_locked
woken_pending = refl

no_lost_wakeup_example : (woken.core.control ≡ true) ⊎ (0 < 1)
no_lost_wakeup_example = no_lost_wakeup woken-Reach 0 false 60 refl woken_pending

-- A second call of Run is turned away.
abbrev repeated : Steps.Engine
repeated = record sleeping { runs = update sleeping.runs 1 Loop.turned_away }

repeated-Reach : Steps.Reach 2 (some off) repeated
repeated-Reach =
    Steps.later sleeping-Reach (Steps.running 1 (omega arith) (Steps.repeated refl refl))

done_once_example : repeated.core.done_closed ≤ 1
done_once_example = done_once repeated-Reach

-- Stop sets its flag between the gate of the first round and the round.
abbrev on_called : Steps.Engine
on_called =
    moved (Steps.init (some on)) (record (Loop.new_syncer (some on)) { run_guard = true })
      Loop.entered

abbrev on_marked : Steps.Engine
on_marked = moved on_called (record on_called.core { running = true }) Loop.marked

abbrev on_booting : Steps.Engine
on_booting = moved on_marked on_marked.core Loop.boot

abbrev on_reading : Steps.Engine
on_reading = moved on_booting on_booting.core (Loop.mirroring on)

abbrev at_gate : Steps.Engine
at_gate = moved on_reading on_reading.core (Loop.boot_gate 60)

abbrev past_gate : Steps.Engine
past_gate = moved at_gate at_gate.core (Loop.boot_passed 60)

abbrev flagged : Steps.Engine
flagged = record past_gate {
  core = record past_gate.core { stopped = true };
  stopper = Loop.flagged false;
}

abbrev first_round : Steps.Engine
first_round = moved flagged (Steps.enter_round flagged.core) (Loop.boot_round 60)

flagged-Reach : Steps.Reach 1 (some on) flagged
flagged-Reach =
    let first = Steps.later Steps.start (Steps.running 0 (omega arith) (Steps.call refl refl)) in
    let second = Steps.later first (Steps.running 0 (omega arith) Steps.mark) in
    let third =
      Steps.later second (Steps.running 0 (omega arith) (Steps.begin_ready {st = on} refl)) in
    let fourth = Steps.later third (Steps.running 0 (omega arith) (Steps.boot_consume refl)) in
    let fifth = Steps.later fourth (Steps.running 0 (omega arith) Steps.mirror) in
    let sixth = Steps.later fifth (Steps.running 0 (omega arith) (Steps.boot_allowed refl)) in
    Steps.later sixth (Steps.stop_flag refl)

admitted_after_stop_example :
    (first_round.core.rounds + total passed 1 first_round.runs
      ≡ flagged.core.rounds + total passed 1 flagged.runs)
    × (total passed 1 flagged.runs ≤ 1)
admitted_after_stop_example =
    admitted_after_stop flagged-Reach (onward here (Steps.running 0 (omega arith) Steps.boot_begin))
      refl
