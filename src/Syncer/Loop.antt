-- ===== src/Syncer/Loop.antt =====
-- syncer/syncer.go: Run, Stop, ApplyState, Pause, Resume and TriggerSync, as steps of goroutines over
-- the Syncer. Every part under the mutex and every channel operation is one step; between two of them
-- the others may step. What a round does is in Syncer/Round; times, hooks, logs and `startedCh`
-- are left out.
pub mod Steps
pub mod Single
pub mod Wakeup
pub mod Shutdown
pub mod AfterStop
use cloudhost_firewall_autou.Common.{
  ℕ, suc, ◌+◌, ◌-◌, ◌<◌, ◌≡◌, Bool, true, false, not, ◌&&◌, ◌||◌, Option, none, some, if◌then◌else◌,
  ◌==◌, nat_eq,
}

-- What the loop reads of a RuntimeState; `version` tells pointers apart.
pub record Published : Type 0 where
  pub sync_enabled : Bool
  pub interval : ℕ
  pub version : ℕ

-- A channel of capacity 1 is whether it holds a message. `done_closed` counts how often `doneCh` is
-- closed, `rounds` how many rounds beginRound has begun.
pub record SyncerState : Type 0 where
  pub runtime : Option Published
  pub enabled : Bool
  pub pending_resume : Bool
  pub applied : Option ℕ
  pub stopped : Bool
  pub run_guard : Bool
  pub running : Bool
  pub control : Bool
  pub trigger : Bool
  pub stop_closed : Bool
  pub done_closed : ℕ
  pub round_running : Bool
  pub rounds : ℕ

abbrev pub is_on : Option Published → Bool
is_on none = false
is_on (some st) = st.sync_enabled

abbrev pub version_of : Option Published → Option ℕ
version_of none = none
version_of (some st) = some st.version

abbrev pub new_syncer : Option Published → SyncerState
new_syncer st = record {
  runtime = st;
  enabled = is_on st;
  pending_resume = false;
  applied = version_of st;
  stopped = false;
  run_guard = false;
  running = false;
  control = false;
  trigger = false;
  stop_closed = false;
  done_closed = 0;
  round_running = false;
  rounds = 0;
}

-- Whether a state was published that is paused.
abbrev pub is_paused : Option Published → Bool
is_paused none = false
is_paused (some st) = not st.sync_enabled

unfoldable pub apply_state_locked : Published → SyncerState → SyncerState
apply_state_locked next s = record s {
  pending_resume = if is_paused s.runtime && next.sync_enabled then true else s.pending_resume;
  runtime = some next;
  enabled = next.sync_enabled;
}

abbrev pub switch_to : Bool → ℕ → Option Published → SyncerState → Bool × SyncerState
switch_to on fresh none s = (false, s)
switch_to on fresh (some st) s =
    if (st.sync_enabled && on) || (not st.sync_enabled && not on)
    then (false, s)
    else (true, apply_state_locked (record st { sync_enabled = on; version = fresh }) s)

-- The part of setSyncEnabled under the lock: whether a new state, a pointer `fresh`, was published.
unfoldable pub set_sync_enabled : Bool → ℕ → SyncerState → Bool × SyncerState
set_sync_enabled on fresh s = switch_to on fresh s.runtime s

abbrev enabled_in : Bool → Option Published → Bool
enabled_in mirror none = mirror
enabled_in mirror (some st) = st.sync_enabled

unfoldable pub is_enabled : SyncerState → Bool
is_enabled s = enabled_in s.enabled s.runtime

-- Where a call of Run stands. `_gate` is before the check of the stop flag, `_passed` behind it and
-- before the lock under which the round begins; a call that is leaving has yet to close `doneCh`.
pub data Source : Type 0 where
  ticker triggered : Source

pub data Run : Type 0 where
  outside : Run
  turned_away : Run
  entered : Run
  marked : Run
  await_state : Run
  boot : Run
  mirroring : Published → Run
  boot_gate : ℕ → Run
  boot_passed : ℕ → Run
  boot_round : ℕ → Run
  selecting : Bool → ℕ → Run
  check_pending : Source → ℕ → Run
  check_enabled : Source → ℕ → Run
  check_gate : Source → ℕ → Run
  check_passed : ℕ → Run
  in_round : ℕ → Run
  consuming : Bool → ℕ → Bool → Run
  resume_drain : Published → Run
  resume_gate : Published → Run
  resume_passed : Published → Run
  resume_round : Published → Run
  applying : Published → ℕ → Run
  quitting : Run
  leaving : Run
  exited : Run

abbrev pub after_mirror : Published → Run
after_mirror st = if st.sync_enabled then boot_gate st.interval else selecting false st.interval

-- A check that drops a tick goes on to read the state; one that drops a trigger selects again.
abbrev pub dropped : Source → ℕ → Run
dropped ticker interval = consuming true interval false
dropped triggered interval = selecting true interval

-- The interval of the ticker after the case of an enabled state that stays enabled.
abbrev pub next_interval : Bool → Published → ℕ → ℕ
next_interval completed st interval =
    if completed || not (st.interval == interval) then st.interval else interval

-- The switch of Run on the state that it has consumed.
unfoldable pub decide : Option Published → Bool → Bool → ℕ → Bool → Run
decide none pending was interval completed = selecting was interval
decide (some st) pending was interval completed =
    if st.sync_enabled && (not was || pending)
    then resume_drain st
    else if was && st.sync_enabled
    then applying st (next_interval completed st interval)
    else applying st interval

-- Where Stop stands; `flagged` and `closing` hold whether Run was never started.
pub data Stopper : Type 0 where
  idle : Stopper
  flagged : Bool → Stopper
  closing : Bool → Stopper
  finished : Bool → Stopper
